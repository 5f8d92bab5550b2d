-- ===== src/Names/Sesame/Outcome.antt =====
-- When a query of src/names/sesame.cpp reports an error.
use star_base.Names.Sesame.{
  SesameResult, no_result, with_coords, with_name, with_type, behind_space, parse_line, parse_lines,
  parse_oi, Response, thrown, no_response, response, checked, outcome, sesame_resolve, url_encode,
}
use star_base.Common.Lines.{lines, trim}
use star_base.Common.{
  ◌≡◌, refl, sym, ap, ◌∙◌, subst, inl, inr, false, not, ◌&&◌, Option, none, some, List, [], ◌∷◌,
  ◌++◌, ◌==◌, if◌then◌else◌, Bool-cases, is_empty, drop, Bytes, codes, starts_with,
}

module _ (Double : Type 0) (zero_double : Double)
    (read_two : Bytes → Option (Double × Double)) where
  coords-error :
      (r : SesameResult Double zero_double read_two) (o : Option (Double × Double))
      → (with_coords Double zero_double read_two r o).error ≡ r.error
  unfolding with_coords
  coords-error r none = refl
  coords-error r (some (ra, dec)) = refl

  name-error :
      (r : SesameResult Double zero_double read_two) (o : Option Bytes)
      → (with_name Double zero_double read_two r o).error ≡ r.error
  unfolding with_name
  name-error r none = refl
  name-error r (some s) = refl

  type-error :
      (r : SesameResult Double zero_double read_two) (o : Option Bytes)
      → (with_type Double zero_double read_two r o).error ≡ r.error
  unfolding with_type
  type-error r none = refl
  type-error r (some s) = refl

  parse_line-error :
      (r : SesameResult Double zero_double read_two) (l : Bytes)
      → (parse_line Double zero_double read_two r l).error ≡ r.error
  unfolding parse_line
  parse_line-error r l = elim (Bool-cases (starts_with (codes "%J ") l && not r.has_coords)) [
    | inl e ↦ rw e (coords-error r (read_two (drop 3 l)))
    | inr e ↦ elim (Bool-cases (starts_with (codes "%I") l && is_empty r.name)) [
      | inl k ↦ rw (e, k) (name-error r (behind_space l))
      | inr k ↦ elim (Bool-cases (starts_with (codes "%C") l && is_empty r.otype)) [
        | inl m ↦ rw (e, k, m) (type-error r (behind_space l))
        | inr m ↦ rw (e, k, m) refl
      ]
    ]
  ]

  parse_lines-error :
      (r : SesameResult Double zero_double read_two) (ls : List Bytes)
      → (parse_lines Double zero_double read_two r ls).error ≡ r.error
  unfolding parse_lines
  parse_lines-error r [] = refl
  parse_lines-error r (l ∷ ls) =
      parse_lines-error (parse_line Double zero_double read_two r (trim l)) ls
      ∙ parse_line-error r (trim l)

  parse_oi-error : (body : Bytes) → (parse_oi Double zero_double read_two body).error ≡ []
  unfolding parse_oi no_result
  parse_oi-error body = parse_lines-error (no_result Double zero_double read_two) (lines body)

  Tells : SesameResult Double zero_double read_two → Type 0
  Tells r = r.ok ≡ is_empty r.error

  checked-Tells :
      (r : SesameResult Double zero_double read_two)
      → r.error ≡ []
      → Tells (checked Double zero_double read_two r)
  unfolding checked Tells
  checked-Tells r e = elim (Bool-cases r.ok) [
    | inl k ↦
        subst Tells (sym (ap (λ b. if b then r else record r { error = codes "no match" }) k))
          (k ∙ sym (ap is_empty e))
    | inr k ↦
        subst Tells (sym (ap (λ b. if b then r else record r { error = codes "no match" }) k)) k
  ]

  outcome-Tells :
      (o : Response Double zero_double read_two)
      → ((what : Bytes) → o ≡ thrown what → is_empty what ≡ false)
      → Tells (outcome Double zero_double read_two o)
  unfolding outcome no_result Tells
  outcome-Tells (thrown what) k = sym (k what refl)
  outcome-Tells no_response k = refl
  outcome-Tells (response status body) k = elim (Bool-cases (not (status == 200))) [
    | inl e ↦ rw e refl
    | inr e ↦ rw e (
        unfold Tells in
        (checked-Tells (parse_oi Double zero_double read_two body) (parse_oi-error body)))
  ]

  -- A lookup is reported as good exactly when it reports no error: a network failure, another status, an
  -- exception and a reply without a match each leave a text, and a match leaves none. That the exceptions
  -- of the HTTP client have a text is assumed.
  pub sesame_resolve-tells :
      (get : Bytes → Response Double zero_double read_two) (raw : Bytes)
      → ((path what : Bytes) → get path ≡ thrown what → is_empty what ≡ false)
      → (sesame_resolve Double zero_double read_two get raw).ok
        ≡ is_empty (sesame_resolve Double zero_double read_two get raw).error
  unfolding sesame_resolve Tells
  sesame_resolve-tells get raw h =
      outcome-Tells (get (codes "/cgi-bin/nph-sesame/-oI/SNV?" ++ url_encode raw))
        (h (codes "/cgi-bin/nph-sesame/-oI/SNV?" ++ url_encode raw))
