-- ===== src/Match/Calibration/Safe.antt =====
-- The statement of a rule.
use star_base.Match.Calibration.{
  Library, LightKey, FieldSpec, FieldVal, match_fields, is_match_field, with_clause, conditions,
  clause, value_text, trim_num, number_of, light_value, parse_spec, age_limit, where_of,
  session_order, date_order, order_of, frames_query, then_some,
}
use star_base.Db.Database.Statements.{quoted_text}
use star_base.Db.Database.Statements.Safe.{concat-IsNeutral, quoted_text-IsNeutral}
use star_base.Query.Json.{Json, Members}
use star_base.Query.Platform.{Platform, IsSound}
use star_base.Query.Sql.{
  outside, scan, is_calm, is_number, IsNeutral, calm-IsNeutral, number-IsNeutral, IsNeutral-append,
  scan_part, decimal_int-IsNeutral,
}
use star_base.Common.{
  suc, ◌≡◌, refl, sym, ◌∙◌, subst, inl, inr, Bool, true, false, Option, none, some, List, [], ◌∷◌,
  ◌++◌, arith, if◌then◌else◌, Bool-cases, all, any, Bytes, codes, concat, text_eq, text_eq→eq,
}
use star_base.Common.Int.{ℤ, pos, decimal_int}

then_some-some :
    {A B : Type 0} (o : Option A) (f : A → Option B) (b : B)
    → then_some o f ≡ some b
    → (a : A) × (o ≡ some a) × (f a ≡ some b)
unfolding then_some
then_some-some none f b h = absurd (cc h)
then_some-some (some a) f b h = (a, refl, h)

calm_among :
    (f : Bytes) (names : List Bytes)
    → any (text_eq f) names ≡ true
    → all (all is_calm) names ≡ true
    → all is_calm f ≡ true
calm_among f [] h k = absurd (cc h)
calm_among f (n ∷ names) h k = elim (Bool-cases (text_eq f n)) [
  | inl e ↦ subst (λ s. all is_calm s ≡ true) (sym (text_eq→eq f n e)) (ground (arith, k))
  | inr e ↦ calm_among f names (ground (arith, e, h)) (ground (arith, k))
]

some-injective : {A : Type 0} (a b : A) → some a ≡ some b → a ≡ b
some-injective a b h = cc h

-- The text of a match field is a name of a column.
match_field-calm : (f : Bytes) → is_match_field f ≡ true → all is_calm f ≡ true
unfolding is_match_field is_calm
match_field-calm f h = calm_among f match_fields h refl

module _ (p : Platform) (sound : IsSound p) (lib : Library p)
    (stream_number : (d : p.Double) → is_number (lib.stream d) ≡ true) where
  quoted-IsNeutral : (s : Bytes) → IsNeutral (quoted_text p.escape s)
  quoted-IsNeutral s = quoted_text-IsNeutral p.escape sound.escape_inside s

  int-IsNeutral : (n : ℤ) → IsNeutral (decimal_int n)
  int-IsNeutral n = decimal_int-IsNeutral n

  trim_num-IsNeutral : (d : p.Double) → IsNeutral (trim_num p lib d)
  unfolding trim_num
  trim_num-IsNeutral d = elim (Bool-cases (p.equal d (p.floor d))) [
    | inl e ↦ rw e (int-IsNeutral (p.to_long d))
    | inr e ↦ rw e (number-IsNeutral (lib.stream d) (stream_number d))
  ]

  value_text-IsNeutral : (v : FieldVal p) → IsNeutral (value_text p lib v)
  unfolding value_text scan
  value_text-IsNeutral FieldVal.absent = λ k. refl
  value_text-IsNeutral (FieldVal.num d) = trim_num-IsNeutral d
  value_text-IsNeutral (FieldVal.text s) = quoted-IsNeutral s

  exact-IsNeutral :
      (field v : Bytes)
      → IsNeutral field
      → IsNeutral v
      → IsNeutral (concat (codes " AND f." ∷ field ∷ codes " = " ∷ v ∷ []))
  unfolding scan
  exact-IsNeutral field v h hv = λ k.
      scan_part field _ (outside k) (outside k) (h k)
      ∙ scan_part v [] (outside k) (outside k) (hv k)

  null_ok-IsNeutral :
      (field v : Bytes)
      → IsNeutral field
      → IsNeutral v
      → IsNeutral (
          concat (
            codes " AND (f."
            ∷ field
            ∷ codes " = "
            ∷ v
            ∷ codes " OR f."
            ∷ field
            ∷ codes " IS NULL)"
            ∷ []))
  unfolding scan
  null_ok-IsNeutral field v h hv = λ k.
      scan_part field _ (outside (suc k)) (outside (suc k)) (h (suc k))
      ∙ scan_part v _ (outside (suc k)) (outside (suc k)) (hv (suc k))
      ∙ scan_part field _ (outside (suc k)) (outside (suc k)) (h (suc k))

  tol-IsNeutral :
      (field : Bytes) (d t : p.Double)
      → IsNeutral field
      → IsNeutral (
          concat (
            codes " AND ABS(f."
            ∷ field
            ∷ codes " - "
            ∷ trim_num p lib d
            ∷ codes ") <= "
            ∷ trim_num p lib t
            ∷ []))
  unfolding scan
  tol-IsNeutral field d t h = λ k.
      scan_part field _ (outside (suc k)) (outside (suc k)) (h (suc k))
      ∙ scan_part (trim_num p lib d) _ (outside (suc k)) (outside (suc k))
          (trim_num-IsNeutral d (suc k))
      ∙ scan_part (trim_num p lib t) [] (outside k) (outside k) (trim_num-IsNeutral t k)

  clause-IsNeutral :
      (field : Bytes) (spec : FieldSpec p) (v : FieldVal p)
      → IsNeutral field
      → IsNeutral (clause p lib field spec v).0
  unfolding clause scan value_text number_of
  clause-IsNeutral field FieldSpec.exact FieldVal.absent h =
      λ k. scan_part field _ (outside k) (outside k) (h k)
  clause-IsNeutral field FieldSpec.exact_null_ok FieldVal.absent h = λ k. refl
  clause-IsNeutral field (FieldSpec.tol t) FieldVal.absent h = λ k. refl
  clause-IsNeutral field FieldSpec.exact (FieldVal.num d) h =
      exact-IsNeutral field (trim_num p lib d) h (trim_num-IsNeutral d)
  clause-IsNeutral field FieldSpec.exact (FieldVal.text s) h =
      exact-IsNeutral field (quoted_text p.escape s) h (quoted-IsNeutral s)
  clause-IsNeutral field FieldSpec.exact_null_ok (FieldVal.num d) h =
      null_ok-IsNeutral field (trim_num p lib d) h (trim_num-IsNeutral d)
  clause-IsNeutral field FieldSpec.exact_null_ok (FieldVal.text s) h =
      null_ok-IsNeutral field (quoted_text p.escape s) h (quoted-IsNeutral s)
  clause-IsNeutral field (FieldSpec.tol t) (FieldVal.num d) h = tol-IsNeutral field d t h
  clause-IsNeutral field (FieldSpec.tol t) (FieldVal.text s) h =
      tol-IsNeutral field (lib.of_int (pos 0)) t h

  member-skipped :
      (light : LightKey p) (field : Bytes) (v : Json p.Number) (fs : Members p.Number)
      → is_match_field field ≡ false
      → conditions p lib light (Members.member field v fs) ≡ conditions p lib light fs
  unfolding conditions
  member-skipped light field v fs e = rw e refl

  member-taken :
      (light : LightKey p) (field : Bytes) (v : Json p.Number) (fs : Members p.Number)
      → is_match_field field ≡ true
      → conditions p lib light (Members.member field v fs)
        ≡ then_some (parse_spec p v) (λ s.
          then_some
            (conditions p lib light fs)
            (with_clause p lib (clause p lib field s (light_value p lib field light))))
  unfolding conditions
  member-taken light field v fs e = rw e refl

  conditions-IsNeutral :
      (light : LightKey p) (fs : Members p.Number) (found : Bytes × List Bytes)
      → conditions p lib light fs ≡ some found
      → IsNeutral found.0
  unfolding conditions with_clause scan
  conditions-IsNeutral light Members.no_members found h =
      subst (λ (r : Bytes × List Bytes). IsNeutral r.0) (some-injective ([], []) found h)
        (λ k. refl)
  conditions-IsNeutral light (Members.member field v fs) found h =
      elim (Bool-cases (is_match_field field)) [
        | inr e ↦ conditions-IsNeutral light fs found (sym (member-skipped light field v fs e) ∙ h)
        | inl e ↦
            let (s, q, r) =
              then_some-some (parse_spec p v)
                (λ s.
                  then_some (conditions p lib light fs)
                    (with_clause p lib (clause p lib field s (light_value p lib field light))))
                found (sym (member-taken light field v fs e) ∙ h) in
            let (rest, u, w) =
              then_some-some (conditions p lib light fs)
                (with_clause p lib (clause p lib field s (light_value p lib field light))) found
                r in
            subst (λ (r : Bytes × List Bytes). IsNeutral r.0)
              (some-injective
                (
                  (clause p lib field s (light_value p lib field light)).0 ++ rest.0,
                  (clause p lib field s (light_value p lib field light)).1 ++ rest.1,
                )
                found w)
              (IsNeutral-append (clause p lib field s (light_value p lib field light)).0 rest.0
                (clause-IsNeutral field s (light_value p lib field light)
                  (calm-IsNeutral field (match_field-calm field e)))
                (conditions-IsNeutral light fs rest u))
      ]

  age_limit-IsNeutral :
      (days : Option ℤ) (date : Option Bytes) → IsNeutral (age_limit p lib days date)
  unfolding age_limit scan
  age_limit-IsNeutral none date = λ k. refl
  age_limit-IsNeutral (some n) none = λ k. refl
  age_limit-IsNeutral (some n) (some date) = λ k.
      scan_part (quoted_text p.escape date) _ (outside (suc (suc (suc k))))
        (outside (suc (suc (suc k)))) (quoted-IsNeutral date (suc (suc (suc k))))
      ∙ scan_part (decimal_int n) _ (outside (suc k)) (outside (suc k)) (int-IsNeutral n (suc k))

  where-IsNeutral :
      (light : LightKey p) (target condition : Bytes) (max_age : Option ℤ)
      → IsNeutral condition
      → IsNeutral (where_of p lib light target condition max_age)
  unfolding where_of scan
  where-IsNeutral light target condition max_age h = λ k.
      scan_part (quoted_text p.escape target) _ (outside (suc k)) (outside (suc k))
        (quoted-IsNeutral target (suc k))
      ∙ scan_part (quoted_text p.escape target) _ (outside (suc (suc k))) (outside (suc (suc k)))
          (quoted-IsNeutral target (suc (suc k)))
      ∙ scan_part condition _ (outside k) (outside k) (h k)
      ∙ scan_part (age_limit p lib max_age light.date_obs_utc) [] (outside k) (outside k)
          (age_limit-IsNeutral max_age light.date_obs_utc k)

  session_order-IsNeutral :
      (prefer : Bool) (night : Option Bytes) → IsNeutral (session_order p lib prefer night)
  unfolding session_order scan
  session_order-IsNeutral true (some night) = λ k.
      scan_part (quoted_text p.escape night) _ (outside (suc k)) (outside (suc k))
        (quoted-IsNeutral night (suc k))
  session_order-IsNeutral true none = λ k. refl
  session_order-IsNeutral false night = λ k. refl

  date_order-IsNeutral : (date : Option Bytes) → IsNeutral (date_order p lib date)
  unfolding date_order scan
  date_order-IsNeutral none = λ k. refl
  date_order-IsNeutral (some date) = λ k.
      scan_part (quoted_text p.escape date) _ (outside (suc (suc k))) (outside (suc (suc k)))
        (quoted-IsNeutral date (suc (suc k)))

  masters-IsNeutral :
      (b : Bool) → IsNeutral (if b then codes "(f.image_type = 'master') DESC, " else [])
  unfolding scan
  masters-IsNeutral true = λ k. refl
  masters-IsNeutral false = λ k. refl

  order-IsNeutral :
      (light : LightKey p) (masters session : Bool)
      → IsNeutral (order_of p lib light masters session)
  unfolding order_of scan
  order-IsNeutral light masters session =
      concat-IsNeutral
        ((if masters then codes "(f.image_type = 'master') DESC, " else [])
          ∷ session_order p lib session light.session_night
          ∷ date_order p lib light.date_obs_utc
          ∷ codes "f.id ASC"
          ∷ [])
        (
          masters-IsNeutral masters,
          (
            session_order-IsNeutral session light.session_night,
            (date_order-IsNeutral light.date_obs_utc, ((λ k. refl), tt)),
          ),
        )

  -- The statement that fetches the candidates of a rule is one statement, whatever the rule's fields, tolerances and target are and
  -- whatever texts the light has: only match fields stand in it as they are written, and every text is quoted.
  pub frames_query-statement :
      (light : LightKey p) (fs : Members p.Number) (found : Bytes × List Bytes) (target : Bytes)
      (max_age : Option ℤ) (masters session : Bool) (limit : ℤ)
      → conditions p lib light fs ≡ some found
      → scan (outside 0) (
          frames_query p lib
            (where_of p lib light target found.0 max_age)
            (order_of p lib light masters session)
            limit)
        ≡ some (outside 0)
  unfolding frames_query scan
  frames_query-statement light fs found target max_age masters session limit h =
      scan_part (where_of p lib light target found.0 max_age) _ (outside 0) (outside 0)
        (where-IsNeutral light target found.0 max_age (conditions-IsNeutral light fs found h) 0)
      ∙ scan_part (order_of p lib light masters session) _ (outside 0) (outside 0)
          (order-IsNeutral light masters session 0)
      ∙ scan_part (decimal_int limit) [] (outside 0) (outside 0) (int-IsNeutral limit 0)
