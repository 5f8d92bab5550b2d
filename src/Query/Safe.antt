-- ===== src/Query/Safe.antt =====
-- The SQL of a filter (src/query/query.cpp) keeps to its place in the statement: literals here, the
-- predicates and the whole filter in the modules below.
pub mod Leaves
pub mod Comparison
pub mod Nodes
pub mod Sort
use star_base.Query.Platform.{IsSound}
use star_base.Query.Sql.{
  outside, quoted, scan, is_calm, scan_part, IsNeutral, calm-IsNeutral, number-IsNeutral,
  decimal_int-IsNeutral,
}
use star_base.Query.Columns.{
  ColumnType, str, num, date, columns, binops, find_key, literal, numeric_literal, text_literal,
  number_text, quote, reads_whole,
}
use star_base.Common.{
  ℕ, ◌≡◌, refl, ap, ◌∙◌, subst, inl, inr, Bool, true, ◌&&◌, Option, none, some, List, [], ◌∷◌, ◌++◌,
  arith, ==→eq, Bool-cases, length, all, Bytes, codes, text_eq, text_eq→eq, find,
}
use star_base.Common.Decimal.{decimal}
use star_base.Common.Int.{decimal_int}
use star_base.Query.Json
use star_base.Query.Json.{Json, number, string, Result, ok, err, ◌>>=◌, ◌>>◌}
use star_base.Query.Platform.{Platform}

-- An error, or a text that is neutral.
abbrev pub Safe : Result Bytes → Type 0
Safe (ok s) = IsNeutral s
Safe (err e) = Unit {0}

pub bind-Safe {ℓ} :
    {A : Type ℓ} (m : Result A) (f : A → Result Bytes)
    → ((a : A) → m ≡ ok a → Safe (f a))
    → Safe (m >>= f)
bind-Safe (ok a) f h = h a refl
bind-Safe (err e) f h = tt

-- A result that is safe, and what is made of it.
pub then-Safe :
    (m : Result Bytes) (f : Bytes → Result Bytes)
    → Safe m
    → ((s : Bytes) → IsNeutral s → Safe (f s))
    → Safe (m >>= f)
then-Safe (ok s) f safe h = h s safe
then-Safe (err e) f safe h = tt

pub past :
    (a rest : Bytes) (k : ℕ) → IsNeutral a → scan (outside k) (a ++ rest) ≡ scan (outside k) rest
past a rest k h = scan_part a rest (outside k) (outside k) (h k)

-- The values of a map with calm entries are calm.
find_key-calm :
    (m : List (Bytes × Bytes)) (op o : Bytes)
    → all (λ e. all is_calm e.1) m ≡ true
    → find_key op m ≡ some o
    → IsNeutral o
unfolding find_key
find_key-calm [] op o h e = absurd (cc)
find_key-calm ((j, w) ∷ m) op o h e = elim (Bool-cases (text_eq j op)) [
  | inl t ↦ calm-IsNeutral o (ground arith)
  | inr t ↦ find_key-calm m op o (ground arith) (ground arith)
]

pub binops-IsNeutral : (op o : Bytes) → find_key op binops ≡ some o → IsNeutral o
unfolding binops is_calm
binops-IsNeutral op o e = find_key-calm binops op o refl e

columns-IsNeutral :
    (m : List (Bytes × ColumnType)) (c : Bytes) (t : ColumnType)
    → all (λ e. all is_calm e.0) m ≡ true
    → find_key c m ≡ some t
    → IsNeutral c
unfolding find_key
columns-IsNeutral [] c t h e = absurd (cc)
columns-IsNeutral ((j, w) ∷ m) c t h e = elim (Bool-cases (text_eq j c)) [
  | inl q ↦ subst IsNeutral (text_eq→eq j c q) (calm-IsNeutral j (ground arith))
  | inr q ↦ columns-IsNeutral m c t (ground arith) (ground arith)
]

-- A promoted column's name is neutral.
pub column-IsNeutral : (c : Bytes) (t : ColumnType) → find_key c columns ≡ some t → IsNeutral c
unfolding columns is_calm
column-IsNeutral c t e = columns-IsNeutral columns c t refl e

module _ (p : Platform) (sound : IsSound p) where
  open p use {Double, Number, escape, to_string, stod}

  pub inside : (s rest : Bytes) (k : ℕ) → scan (quoted k) (escape s ++ rest) ≡ scan (quoted k) rest
  inside s rest k = scan_part (escape s) rest (quoted k) (quoted k) (sound.escape_inside s k)

  pub double-IsNeutral : (d : Double) → IsNeutral (to_string d)
  double-IsNeutral d = number-IsNeutral (to_string d) (sound.to_string_number d)

  pub quote-IsNeutral : (s : Bytes) → IsNeutral (quote p s)
  unfolding quote scan
  quote-IsNeutral s k = inside s (b'\'' ∷ []) k

  number_text-IsNeutral : (d : Double) → IsNeutral (number_text p d)
  unfolding number_text
  number_text-IsNeutral d =
      elim (Bool-cases (p.equal d (p.floor d) && p.less (p.abs d) (p.literal (codes "1e15")))) [
        | inl e ↦ rw e (decimal_int-IsNeutral (p.to_long d))
        | inr e ↦ rw e (double-IsNeutral d)
      ]

  whole-IsNeutral :
      (s : Bytes) (r : Option (Double × ℕ)) → stod s ≡ r → reads_whole p s r ≡ true → IsNeutral s
  unfolding reads_whole
  whole-IsNeutral s none e h = absurd (cc)
  whole-IsNeutral s (some (d, n)) e h =
      sound.stod_neutral s d (e ∙ ap (λ m. some (d, m)) (==→eq n (length s) h))

  numeric-Safe : (v : Json Number) → Safe (numeric_literal p v)
  unfolding numeric_literal
  numeric-Safe (number n) = number_text-IsNeutral (p.get_double n)
  numeric-Safe (string s) = elim (Bool-cases (reads_whole p s (stod s))) [
    | inl e ↦ rw e (whole-IsNeutral s (stod s) refl e)
    | inr e ↦ rw e tt
  ]
  numeric-Safe _ = tt

  text-Safe : (v : Json Number) → Safe (text_literal p v)
  unfolding text_literal
  text-Safe (string s) = quote-IsNeutral s
  text-Safe (number n) = quote-IsNeutral (to_string (p.get_double n))
  text-Safe _ = tt

  pub literal-Safe : (t : ColumnType) (v : Json Number) → Safe (literal p t v)
  unfolding literal
  literal-Safe num v = numeric-Safe v
  literal-Safe str v = text-Safe v
  literal-Safe date v = text-Safe v
