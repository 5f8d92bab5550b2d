-- ===== src/Action/Engine/Export/Csv.antt =====
-- The CSV lines of `export_frames` as a reader of CSV takes them.
use star_base.Action.Engine.Export.{csv_field, doubled}
use star_base.Common.{
  ℕ, ◌≡◌, refl, ap, ◌∙◌, inl, inr, Bool, true, false, ◌||◌, Option, none, some, [], ◌∷◌, ◌++◌,
  append_assoc, arith, ◌==◌, if◌then◌else◌, Bool-cases, Bytes, has_byte,
}

abbrev one_more : ℕ → Option (Bytes × Bytes) → Option (Bytes × Bytes)
one_more c none = none
one_more c (some (f, rest)) = some (c ∷ f, rest)

-- A quoted field behind its first quote: two quotes are one, and one ends the field. The flag tells that
-- a quote has just been read.
read_quoted : Bool → Bytes → Option (Bytes × Bytes)
read_quoted false [] = none
read_quoted true [] = some ([], [])
read_quoted false (c ∷ s) =
    let more = read_quoted true s in
    let rest = one_more c (read_quoted false s) in if c == b'"' then more else rest
read_quoted true (c ∷ s) =
    let rest = one_more c (read_quoted false s) in if c == b'"' then rest else some ([], c ∷ s)

-- Any other field, up to a comma or a newline.
read_plain : Bytes → Option (Bytes × Bytes)
read_plain [] = some ([], [])
read_plain (c ∷ s) =
    let rest = one_more c (read_plain s) in if c == b',' || c == 10 then some ([], c ∷ s) else rest

-- A field, and what is left behind it.
pub read_field : Bytes → Option (Bytes × Bytes)
unfolding read_quoted read_plain
read_field [] = some ([], [])
read_field (c ∷ s) = if c == b'"' then read_quoted false s else read_plain (c ∷ s)

-- What stands behind a field: a comma or the end of the line.
abbrev pub is_end : ℕ → Bool
is_end c = c == b',' || c == 10

read_quoted-doubled :
    (s : Bytes) (c : ℕ) (rest : Bytes)
    → is_end c ≡ true
    → read_quoted false (doubled s ++ b'"' ∷ c ∷ rest) ≡ some (s, c ∷ rest)
unfolding read_quoted doubled
read_quoted-doubled [] c rest h = ground (arith, h)
read_quoted-doubled (d ∷ s) c rest h = ground (arith, read_quoted-doubled s c rest h)

read_plain-field :
    (s : Bytes) (c : ℕ) (rest : Bytes)
    → is_end c ≡ true
    → has_byte b',' s ≡ false
    → has_byte 10 s ≡ false
    → read_plain (s ++ c ∷ rest) ≡ some (s, c ∷ rest)
unfolding read_plain has_byte
read_plain-field [] c rest h a b = ground (arith, h)
read_plain-field (d ∷ s) c rest h a b =
    ground (arith, a, b, read_plain-field s c rest h (ground (arith, a)) (ground (arith, b)))

plain_field :
    (s : Bytes) (c : ℕ) (rest : Bytes)
    → is_end c ≡ true
    → has_byte 10 s ≡ false
    → (has_byte b',' s || has_byte b'"' s) ≡ false
    → read_field (s ++ c ∷ rest) ≡ some (s, c ∷ rest)
unfolding read_field has_byte
plain_field [] c rest h k e = ground (arith, h, read_plain-field [] c rest h refl refl)
plain_field (d ∷ s) c rest h k e =
    ground (arith, k, e, read_plain-field (d ∷ s) c rest h (ground (arith, e)) k)

-- A field without a newline, followed by a comma or the end of the line, is read back as it was,
-- whatever quotes and commas it holds.
pub read_field-csv_field :
    (s : Bytes) (c : ℕ) (rest : Bytes)
    → is_end c ≡ true
    → has_byte 10 s ≡ false
    → read_field (csv_field s ++ c ∷ rest) ≡ some (s, c ∷ rest)
unfolding read_field csv_field has_byte
read_field-csv_field s c rest h k = elim (Bool-cases (has_byte b',' s || has_byte b'"' s)) [
  | inl e ↦ rw e (
      ap (read_quoted false) (append_assoc (doubled s) (b'"' ∷ []) (c ∷ rest))
      ∙ read_quoted-doubled s c rest h)
  | inr e ↦ rw e (plain_field s c rest h k e)
]
