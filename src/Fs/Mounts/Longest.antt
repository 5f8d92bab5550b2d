-- ===== src/Fs/Mounts/Longest.antt =====
-- The choice of the mount in util/fsinfo.cpp.
use star_base.Fs.Mounts.{
  unescape_mount_field, covers, Best, consider, fields_of, scan_mounts, detect_fs_type,
}
use star_base.Common.Lines.{lines}
use star_base.Common.{
  ℕ, ◌≤◌, ◌≡◌, refl, sym, ap, ◌∙◌, subst, ◌⊎◌, inl, inr, Bool, true, not, ◌&&◌, ◌||◌, Option, none,
  some, List, [], ◌∷◌, ◌++◌, map, arith, ltb, leb, if◌then◌else◌, Bool-cases, Option-cases, ◌>>=◌,
  length, all, All, Bytes,
}

-- The mount point and the type of a line, where it has them.
unfoldable pub entry : Bytes → Option (Bytes × Bytes)
unfolding fields_of unescape_mount_field
entry line = do
  (raw, type) ← fields_of line
  mount_point ← unescape_mount_field raw
  some (mount_point, type)

-- No mount that covers the target has a mount point longer than a bound.
pub at_most : Bytes → ℕ → Option (Bytes × Bytes) → Bool
unfolding covers
at_most target n none = true
at_most target n (some (m, type)) = not (covers target m) || leb (length m) n

-- Each is shorter than it.
pub below : Bytes → ℕ → Option (Bytes × Bytes) → Bool
unfolding covers
below target n none = true
below target n (some (m, type)) = not (covers target m) || ltb (length m) n

-- The escapes of the line's mount point can be read.
unfoldable pub Readable : Bytes → Type 0
Readable line = (fields_of line ≡ none) ⊎ ((e : Bytes × Bytes) × (entry line ≡ some e))

after_entry : Bytes → Option (Bytes × Bytes) → Best → Best
unfolding consider covers
after_entry target none best = best
after_entry target (some (m, type)) best = consider target m type best

after_all : Bytes → List (Option (Bytes × Bytes)) → Best → Best
unfolding after_entry
after_all target [] best = best
after_all target (e ∷ es) best = after_all target es (after_entry target e best)

not_thrown :
    (l raw type : Bytes)
    → fields_of l ≡ some (raw, type)
    → unescape_mount_field raw ≡ none
    → ¬ Readable l
unfolding Readable entry
not_thrown l raw type e f (inl h) = absurd (cc (e, h))
not_thrown l raw type e f (inr (p, h)) = ground (arith, e, f, h)

scan_mounts-step :
    (target l : Bytes) (ls : List Bytes) (best : Best)
    → Readable l
    → scan_mounts target (l ∷ ls) best ≡ scan_mounts target ls (after_entry target (entry l) best)
unfolding scan_mounts after_entry entry Readable
scan_mounts-step target l ls best h = elim (Option-cases (fields_of l)) [
  | inl e ↦ ground (arith, e)
  | inr ((raw, type), e) ↦ elim (Option-cases (unescape_mount_field raw)) [
    | inl f ↦ absurd (not_thrown l raw type e f h)
    | inr (m, f) ↦ ground (arith, e, f)
  ]
]

scan_mounts-after_all :
    (target : Bytes) (ls : List Bytes) (best : Best)
    → All Readable ls
    → scan_mounts target ls best ≡ some (after_all target (map entry ls) best)
unfolding scan_mounts after_all after_entry entry Readable
scan_mounts-after_all target [] best h = refl
scan_mounts-after_all target (l ∷ ls) best (h, hs) =
    scan_mounts-step target l ls best h
    ∙ scan_mounts-after_all target ls (after_entry target (entry l) best) hs

-- The best of the mounts so far stays, since no later one that covers the target is as long, or the
-- result is a line's, none that covers the target is longer and those behind it are shorter.
pub Wins : Bytes → List (Option (Bytes × Bytes)) → Best → Best → Type 0
unfolding covers below at_most
Wins target es acc best =
    ((best ≡ acc) × (all (below target best.best_len) es ≡ true))
    ⊎ ((pre : List (Option (Bytes × Bytes))) × (m : Bytes) × (post : List (Option (Bytes × Bytes)))
        × (es ≡ pre ++ some (m, best.best_type) ∷ post)
        × (covers target m ≡ true)
        × (length m ≡ best.best_len)
        × (acc.best_len ≤ best.best_len)
        × (all (at_most target best.best_len) pre ≡ true)
        × (all (below target best.best_len) post ≡ true))

below-at_most :
    (target : Bytes) (n k : ℕ) (e : Option (Bytes × Bytes))
    → below target n e ≡ true
    → n ≤ k
    → at_most target k e ≡ true
unfolding below at_most
below-at_most target n k none h le = refl
below-at_most target n k (some (m, type)) h le = ground arith

passed-Wins :
    (target : Bytes) (e : Option (Bytes × Bytes)) (es : List (Option (Bytes × Bytes)))
    (acc best : Best)
    → below target acc.best_len e ≡ true
    → Wins target es acc best
    → Wins target (e ∷ es) acc best
unfolding Wins
passed-Wins target e es acc best h (inl (k, b)) =
    inl (k, ground (arith, ap (λ x. below target x.best_len e) k, h, b))
passed-Wins target e es acc best h (inr (pre, m, post, k, c, l, le, a, b)) = inr (
  e ∷ pre,
  m,
  post,
  ap (λ xs. e ∷ xs) k,
  c,
  l,
  le,
  ground (arith, below-at_most target acc.best_len best.best_len e h le, a),
  b,
)

taken-Wins :
    (target m type : Bytes) (es : List (Option (Bytes × Bytes))) (acc best : Best)
    → covers target m ≡ true
    → acc.best_len ≤ length m
    → Wins target es (record { best_type = type; best_len = length m }) best
    → Wins target (some (m, type) ∷ es) acc best
unfolding Wins at_most
taken-Wins target m type es acc best c le (inl (k, b)) = inr (
  [],
  m,
  es,
  sym (ap (λ x. some (m, x.best_type) ∷ es) k),
  c,
  sym (ap (λ x. x.best_len) k),
  ground (arith, ap (λ x. x.best_len) k),
  refl,
  b,
)
taken-Wins target m type es acc best c le (inr (pre, m', post, k, c', l, le', a, b)) = inr (
  some (m, type) ∷ pre,
  m',
  post,
  ap (λ xs. some (m, type) ∷ xs) k,
  c',
  l,
  ground arith,
  ground (arith, a),
  b,
)

consider-cases :
    (target m type : Bytes) (acc : Best)
    → ((covers target m ≡ true)
        × (acc.best_len ≤ length m)
        × (consider target m type acc ≡ record { best_type = type; best_len = length m }))
      ⊎ ((below target acc.best_len (some (m, type)) ≡ true) × (consider target m type acc ≡ acc))
unfolding consider below
consider-cases target m type acc =
    elim (Bool-cases (covers target m && leb acc.best_len (length m))) [
      | inl e ↦ inl (
        ground (arith, e),
        ground (arith, e),
        ap (λ b. if b then record { best_type = type; best_len = length m } else acc) e,
      )
      | inr e ↦ inr (
        ground (arith, e),
        ap (λ b. if b then record { best_type = type; best_len = length m } else acc) e,
      )
    ]

after_all-Wins :
    (target : Bytes) (es : List (Option (Bytes × Bytes))) (acc : Best)
    → Wins target es acc (after_all target es acc)
unfolding Wins after_all after_entry
after_all-Wins target [] acc = inl (refl, refl)
after_all-Wins target (none ∷ es) acc =
    passed-Wins target none es acc (after_all target es acc) refl (after_all-Wins target es acc)
after_all-Wins target (some (m, type) ∷ es) acc = elim (consider-cases target m type acc) [
  | inl (c, le, e) ↦
      subst (λ b. Wins target (some (m, type) ∷ es) acc (after_all target es b)) (sym e)
        (taken-Wins target m type es acc
          (after_all target es (record { best_type = type; best_len = length m })) c le
          (after_all-Wins target es (record { best_type = type; best_len = length m })))
  | inr (h, e) ↦
      subst (λ b. Wins target (some (m, type) ∷ es) acc (after_all target es b)) (sym e)
        (passed-Wins target (some (m, type)) es acc (after_all target es acc) h
          (after_all-Wins target es acc))
]

-- Where every mount point of the table can be read, a type is found: it is empty if no mount covers the
-- target; otherwise it is the type of a mount that covers it, no mount that covers it has a longer mount
-- point, and every later one that covers it has a shorter one.
pub detect_fs_type-longest :
    (target table : Bytes)
    → All Readable (lines table)
    → (best : Best) × (detect_fs_type target (some table) ≡ some best.best_type)
      × Wins target (map entry (lines table)) (record { best_type = []; best_len = 0 }) best
unfolding detect_fs_type
detect_fs_type-longest target table h = (
  after_all target (map entry (lines table)) (record { best_type = []; best_len = 0 }),
  ground (
    arith,
    scan_mounts-after_all target (lines table) (record { best_type = []; best_len = 0 }) h,
  ),
  after_all-Wins target (map entry (lines table)) (record { best_type = []; best_len = 0 }),
)
