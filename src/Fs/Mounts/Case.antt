-- ===== src/Fs/Mounts/Case.antt =====
-- The probe for case sensitivity in util/fsinfo.cpp.
use star_base.Fs.Mounts.{flip_case, detect_case_sensitive}
use star_base.Common.{
  ◌≡◌, refl, inl, inr, Bool, true, not, List, [], ◌∷◌, arith, Bool-cases, any, All, Bytes,
}
use star_base.Common.Ascii.{is_upper, is_lower, is_alpha, to_lower, to_upper, lower}

-- The name has a letter with a case.
pub cased : Bytes → Bool
unfolding is_alpha
cased s = any is_alpha s

flip_case-cased : (s : Bytes) → (flip_case s).1 ≡ cased s
unfolding flip_case cased is_alpha
flip_case-cased [] = refl
flip_case-cased (c ∷ s) = ground (arith, flip_case-cased s)

lower-flip_case : (s : Bytes) → lower (flip_case s).0 ≡ lower s
unfolding flip_case lower is_upper is_lower to_lower to_upper
lower-flip_case [] = refl
lower-flip_case (c ∷ s) = ground (arith, lower-flip_case s)

flip_case-changes : (s : Bytes) → cased s ≡ true → ¬ ((flip_case s).0 ≡ s)
unfolding flip_case cased is_alpha is_upper is_lower to_lower to_upper
flip_case-changes [] h e = absurd (cc h)
flip_case-changes (c ∷ s) h e = ground (arith, flip_case-changes s)

-- Where the directory answers to a name in any case, the probe reports a file system that ignores case
-- exactly when some name has a letter to flip.
pub detect-folding :
    (names : List Bytes) (exists : Bytes → Bool)
    → All (λ name. (x : Bytes) → lower x ≡ lower name → exists x ≡ true) names
    → detect_case_sensitive names exists ≡ not (any cased names)
unfolding detect_case_sensitive
detect-folding [] exists h = refl
detect-folding (name ∷ names) exists (h, hs) = ground (
  arith,
  flip_case-cased name,
  h (flip_case name).0 (lower-flip_case name),
  detect-folding names exists hs,
)

-- Where no two names of the directory differ in case only, the probe reports that case matters.
pub detect-sensitive :
    (names : List Bytes) (exists : Bytes → Bool)
    → All (λ name. (x : Bytes) → exists x ≡ true → lower x ≡ lower name → x ≡ name) names
    → detect_case_sensitive names exists ≡ true
unfolding detect_case_sensitive
detect-sensitive [] exists h = refl
detect-sensitive (name ∷ names) exists (h, hs) = elim (Bool-cases (cased name)) [
  | inl e ↦ elim (Bool-cases (exists (flip_case name).0)) [
    | inl k ↦ absurd (flip_case-changes name e (h (flip_case name).0 k (lower-flip_case name)))
    | inr k ↦ ground (arith, flip_case-cased name, e, k)
  ]
  | inr e ↦ ground (arith, flip_case-cased name, e, detect-sensitive names exists hs)
]
