-- ===== src/Fs/Mounts/Unescape.antt =====
-- The escapes of /proc/mounts in util/fsinfo.cpp.
use star_base.Fs.Mounts.{unescape_mount_field, octal_byte, octal, octal_from, is_octal, before}
use star_base.Common.{
  ℕ, ◌+◌, ◌/◌, ◌%◌, ◌<◌, ◌≡◌, refl, ap, inl, inr, Bool, true, false, some, [], ◌∷◌, arith, ◌==◌,
  if◌then◌else◌, ==→eq, Bool-cases, All, Bytes,
}
use star_base.Common.Ascii.{is_digit}

-- The kernel's `mangle`: each byte of a set stands as a backslash and three octal digits.
pub mangle : (ℕ → Bool) → Bytes → Bytes
mangle hide [] = []
mangle hide (c ∷ s) =
    if hide c
    then b'\\' ∷ (b'0' + c / 64) ∷ (b'0' + (c / 8) % 8) ∷ (b'0' + c % 8) ∷ mangle hide s
    else c ∷ mangle hide s

octal_byte-escape :
    (c : ℕ)
    → c < 256
    → octal_byte ((b'0' + c / 64) ∷ (b'0' + (c / 8) % 8) ∷ (b'0' + c % 8) ∷ []) ≡ some c
unfolding octal_byte octal octal_from is_octal
octal_byte-escape c h = ground arith

unescape_mount_field-plain :
    (c : ℕ) (s : Bytes)
    → (c == b'\\') ≡ false
    → unescape_mount_field (c ∷ s) ≡ before (some c) (unescape_mount_field s)
unfolding unescape_mount_field before
unescape_mount_field-plain c [] h = refl
unescape_mount_field-plain c (d ∷ []) h = refl
unescape_mount_field-plain c (d ∷ e ∷ []) h = refl
unescape_mount_field-plain c (d ∷ e ∷ f ∷ s) h = ground (arith, h)

unescape_mount_field-escape :
    (d e f : ℕ) (s : Bytes)
    → is_digit d ≡ true
    → unescape_mount_field (b'\\' ∷ d ∷ e ∷ f ∷ s)
      ≡ before (octal_byte (d ∷ e ∷ f ∷ [])) (unescape_mount_field s)
unfolding unescape_mount_field before
unescape_mount_field-escape d e f s h = ground (arith, h)

digit_of : (c : ℕ) → c < 256 → is_digit (b'0' + c / 64) ≡ true
unfolding is_digit
digit_of c h = ground arith

not_backslash :
    (hide : ℕ → Bool) (c : ℕ) → hide b'\\' ≡ true → hide c ≡ false → (c == b'\\') ≡ false
not_backslash hide c h e = elim (Bool-cases (c == b'\\')) [
  | inl k ↦ absurd (cc (ap hide (==→eq c b'\\' k), h, e))
  | inr k ↦ k
]

-- What the kernel writes for a mount point is read back as the mount point, whatever set of bytes the
-- kernel escapes, as long as the backslash is one of them.
pub unescape-mangle :
    (hide : ℕ → Bool) (s : Bytes)
    → hide b'\\' ≡ true
    → All (λ c. c < 256) s
    → unescape_mount_field (mangle hide s) ≡ some s
unfolding mangle before unescape_mount_field
unescape-mangle hide [] h k = refl
unescape-mangle hide (c ∷ s) h (lt, k) = elim (Bool-cases (hide c)) [
  | inl e ↦ ground (
    arith,
    e,
    unescape_mount_field-escape (b'0' + c / 64) (b'0' + (c / 8) % 8) (b'0' + c % 8) (mangle hide s)
        (digit_of c lt),
    octal_byte-escape c lt,
    unescape-mangle hide s h k,
  )
  | inr e ↦ ground (
    arith,
    e,
    unescape_mount_field-plain c (mangle hide s) (not_backslash hide c h e),
    unescape-mangle hide s h k,
  )
]
