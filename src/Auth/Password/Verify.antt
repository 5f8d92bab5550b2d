-- ===== src/Auth/Password/Verify.antt =====
-- Verification of passwords in src/auth/password.cpp.
use Prim.Native.Nat.{bit_or, bit_xor}
use star_base.Auth.Password.{
  Crypto, Hashed, hash_password, verify_password, to_hex, from_hex, diff_loop, matches,
}
use star_base.Auth.Password.Bits.{bit_or-zero, bit_xor-zero, bit_xor_self}
use star_base.Auth.Password.Hex.{from_hex-to_hex}
use star_base.Common.{
  ℕ, ◌≤◌, ◌<◌, ◌≡◌, refl, sym, ap, ◌∙◌, subst, ◌↔◌, inl, inr, true, false, ◌||◌, Option, none, some,
  [], ◌∷◌, arith, ltb, Bool-cases, Option-cases, ◌>>=◌, length, is_empty, All, Bytes,
}
use star_base.Common.Int.{pos}

diff_loop-zero :
    (d : ℕ) (a e : Bytes) → length a ≡ length e → diff_loop d a e ≡ 0 → (d ≡ 0) × (a ≡ e)
unfolding diff_loop
diff_loop-zero d [] [] l h = (h, refl)
diff_loop-zero d [] (e ∷ es) l h = absurd (omega arith)
diff_loop-zero d (a ∷ xs) [] l h = absurd (omega arith)
diff_loop-zero d (a ∷ xs) (e ∷ es) l h =
    let (z, q) = diff_loop-zero (bit_or d (bit_xor a e)) xs es (omega arith) h in
    let (p, r) = bit_or-zero d (bit_xor a e) z in (p, cc (bit_xor-zero a e r, q))

diff_loop_self : (a : Bytes) → diff_loop 0 a a ≡ 0
unfolding diff_loop
diff_loop_self [] = refl
diff_loop_self (a ∷ xs) = rw (bit_xor_self a) (diff_loop_self xs)

-- The comparison takes two texts for equal exactly when they are.
matches_iff : (a e : Bytes) → (matches a e ≡ true) ↔ (a ≡ e)
unfolding matches
matches_iff a e = (
  λ h. (diff_loop-zero 0 a e (ground (arith, h)) (ground (arith, h))).1,
  λ q. rw q (ground (arith, diff_loop_self e)),
)

nonempty : (s : Bytes) (n : ℕ) → length s ≡ n → 0 < n → is_empty s ≡ false
nonempty [] n e lt = absurd (omega arith)
nonempty (c ∷ s) n e lt = refl

-- What the cryptography library promises: a text of the length asked for, of bytes.
pub record IsSound (crypto : Crypto) : Type 0 where
  pub derived_length :
      (password salt : Bytes) (n len : ℕ) (out : Bytes)
      → crypto.pbkdf2 password salt n len ≡ some out
      → length out ≡ len
  pub derived_bytes :
      (password salt : Bytes) (n len : ℕ) (out : Bytes)
      → crypto.pbkdf2 password salt n len ≡ some out
      → All (λ c. c < 256) out
  pub random_length : (len : ℕ) (out : Bytes) → crypto.rand_bytes len ≡ some out → length out ≡ len
  pub random_bytes :
      (len : ℕ) (out : Bytes) → crypto.rand_bytes len ≡ some out → All (λ c. c < 256) out

module _ (crypto : Crypto) where
  -- The stored texts are usable, and the password derives to the stored key.
  pub Accepts : Bytes → Bytes → Bytes → ℕ → Type 0
  Accepts password salt_hex hash_hex n =
      (1 ≤ n)
      × (is_empty (from_hex salt_hex) ≡ false)
      × (is_empty (from_hex hash_hex) ≡ false)
      × (crypto.pbkdf2 password (from_hex salt_hex) n (length (from_hex hash_hex))
          ≡ some (from_hex hash_hex))

  derived :
      (o : Option Bytes) (e : Bytes)
      → ((do actual ← o; some (matches actual e)) ≡ some true) ↔ (o ≡ some e)
  derived none e = (λ h. absurd (cc h), λ h. absurd (cc h))
  derived (some a) e =
      (λ h. ap some ((matches_iff a e).0 (cc h)), λ h. ap some ((matches_iff a e).1 (cc h)))

  refused :
      (password salt_hex hash_hex : Bytes) (n : ℕ)
      → (ltb n 1 || (is_empty (from_hex salt_hex) || is_empty (from_hex hash_hex))) ≡ true
      → verify_password crypto password salt_hex hash_hex (pos n) ≡ some false
  unfolding verify_password
  refused password salt_hex hash_hex n e = rw (e, verify_password) refl

  compared :
      (password salt_hex hash_hex : Bytes) (n : ℕ)
      → (ltb n 1 || (is_empty (from_hex salt_hex) || is_empty (from_hex hash_hex))) ≡ false
      → verify_password crypto password salt_hex hash_hex (pos n) ≡ (do
        actual ← crypto.pbkdf2 password (from_hex salt_hex) n (length (from_hex hash_hex))
        some (matches actual (from_hex hash_hex)))
  unfolding verify_password
  compared password salt_hex hash_hex n e = rw (e, verify_password) refl

  -- A password is accepted exactly when there is at least one iteration, salt and key are read to
  -- something, and the key derived from it is the stored one.
  pub verify_password_iff :
      (password salt_hex hash_hex : Bytes) (n : ℕ)
      → (verify_password crypto password salt_hex hash_hex (pos n) ≡ some true)
        ↔ Accepts password salt_hex hash_hex n
  unfolding Accepts
  verify_password_iff password salt_hex hash_hex n =
      elim (Bool-cases
        (ltb n 1 || (is_empty (from_hex salt_hex) || is_empty (from_hex hash_hex)))) [
          | inl e ↦ (
            λ h. absurd (cc (h, refused password salt_hex hash_hex n e)),
            λ (l, s, k, q). absurd (ground (arith, e, l, s, k)),
          )
          | inr e ↦ (
            λ h. (
              ground (arith, e),
              ground (arith, e),
              ground (arith, e),
              (derived _ (from_hex hash_hex)).0 (sym (compared password salt_hex hash_hex n e) ∙ h),
            ),
            λ (l, s, k, q).
                compared password salt_hex hash_hex n e ∙ (derived _ (from_hex hash_hex)).1 q,
          )
        ]

  stored-Accepts :
      (sound : IsSound crypto) (password salt key : Bytes)
      → crypto.rand_bytes 16 ≡ some salt
      → crypto.pbkdf2 password salt 120000 32 ≡ some key
      → Accepts password (to_hex salt) (to_hex key) 120000
  unfolding Accepts
  stored-Accepts sound password salt key r d =
      rw
        (
          from_hex-to_hex salt (sound.random_bytes 16 salt r),
          from_hex-to_hex key (sound.derived_bytes password salt 120000 32 key d),
          sound.derived_length password salt 120000 32 key d,
        )
        (
          omega arith,
          nonempty salt 16 (sound.random_length 16 salt r) (omega arith),
          nonempty key 32 (sound.derived_length password salt 120000 32 key d) (omega arith),
          d,
        )

  hashed :
      (password salt key : Bytes)
      → crypto.rand_bytes 16 ≡ some salt
      → crypto.pbkdf2 password salt 120000 32 ≡ some key
      → hash_password crypto password
        ≡ some (record { salt_hex = to_hex salt; hash_hex = to_hex key; iterations = pos 120000 })
  unfolding hash_password
  hashed password salt key r d = ground (arith, r, d)

  not_hashed :
      (password salt : Bytes)
      → crypto.rand_bytes 16 ≡ some salt
      → crypto.pbkdf2 password salt 120000 32 ≡ none
      → hash_password crypto password ≡ none
  unfolding hash_password
  not_hashed password salt r d = ground (arith, r, d)

  no_salt : (password : Bytes) → crypto.rand_bytes 16 ≡ none → hash_password crypto password ≡ none
  unfolding hash_password
  no_salt password r = ground (arith, r)

  -- A password that has been hashed is accepted with what was stored of it, where the cryptography
  -- library keeps to its lengths and yields bytes.
  pub verify-hash :
      (sound : IsSound crypto) (password : Bytes) (h : Hashed)
      → hash_password crypto password ≡ some h
      → verify_password crypto password h.salt_hex h.hash_hex h.iterations ≡ some true
  verify-hash sound password h e = elim (Option-cases (crypto.rand_bytes 16)) [
    | inl r ↦ absurd (cc (e, no_salt password r))
    | inr (salt, r) ↦ elim (Option-cases (crypto.pbkdf2 password salt 120000 32)) [
      | inl d ↦ absurd (cc (e, not_hashed password salt r d))
      | inr (key, d) ↦
          subst
            (λ (x : Hashed).
              verify_password crypto password x.salt_hex x.hash_hex x.iterations ≡ some true)
            (cc (e, hashed password salt key r d))
            ((verify_password_iff password (to_hex salt) (to_hex key) 120000).1
              (stored-Accepts sound password salt key r d))
    ]
  ]
