-- ===== src/Action/Engine/Names.antt =====
-- Names inside the directories that src/action/action.cpp writes to.
use star_base.Action.Engine.{safe_name, safe_byte}
use star_base.Common.{
  ◌≡◌, refl, inl, inr, Bool, true, false, not, ◌&&◌, ◌||◌, [], ◌∷◌, map, arith, Bool-cases,
  is_empty, Bytes, codes, text_eq, has_byte,
}

-- A name of a file in a directory: no separator, no NUL, and neither the directory nor its parent.
pub is_leaf : Bytes → Bool
unfolding has_byte text_eq
is_leaf s =
    not (has_byte b'/' s)
    && (not (has_byte 0 s)
        && (not (is_empty s) && (not (text_eq s (codes ".")) && not (text_eq s (codes "..")))))

safe_bytes :
    (s : Bytes) → (has_byte b'/' (map safe_byte s) ≡ false) × (has_byte 0 (map safe_byte s) ≡ false)
unfolding has_byte safe_byte
safe_bytes [] = (refl, refl)
safe_bytes (c ∷ s) = let (h, k) = safe_bytes s in (ground (arith, h), ground (arith, k))

underscore : is_leaf (codes "_") ≡ true
unfolding is_leaf has_byte text_eq
underscore = refl

-- Whatever a frame's file name is, the name that the action uses is a leaf: the entry stays in the
-- directory that the action chose.
pub safe_name-is_leaf : (name : Bytes) → is_leaf (safe_name name) ≡ true
unfolding safe_name is_leaf
safe_name-is_leaf name =
    elim (Bool-cases (
      text_eq (map safe_byte name) (codes ".")
      || (text_eq (map safe_byte name) (codes "..") || is_empty (map safe_byte name)))) [
        | inl e ↦ rw e (unfold is_leaf in underscore)
        | inr e ↦ rw e (ground (arith, e, safe_bytes name))
      ]

safe_bytes-fixed :
    (s : Bytes) → has_byte b'/' s ≡ false → has_byte 0 s ≡ false → map safe_byte s ≡ s
unfolding has_byte safe_byte
safe_bytes-fixed [] h k = refl
safe_bytes-fixed (c ∷ s) h k =
    ground (arith, h, k, safe_bytes-fixed s (ground (arith, h)) (ground (arith, k)))

-- A name that is a leaf is used as it is.
pub safe_name-fixed : (name : Bytes) → is_leaf name ≡ true → safe_name name ≡ name
unfolding safe_name is_leaf
safe_name-fixed name h =
    rw (safe_bytes-fixed name (ground (arith, h)) (ground (arith, h))) (ground (arith, h))
