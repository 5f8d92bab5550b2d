-- ===== src/Index/Equipment/Rigs.antt =====
-- The choice of the rig by the equipment resolver.
use star_base.Index.Equipment.{Rig, same_id, rig_fits, first_rig}
use star_base.Query.Platform.{Platform}
use star_base.Common.{
  ◌≡◌, refl, sym, ap, ◌∙◌, inl, inr, true, false, Option, none, some, List, [], ◌∷◌, ◌++◌, arith,
  ==→eq, Bool-cases, All,
}
use star_base.Common.Int.{ℤ, pos, negsuc}

same_id→eq : (p : Platform) (a b : ℤ) → same_id p a b ≡ true → a ≡ b
unfolding same_id
same_id→eq p (pos a) (pos b) h = ap pos (==→eq a b h)
same_id→eq p (negsuc a) (negsuc b) h = ap negsuc (==→eq a b h)
same_id→eq p (pos a) (negsuc b) h = absurd (ground arith)
same_id→eq p (negsuc a) (pos b) h = absurd (ground arith)

same_id_refl : (p : Platform) (a : ℤ) → same_id p a a ≡ true
unfolding same_id
same_id_refl p (pos a) = ground arith
same_id_refl p (negsuc a) = ground arith

module _ (p : Platform) (camera : ℤ) (focal : p.Double) where
  -- The rig has the camera, and its range holds the focal length.
  pub record Fits (r : Rig p) : Type 0 where
    pub same_camera : r.camera_id ≡ camera
    pub not_shorter : p.less_eq r.focal_min focal ≡ true
    pub not_longer : p.less_eq focal r.focal_max ≡ true

  -- None of the rigs fits, or the rig is the first one that does.
  abbrev pub IsFirst : List (Rig p) → Option (Rig p) → Type 0
  IsFirst rs none = All (λ r. ¬ Fits r) rs
  IsFirst rs (some r) =
      (pre : List (Rig p)) × (post : List (Rig p)) × (rs ≡ pre ++ r ∷ post)
      × Fits r
      × All (λ q. ¬ Fits q) pre

  Fits-rig_fits : (r : Rig p) → rig_fits p camera focal r ≡ true → Fits r
  unfolding rig_fits
  Fits-rig_fits r h = record {
    same_camera = same_id→eq p r.camera_id camera (ground (arith, h));
    not_shorter = ground (arith, h);
    not_longer = ground (arith, h);
  }

  not-Fits : (r : Rig p) → rig_fits p camera focal r ≡ false → ¬ Fits r
  unfolding rig_fits
  not-Fits r h f =
      let same : same_id p r.camera_id camera ≡ true =
        ap (λ c. same_id p r.camera_id c) (sym f.same_camera) ∙ same_id_refl p r.camera_id in
      ground (arith, h, same, f.not_shorter, f.not_longer)

  behind-IsFirst :
      (r : Rig p) (rs : List (Rig p)) (o : Option (Rig p))
      → ¬ Fits r
      → IsFirst rs o
      → IsFirst (r ∷ rs) o
  behind-IsFirst r rs none h k = (h, k)
  behind-IsFirst r rs (some s) h (pre, post, e, f, a) =
      (r ∷ pre, post, ap (λ xs. r ∷ xs) e, f, (h, a))

  -- The rig is the first of the registry that has the camera and whose focal range holds the frame's
  -- focal length; there is none exactly where no rig has both.
  pub first_rig-IsFirst : (rs : List (Rig p)) → IsFirst rs (first_rig p camera focal rs)
  unfolding first_rig
  first_rig-IsFirst [] = tt
  first_rig-IsFirst (r ∷ rs) = elim (Bool-cases (rig_fits p camera focal r)) [
    | inl e ↦ rw (e, first_rig) ([], rs, refl, Fits-rig_fits r e, tt)
    | inr e ↦
        rw (e, first_rig)
          (behind-IsFirst r rs (first_rig p camera focal rs) (not-Fits r e) (first_rig-IsFirst rs))
  ]
