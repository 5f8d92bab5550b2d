-- ===== src/Index/Equipment/Cached.antt =====
-- The caches of the equipment resolver.
use star_base.Index.Equipment.{Map, lookup, Caches, EquipmentRegistry, find_camera, resolve_camera}
use star_base.Query.Platform.{Platform}
use star_base.Sys.Ends.{Ends, bind-Ends}
use star_base.Sys.{Prog, ret, throw, call, Error}
use star_base.Common.{
  ◌≡◌, refl, sym, subst, inl, inr, some, ◌∷◌, arith, Option-cases, Bytes, text_eq_refl,
}
use star_base.Common.Ascii.{lower}
use star_base.Common.Int.{ℤ}

-- Any error.
abbrev pub Any : Error → Type 0
Any e = Unit

Any-Ends : {A : Type 0} (m : Prog A) → Ends (λ a. Unit {0}) Any m
Any-Ends (ret a) = tt
Any-Ends (throw e) = tt
Any-Ends (call c k) = λ r. Any-Ends (k r)

lookup_new : (k : Bytes) (v : ℤ) (m : Map) → lookup k ((k, v) ∷ m) ≡ some v
unfolding lookup
lookup_new k v m = ground (arith, text_eq_refl k)

module _ (p : Platform) (reg : EquipmentRegistry p) where
  cached-camera :
      (caches : Caches) (raw : Bytes) (id : ℤ)
      → lookup (lower raw) caches.camera_cache ≡ some id
      → resolve_camera p reg caches raw ≡ ret (id, caches)
  unfolding resolve_camera
  cached-camera caches raw id h = rw (h, resolve_camera) refl

  -- A camera is looked for once: after a resolution that returns, any spelling of the name that differs
  -- in case only resolves to the same id, without a call and with the caches as they are. It holds for
  -- names that were not found, too.
  pub resolve_camera_once :
      (caches : Caches) (raw again : Bytes)
      → lower again ≡ lower raw
      → Ends
          (λ (r : ℤ × Caches). resolve_camera p reg r.1 again ≡ ret r)
          Any
          (resolve_camera p reg caches raw)
  unfolding resolve_camera
  resolve_camera_once caches raw again e =
      elim (Option-cases (lookup (lower raw) caches.camera_cache)) [
        | inr (id, h) ↦ rw (h, resolve_camera) (cached-camera caches again id (rw e h))
        | inl h ↦
            rw (h, resolve_camera)
              (bind-Ends (λ id. Unit {0})
                (λ (r : ℤ × Caches). resolve_camera p reg r.1 again ≡ ret r) Any
                (find_camera p reg raw)
                (λ id.
                  ret (id, record caches { camera_cache = (lower raw, id) ∷ caches.camera_cache }))
                (Any-Ends (find_camera p reg raw))
                (λ id u.
                  cached-camera
                    (record caches { camera_cache = (lower raw, id) ∷ caches.camera_cache }) again
                    id
                    (subst (λ k. lookup k ((lower raw, id) ∷ caches.camera_cache) ≡ some id) (sym e)
                      (lookup_new (lower raw) id caches.camera_cache))))
      ]
