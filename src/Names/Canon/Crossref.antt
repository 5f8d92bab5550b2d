-- ===== src/Names/Canon/Crossref.antt =====
-- The Messier cross-reference of src/names/canon.cpp, and `designations`.
use star_base.Names.Canon.{Canon, canonicalize, designations, alternative}
use star_base.Names.Canon.Tables.{messier_xref, m_name, alt_name, alt_to_m, m_to_alt}
use star_base.Names.Canon.Idempotent.{map_get-all, canonicalize_idem}
use star_base.Common.{
  ◌≡◌, refl, ap, ◌↔◌, inl, inr, Bool, true, false, Option, none, some, arith, if◌then◌else◌,
  Option-cases, all, All, Bytes, codes, text_eq, text_eq→eq,
}

abbrev leads_to : Option Bytes → Bytes → Bool
leads_to none k = false
leads_to (some w) k = text_eq w k

leads_to-eq : (o : Option Bytes) (k : Bytes) → leads_to o k ≡ true → o ≡ some k
leads_to-eq none k h = absurd (cc)
leads_to-eq (some w) k h = ap some (text_eq→eq w k h)

entries-alt_to_m : all (λ e. leads_to (alt_to_m (alt_name e)) (m_name e)) messier_xref ≡ true
unfolding alt_to_m
entries-alt_to_m = refl

entries-m_to_alt : all (λ e. leads_to (m_to_alt (m_name e)) (alt_name e)) messier_xref ≡ true
unfolding m_to_alt
entries-m_to_alt = refl

alt_to_m-m_to_alt : (k v : Bytes) → m_to_alt k ≡ some v → alt_to_m v ≡ some k
unfolding m_to_alt
alt_to_m-m_to_alt k v h = leads_to-eq (alt_to_m v) k (
    map_get-all (λ k w. leads_to (alt_to_m w) k) m_name alt_name k messier_xref none
      entries-alt_to_m (λ w q. absurd (cc)) v h)

m_to_alt-alt_to_m : (k v : Bytes) → alt_to_m v ≡ some k → m_to_alt k ≡ some v
unfolding alt_to_m
m_to_alt-alt_to_m k v h = leads_to-eq (m_to_alt k) v (
    map_get-all (λ v w. leads_to (m_to_alt w) v) alt_name m_name v messier_xref none
      entries-m_to_alt (λ w q. absurd (cc)) k h)

-- The two maps of the cross-reference are inverse to one another, on all texts.
pub crossref-inverse : (k v : Bytes) → (m_to_alt k ≡ some v) ↔ (alt_to_m v ≡ some k)
crossref-inverse k v = (alt_to_m-m_to_alt k v, m_to_alt-alt_to_m k v)

entries-canonicalize :
    all (λ e. leads_to (some (canonicalize (alt_name e)).canonical) (m_name e)) messier_xref ≡ true
unfolding canonicalize
entries-canonicalize = refl

m_to_alt-canonicalize : (k v : Bytes) → m_to_alt k ≡ some v → (canonicalize v).canonical ≡ k
unfolding m_to_alt
m_to_alt-canonicalize k v h = text_eq→eq _ _ (
    map_get-all (λ k w. text_eq (canonicalize w).canonical k) m_name alt_name k messier_xref none
      entries-canonicalize (λ w q. absurd (cc)) v h)

abbrev other : Canon → Option Bytes
other c = if text_eq c.catalog (codes "M") then m_to_alt c.canonical else none

other-canonicalize :
    (c : Canon) (v : Bytes) → other c ≡ some v → (canonicalize v).canonical ≡ c.canonical
other-canonicalize c v h = ground (arith, m_to_alt-canonicalize c.canonical v)

-- The names beside the canonical one lead back to it.
alternative-canonical :
    (c : Canon)
    → (canonicalize c.canonical).canonical ≡ c.canonical
    → All (λ d. (canonicalize d).canonical ≡ c.canonical) (alternative c)
unfolding alternative
alternative-canonical c h = elim (Option-cases (other c)) [
  | inl n ↦ rw (n, alternative) (h, tt)
  | inr (v, q) ↦ rw (q, alternative) (h, (other-canonicalize c v q, tt))
]

designations_lem : (raw : Bytes) → designations raw ≡ alternative (canonicalize raw)
unfolding designations
designations_lem raw = refl

-- Every designation of a name has the same canonical form as the name, so that a search by either
-- catalog number finds the object under one canonical form.
pub designations-canonical :
    (raw : Bytes)
    → All (λ d. (canonicalize d).canonical ≡ (canonicalize raw).canonical) (designations raw)
designations-canonical raw =
    rw (designations_lem raw) (alternative-canonical (canonicalize raw) (canonicalize_idem raw))
