-- ===== src/Names/Canon/Examples.antt =====
-- Runs of src/names/canon.cpp at concrete names.
use star_base.Names.Canon.{canonicalize, designations}
use star_base.Names.Canon.{tidy, catalog_number}
use star_base.Names.Canon.Tables.{m_to_alt, alt_to_m}
use star_base.Names.Canon.Tidy.{is_tidy, tidy-is_tidy, tidy-fixed}
use star_base.Names.Canon.Number.{is_number, catalog_number_shape, catalog_number-fixed}
use star_base.Names.Canon.Idempotent.{canonicalize_idem}
use star_base.Names.Canon.Crossref.{crossref-inverse, designations-canonical}
use star_base.Common.{◌≡◌, refl, ◌↔◌, ◌⊎◌, true, some, [], ◌∷◌, All, codes}
use star_base.Common.Ascii.{is_space, is_digit, is_upper}

andromeda : (canonicalize (codes " ngc  224 ")).canonical ≡ codes "M 31"
unfolding canonicalize
andromeda = refl

sharpless : (canonicalize (codes "SH2_101")).canonical ≡ codes "Sh2-101"
unfolding canonicalize
sharpless = refl

icarus : (canonicalize (codes "Icarus 7")).canonical ≡ codes "Icarus 7"
unfolding canonicalize
icarus = refl

both : designations (codes "m31") ≡ codes "M 31" ∷ codes "NGC 224" ∷ []
unfolding designations
both = refl

canonicalize_idem_example :
    (canonicalize (canonicalize (codes "ngc224")).canonical).canonical
    ≡ (canonicalize (codes "ngc224")).canonical
canonicalize_idem_example = canonicalize_idem (codes "ngc224")

crossref-inverse_example :
    (m_to_alt (codes "M 31") ≡ some (codes "NGC 224"))
    ↔ (alt_to_m (codes "NGC 224") ≡ some (codes "M 31"))
crossref-inverse_example = crossref-inverse (codes "M 31") (codes "NGC 224")

designations-canonical_example :
    All
      (λ d. (canonicalize d).canonical ≡ (canonicalize (codes "M31")).canonical)
      (designations (codes "M31"))
designations-canonical_example = designations-canonical (codes "M31")

tidy-is_tidy_example : is_tidy (tidy (codes "  NGC   7000 ")) ≡ true
tidy-is_tidy_example = tidy-is_tidy (codes "  NGC   7000 ")

tidy-fixed_example : tidy (codes "Veil East") ≡ codes "Veil East"
unfolding is_tidy is_space
tidy-fixed_example = tidy-fixed (codes "Veil East") refl

catalog_number_shape_example :
    (catalog_number (codes "_7000a") ≡ []) ⊎ (is_number (catalog_number (codes "_7000a")) ≡ true)
catalog_number_shape_example = catalog_number_shape (codes "_7000a")

catalog_number-fixed_example : catalog_number (codes "-7000A") ≡ codes "7000A"
unfolding is_number is_digit is_upper
catalog_number-fixed_example = catalog_number-fixed b'-' (codes "7000A") refl refl
