-- ===== src/Fits/Header/Examples.antt =====
-- Runs of src/fits/fits_reader.cpp.
use star_base.Fits.Header.{clean_value}
use star_base.Common.{◌≡◌, refl, some, codes}

quote_test : clean_value (some (codes "'O''Neil  ' / observer")) ≡ codes "O'Neil"
unfolding clean_value
quote_test = refl

bare_test : clean_value (some (codes "120.0  ")) ≡ codes "120.0"
unfolding clean_value
bare_test = refl
