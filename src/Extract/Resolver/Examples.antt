-- ===== src/Extract/Resolver/Examples.antt =====
-- Runs of `resolve` under the default mapping.
use star_base.Fits.Header.{Card, Hdu, get}
use star_base.Extract.Coord.{run_of, parse_coord, sexagesimal}
use star_base.Extract.Mapping.{resolve_raw}
use star_base.Extract.Defaults.{defaults}
use star_base.Extract.Night.Civil.{whole_numbers, library}
use star_base.Extract.Resolver.{ResolvedFrame, resolve, frame_with, normalize_date_obs}
use star_base.Extract.Resolver.Types.{resolve-type_folds}
use star_base.Common.{◌≡◌, refl, true, none, some, List, [], ◌∷◌, Bytes, codes}
use star_base.Common.Ascii.{lower}
use star_base.Common.Int.{pos}

abbrev card : Bytes → Bytes → Card
card keyword value = record { keyword = keyword; value = value; comment = [] }

abbrev hdu_of : List Card → Hdu
hdu_of cards = record {
  index = pos 0;
  is_image = true;
  bitpix = pos 16;
  naxis = pos 2;
  naxis1 = pos 100;
  naxis2 = pos 50;
  cards = cards;
}

abbrev light_hdu : Hdu
light_hdu = hdu_of (card (codes "IMAGETYP") (codes "Light Frame") ∷ [])

abbrev shouted_hdu : Hdu
shouted_hdu = hdu_of (card (codes "frame") (codes " LIGHT FRAME ") ∷ [])

abbrev light_frame : ResolvedFrame whole_numbers
light_frame = frame_with whole_numbers library defaults light_hdu 0 none none

abbrev shouted_frame : ResolvedFrame whole_numbers
shouted_frame = frame_with whole_numbers library defaults shouted_hdu 0 none none

lights : resolve whole_numbers library defaults light_hdu 0 ≡ some light_frame
unfolding resolve resolve_raw defaults get
lights = refl

shouts : resolve whole_numbers library defaults shouted_hdu 0 ≡ some shouted_frame
unfolding resolve resolve_raw defaults get
shouts = refl

light_raw : resolve_raw light_hdu defaults (codes "image_type") ≡ some (codes "Light Frame")
unfolding resolve_raw defaults get
light_raw = refl

shouted_raw : resolve_raw shouted_hdu defaults (codes "image_type") ≡ some (codes "LIGHT FRAME")
unfolding resolve_raw defaults get
shouted_raw = refl

same_letters : lower (codes "Light Frame") ≡ lower (codes "LIGHT FRAME")
unfolding lower
same_letters = refl

resolve-type_folds_example : light_frame.image_type ≡ shouted_frame.image_type
resolve-type_folds_example =
    resolve-type_folds whole_numbers library light_hdu shouted_hdu 0 0 (codes "Light Frame")
      (codes "LIGHT FRAME") light_frame shouted_frame light_raw shouted_raw same_letters lights
      shouts

date_test :
    normalize_date_obs (codes " 2026-07-24T01:02:03.1234567Z ") ≡ codes "2026-07-24T01:02:03.123456"
unfolding normalize_date_obs
date_test = refl

groups_test : sexagesimal (codes "-12:30 15.5s") ≡ some (true, codes "12", codes "30", codes "15.5")
unfolding sexagesimal
groups_test = refl

-- A third group that is no number makes `std::stod` throw.
coord_test : parse_coord whole_numbers (codes "12 30 .") true ≡ none
unfolding parse_coord sexagesimal run_of
coord_test = refl
