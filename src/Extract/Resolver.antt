-- ===== src/Extract/Resolver.antt =====
-- `resolve` of src/extract/resolver.cpp.
pub mod Types
pub mod Examples
use star_base.Fits.Header.{Hdu}
use star_base.Extract.Mapping.{HeaderMapping, ImageType, classify, resolve_raw, normalize_value}
use star_base.Extract.Coord.{Library, to_double, to_int_round, parse_coord}
use star_base.Extract.Night.{night_of}
use star_base.Names.Canon.{canonicalize}
use star_base.Query.Platform.{Platform}
use star_base.Common.Lines.{trim}
use star_base.Common.{
  ℕ, ap, Bool, true, false, not, ◌||◌, Option, none, some, [], ◌∷◌, ltb, ◌==◌, if◌then◌else◌, ◌>>=◌,
  is_some, take, drop, last?, pop_back, Bytes, codes,
}
use star_base.Common.Int.{ℤ, pos, pos_part, int_of_long}

unfoldable pub drop_zone : Bytes → Option ℕ → Bytes
drop_zone s none = s
drop_zone s (some c) = if c == b'Z' || c == b'z' then pop_back s else s

-- The bytes up to the sixth behind the first point.
unfoldable pub six_digits : Bytes → Bytes
six_digits [] = []
six_digits (c ∷ s) = let rest = c ∷ six_digits s in if c == b'.' then c ∷ take 6 s else rest

unfoldable pub normalize_date_obs : Bytes → Bytes
unfolding trim drop_zone six_digits
normalize_date_obs raw = six_digits (drop_zone (trim raw) (last? (trim raw)))

-- A text that is kept where it is not empty.
unfoldable pub not_empty : Bytes → Option Bytes
not_empty [] = none
not_empty (c ∷ s) = some (c ∷ s)

positive_int : ℤ → Option ℤ
unfolding int_of_long
positive_int n = if ltb 0 (pos_part n) then some (int_of_long n) else none

canonical_object : Option Bytes → Option Bytes
canonical_object none = none
canonical_object (some norm) =
    if (canonicalize norm).placeholder then none else some (canonicalize norm).canonical

unfoldable pub is_open : ImageType → Bool
is_open ImageType.light = true
is_open ImageType.flat = true
is_open other = false

module _ (p : Platform) where
  pub record ResolvedFrame : Type 0 where
    pub image_type : ImageType
    pub master_of : Option ImageType
    pub object : Option Bytes
    pub object_canonical : Option Bytes
    pub ra_deg : Option p.Double
    pub dec_deg : Option p.Double
    pub date_obs_utc : Option Bytes
    pub session_night : Option Bytes
    pub exposure_s : Option p.Double
    pub instrume_raw : Option Bytes
    pub telescope_raw : Option Bytes
    pub focal_len_mm : Option p.Double
    pub filter_raw : Option Bytes
    pub filter_defaulted : Bool
    pub gain : Option ℤ
    pub offset_adu : Option ℤ
    pub binx : Option ℤ
    pub biny : Option ℤ
    pub naxis1 : Option ℤ
    pub naxis2 : Option ℤ
    pub ccd_temp_c : Option p.Double
    pub set_temp_c : Option p.Double
    pub airmass : Option p.Double
    pub sqm_mag_arcsec2 : Option p.Double
    pub sqm_sensor : Option Bytes
    pub sqm_time_utc : Option Bytes
    pub sqm_dt_s : Option ℤ
    pub pier_side : Option Bytes
    pub row_order : Option Bytes
    pub has_date : Bool

  module _ (lib : Library p) (m : HeaderMapping) where
    norm : Bytes → Bytes → Bytes
    norm field raw = normalize_value lib.regex_search m field raw

    unfoldable pub type_of : Option Bytes → ImageType
    unfolding norm
    type_of none = ImageType.unknown
    type_of (some raw) = classify (norm (codes "image_type") raw)

    -- A value that is normalized to nothing is left out.
    unfoldable pub usable : Bytes → Option Bytes → Option Bytes
    unfolding norm not_empty
    usable field none = none
    usable field (some raw) = not_empty (norm field raw)

    unfoldable pub normalized_value : Bytes → Option Bytes → Option Bytes
    unfolding norm
    normalized_value field none = none
    normalized_value field (some raw) = some (norm field raw)

    coord_of : Option Bytes → Bool → Option (Option p.Double)
    coord_of none is_ra = some none
    coord_of (some raw) is_ra = parse_coord p raw is_ra

    double_of : Option Bytes → Option p.Double
    double_of none = none
    double_of (some raw) = to_double p raw

    rounded : Option Bytes → Option ℤ
    rounded none = none
    rounded (some raw) = to_int_round p lib raw

    date_of : Option Bytes → Option Bytes
    date_of none = none
    date_of (some raw) = some (normalize_date_obs raw)

    night_at : p.Double → Option Bytes → Option Bytes
    night_at offset none = none
    night_at offset (some date) = night_of p lib date offset

    time_of : Option Bytes → Option Bytes
    time_of none = none
    time_of (some raw) = not_empty (normalize_date_obs raw)

    -- The filter, and whether it is the default of the type.
    unfoldable pub filter_for : ImageType → Option Bytes → Option Bytes × Bool
    unfolding is_open
    filter_for type (some name) = (some name, false)
    filter_for type none = if is_open type then (some (codes "CLEAR"), true) else (none, false)

    pub frame_with : Hdu → p.Double → Option p.Double → Option p.Double → ResolvedFrame
    unfolding type_of usable filter_for
    frame_with hdu offset ra dec =
        let type = type_of (resolve_raw hdu m (codes "image_type")) in
        let filter =
          filter_for type (usable (codes "filter") (resolve_raw hdu m (codes "filter"))) in
        let object = usable (codes "object") (resolve_raw hdu m (codes "object")) in
        let date = date_of (resolve_raw hdu m (codes "date_obs")) in
        record {
          image_type = type;
          master_of = none;
          object = object;
          object_canonical = canonical_object object;
          ra_deg = ra;
          dec_deg = dec;
          date_obs_utc = date;
          session_night = night_at offset date;
          exposure_s = double_of (resolve_raw hdu m (codes "exposure_s"));
          instrume_raw = resolve_raw hdu m (codes "instrument");
          telescope_raw = resolve_raw hdu m (codes "telescope");
          focal_len_mm = double_of (resolve_raw hdu m (codes "focal_len_mm"));
          filter_raw = filter.0;
          filter_defaulted = filter.1;
          gain = rounded (resolve_raw hdu m (codes "gain"));
          offset_adu = rounded (resolve_raw hdu m (codes "offset_adu"));
          binx = rounded (resolve_raw hdu m (codes "binx"));
          biny = rounded (resolve_raw hdu m (codes "biny"));
          naxis1 = positive_int hdu.naxis1;
          naxis2 = positive_int hdu.naxis2;
          ccd_temp_c = double_of (resolve_raw hdu m (codes "ccd_temp_c"));
          set_temp_c = double_of (resolve_raw hdu m (codes "set_temp_c"));
          airmass = double_of (resolve_raw hdu m (codes "airmass"));
          sqm_mag_arcsec2 = double_of (resolve_raw hdu m (codes "sqm"));
          sqm_sensor = resolve_raw hdu m (codes "sqm_sensor");
          sqm_time_utc = time_of (resolve_raw hdu m (codes "sqm_time"));
          sqm_dt_s = rounded (resolve_raw hdu m (codes "sqm_dt_s"));
          pier_side = normalized_value (codes "pier_side") (resolve_raw hdu m (codes "pier_side"));
          row_order = normalized_value (codes "row_order") (resolve_raw hdu m (codes "row_order"));
          has_date = is_some date;
        }

    -- Of a header and the site's offset in hours; `none` where a coordinate makes `std::stod` throw.
    pub resolve : Hdu → p.Double → Option ResolvedFrame
    unfolding frame_with coord_of
    resolve hdu offset = do
      ra ← coord_of (resolve_raw hdu m (codes "ra")) true
      dec ← coord_of (resolve_raw hdu m (codes "dec")) false
      some (frame_with hdu offset ra dec)
