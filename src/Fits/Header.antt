-- ===== src/Fits/Header.antt =====
-- src/fits/fits_reader.hpp and the parts of src/fits/fits_reader.cpp that do not call CFITSIO: cards, their
-- values, and what the fingerprint of an image is taken of.
pub mod Examples
use star_base.Common.{
  ℕ, ◌+◌, ◌-◌, ◌/◌, ◌%◌, Bool, true, false, ◌&&◌, Option, none, some, List, [], ◌∷◌, ◌++◌, map, ltb,
  ◌==◌, if◌then◌else◌, value_or, Bytes, codes, text_eq,
}
use star_base.Common.Ascii.{to_upper}
use star_base.Common.Int.{ℤ, pos, pos_part}
use star_base.Common.Lines.{trim_right}

pub record Card : Type 0 where
  pub keyword : Bytes
  pub value : Bytes
  pub comment : Bytes

pub record Hdu : Type 0 where
  pub index : ℤ
  pub is_image : Bool
  pub bitpix : ℤ
  pub naxis : ℤ
  pub naxis1 : ℤ
  pub naxis2 : ℤ
  pub cards : List Card

pub record RawHeader : Type 0 where
  pub hdus : List Hdu

unfoldable pub upper : Bytes → Bytes
unfolding to_upper
upper s = map to_upper s

-- `s.substr(0, e + 1)` up to the last byte that is not a blank.
unfoldable pub rstrip : Bytes → Bytes
unfolding trim_right
rstrip s = trim_right s

-- The loop of `clean_value` behind the opening quote; the flag says that a quote was just read.
unfoldable pub unquoted : Bool → Bytes → Bytes
unquoted held [] = []
unquoted false (c ∷ s) = elim (c == b'\'') [ true ↦ unquoted true s | false ↦ c ∷ unquoted false s ]
unquoted true (c ∷ s) = elim (c == b'\'') [ true ↦ b'\'' ∷ unquoted false s | false ↦ [] ]

-- A value of a card, or a null pointer.
unfoldable pub clean_value : Option Bytes → Bytes
unfolding unquoted rstrip
clean_value none = []
clean_value (some []) = []
clean_value (some (c ∷ s)) = if c == b'\'' then rstrip (unquoted false s) else rstrip (c ∷ s)

-- The value of the first card with the keyword, which is in upper case.
get_upper : Bytes → List Card → Option Bytes
unfolding upper text_eq
get_upper want [] = none
get_upper want (c ∷ cards) =
    let rest = get_upper want cards in if text_eq (upper c.keyword) want then some c.value else rest

unfoldable pub get : Hdu → Bytes → Option Bytes
unfolding get_upper upper
get hdu keyword = get_upper (upper keyword) hdu.cards

is_frame : Hdu → Bool
is_frame h = h.is_image && ltb 0 (pos_part h.naxis)

frames_of : List Hdu → List Hdu
unfolding is_frame
frames_of [] = []
frames_of (h ∷ hs) = let rest = frames_of hs in if is_frame h then h ∷ rest else rest

unfoldable pub image_hdus : RawHeader → List Hdu
unfolding frames_of
image_hdus header = frames_of header.hdus

abbrev pub fingerprint_fields : List Bytes
fingerprint_fields =
    codes "DATE-OBS"
    ∷ codes "INSTRUME"
    ∷ codes "EXPTIME"
    ∷ codes "NAXIS1"
    ∷ codes "NAXIS2"
    ∷ codes "IMAGETYP"
    ∷ codes "XBINNING"
    ∷ []

-- The text that is hashed.
unfoldable pub material : Hdu → List Bytes → Bytes
unfolding get
material hdu [] = []
material hdu (f ∷ fs) = value_or (get hdu f) [] ++ b'|' ∷ material hdu fs

-- With MD5 as `digest`.
unfoldable pub fingerprint : (Bytes → Bytes) → Hdu → Bytes
unfolding material
fingerprint digest hdu = digest (material hdu fingerprint_fields)

hex_of : ℕ → ℕ
hex_of n = if ltb n 10 then b'0' + n else b'a' + (n - 10)

-- The bytes of a digest in hexadecimal.
unfoldable pub digest_hex : Bytes → Bytes
unfolding hex_of
digest_hex [] = []
digest_hex (b ∷ bs) = hex_of (b / 16) ∷ hex_of (b % 16) ∷ digest_hex bs
