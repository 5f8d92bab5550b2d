-- ===== src/Index/FrameStore/Examples.antt =====
-- Statements of src/index/frame_store.cpp.
use star_base.Extract.Night.Civil.{whole_numbers, library}
use star_base.Extract.Defaults.{defaults}
use star_base.Fits.Header.{RawHeader}
use star_base.Index.FrameStore.Transaction.{store_file}
use star_base.Index.FrameStore.Transaction.Bracket.{Phase, Bracketed, store_file-Bracketed}
use star_base.Index.FrameStore.{build, card_rows, quarantine_reason, FileInfo}
use star_base.Extract.Mapping.{ImageType}
use star_base.Fits.Header.{Card}
use star_base.Query.Whole.{whole, no_stod}
use star_base.Common.{◌≡◌, refl, true, false, none, some, [], ◌∷◌, codes}
use star_base.Common.Int.{pos}

build_test :
    build
      (codes "files")
      (codes "first_seen" ∷ [])
      ((codes "id", codes "7") ∷ (codes "first_seen", codes "NOW()") ∷ [])
    ≡ codes
        "INSERT INTO files (id, first_seen) VALUES (7, NOW()) ON DUPLICATE KEY UPDATE id = VALUES(id)"
unfolding build
build_test = refl

abbrev history : Card
history = record { keyword = codes "HISTORY"; value = []; comment = codes "it's" }

card_rows_test :
    card_rows (whole (λ s. 0) no_stod) (pos 3) 0 (history ∷ history ∷ [])
    ≡ codes "(3, 0, 'HISTORY', NULL, 'it\\'s')" ∷ codes "(3, 1, 'HISTORY', NULL, 'it\\'s')" ∷ []
unfolding card_rows
card_rows_test = refl

no_date_test : quarantine_reason false ImageType.light ≡ some (codes "no-dateobs")
unfolding quarantine_reason
no_date_test = refl

abbrev info : FileInfo
info = record {
  root_id = pos 1;
  rel_path = codes "Lights/M31.fits";
  filename = codes "M31.fits";
  ext = codes ".fits";
  format = codes "fits";
  bucket = codes "lights";
  size_bytes = some (pos 2880);
  mtime_utc = none;
  inode = none;
  case_sensitive = true;
}

abbrev header : RawHeader
header = record {
  hdus =
      record {
        index = pos 0;
        is_image = true;
        bitpix = pos 16;
        naxis = pos 2;
        naxis1 = pos 100;
        naxis2 = pos 50;
        cards = history ∷ [];
      }
      ∷ [];
}

store_file-Bracketed_example :
    Bracketed
      (λ k e. Unit {0})
      10
      Phase.idle
      (store_file whole_numbers library (λ s. s) defaults 0 info header)
store_file-Bracketed_example =
    store_file-Bracketed whole_numbers library (λ s. s) defaults 0 info header
