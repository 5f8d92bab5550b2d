-- ===== src/Index/FrameStore.antt =====
-- src/index/frame_store.cpp: the statements that store a file, its frames and their cards, and the reading back
-- of the ids, inside a transaction. A row has the columns of its statement.
pub mod Transaction
pub mod Examples
use star_base.Db.Database.{cell}
use star_base.Db.Database.Statements.{query, exec, quoted_text, commas}
use star_base.Extract.Mapping.{ImageType, type_name}
use star_base.Extract.Resolver.{ResolvedFrame}
use star_base.Fits.Header.{Card, Hdu, fingerprint, digest_hex}
use star_base.Index.Equipment.{EquipmentIds}
use star_base.Query.Platform.{Platform}
use star_base.Sys.{Row, db_error, Prog, ret, throw, ◌>>=◌, ◌>>◌, or_throw}
use star_base.Common.Stoi.{stoll}
use star_base.Common.{
  ℕ, suc, ap, Bool, true, false, not, Option, none, some, List, [], ◌∷◌, ◌++◌, map, if◌then◌else◌,
  length, take, any, Bytes, codes, concat, text_eq,
}
use star_base.Common.Ascii.{lower}
use star_base.Common.Decimal.{decimal}
use star_base.Common.Int.{ℤ, pos, decimal_int}

pub record FileInfo : Type 0 where
  pub root_id : ℤ
  pub rel_path : Bytes
  pub filename : Bytes
  pub ext : Bytes
  pub format : Bytes
  pub bucket : Bytes
  pub size_bytes : Option ℤ
  pub mtime_utc : Option Bytes
  pub inode : Option ℤ
  pub case_sensitive : Bool

-- `Upsert`: the columns with their values, as they stand in the statement.
abbrev pub Upsert : Type 0
Upsert = List (Bytes × Bytes)

-- The columns that are written on an update, too.
kept_columns : List Bytes → Upsert → List Bytes
unfolding text_eq
kept_columns insert_only [] = []
kept_columns insert_only ((c, v) ∷ cols) =
    let rest = kept_columns insert_only cols in
    if any (text_eq c) insert_only then rest else c ∷ rest

assignment : Bytes → Bytes
assignment c = concat (c ∷ codes " = VALUES(" ∷ c ∷ codes ")" ∷ [])

unfoldable pub build : Bytes → List Bytes → Upsert → Bytes
unfolding commas kept_columns assignment
build table insert_only cols = concat (
    codes "INSERT INTO "
    ∷ table
    ∷ codes " ("
    ∷ commas (map (λ (e : Bytes × Bytes). e.0) cols)
    ∷ codes ") VALUES ("
    ∷ commas (map (λ (e : Bytes × Bytes). e.1) cols)
    ∷ codes ") ON DUPLICATE KEY UPDATE "
    ∷ commas (map assignment (kept_columns insert_only cols))
    ∷ [])

abbrev raw_column : Bytes → Bytes → Bytes × Bytes
raw_column col value = (col, value)

num_column : Bytes → Option ℤ → Bytes × Bytes
unfolding decimal_int
num_column col none = (col, codes "NULL")
num_column col (some n) = (col, decimal_int n)

bit : Bytes → Bool → Bytes × Bytes
bit col v = (col, if v then codes "1" else codes "0")

not_blank : Bytes → Option Bytes
not_blank [] = none
not_blank (c ∷ s) = some (c ∷ s)

is_unknown : ImageType → Bool
is_unknown ImageType.unknown = true
is_unknown other = false

unfoldable pub quarantine_reason : Bool → ImageType → Option Bytes
unfolding is_unknown
quarantine_reason has_date type =
    if not has_date
    then some (codes "no-dateobs")
    else if is_unknown type
    then some (codes "unknown-type")
    else none

id_in : Bytes → Option Bytes → Prog ℤ
unfolding stoll
id_in what none = throw (db_error what 0)
id_in what (some s) = or_throw (stoll s) (codes "stoll")

-- The id in the first row; a missing one is an error of the database.
read_back : Bytes → List Row → Prog ℤ
unfolding cell id_in
read_back what [] = throw (db_error what 0)
read_back what (r ∷ rs) = id_in what (cell r 0)

module _ (p : Platform) where
  str_column : Bytes → Option Bytes → Bytes × Bytes
  unfolding quoted_text
  str_column col none = (col, codes "NULL")
  str_column col (some s) = (col, quoted_text p.escape s)

  real : Bytes → Option p.Double → Bytes × Bytes
  real col none = (col, codes "NULL")
  real col (some d) = (col, p.to_string d)

  -- The path that is hashed: without case where the file system has none.
  unfoldable pub hash_sql : FileInfo → Bytes
  unfolding quoted_text lower
  hash_sql info = concat (
      codes "UNHEX(MD5("
      ∷ quoted_text p.escape (if info.case_sensitive then info.rel_path else lower info.rel_path)
      ∷ codes "))"
      ∷ [])

  file_columns : FileInfo → Upsert
  unfolding num_column str_column hash_sql quoted_text not_blank
  file_columns info =
      num_column (codes "root_id") (some info.root_id)
      ∷ str_column (codes "rel_path") (some info.rel_path)
      ∷ raw_column (codes "rel_path_hash") (hash_sql info)
      ∷ str_column (codes "filename") (some info.filename)
      ∷ str_column (codes "ext") (not_blank info.ext)
      ∷ raw_column (codes "format") (quoted_text p.escape info.format)
      ∷ raw_column (codes "bucket") (quoted_text p.escape info.bucket)
      ∷ num_column (codes "size_bytes") info.size_bytes
      ∷ str_column (codes "mtime_utc") info.mtime_utc
      ∷ num_column (codes "inode") info.inode
      ∷ raw_column (codes "status") (codes "'ok'")
      ∷ raw_column (codes "last_seen_utc") (codes "UTC_TIMESTAMP(6)")
      ∷ raw_column (codes "last_indexed_utc") (codes "UTC_TIMESTAMP()")
      ∷ raw_column (codes "first_seen_utc") (codes "UTC_TIMESTAMP(6)")
      ∷ raw_column (codes "error") (codes "NULL")
      ∷ []

  -- The file's row is written, and its id read by the unique key.
  pub write_file : FileInfo → Prog ℤ
  unfolding build file_columns hash_sql read_back
  write_file info = do
    done ← exec (build (codes "files") (codes "first_seen_utc" ∷ []) (file_columns info))
    rows ← query (
        concat (
          codes "SELECT id FROM files WHERE root_id = "
          ∷ decimal_int info.root_id
          ∷ codes " AND rel_path_hash = "
          ∷ hash_sql info
          ∷ codes " LIMIT 1"
          ∷ []))
    read_back (codes "store_file: could not read back file id") rows

  -- With MD5 as `digest`, the resolved header and the ids of its equipment.
  frame_columns : (Bytes → Bytes) → ℤ → Hdu → ResolvedFrame p → EquipmentIds p → Upsert
  unfolding num_column str_column real bit quarantine_reason fingerprint digest_hex type_name
  frame_columns digest file_id hdu rf eq =
      num_column (codes "file_id") (some file_id)
      ∷ num_column (codes "hdu") (some hdu.index)
      ∷ raw_column (codes "fingerprint")
          (concat (codes "UNHEX('" ∷ digest_hex (fingerprint digest hdu) ∷ codes "')" ∷ []))
      ∷ raw_column (codes "image_type")
          (concat (codes "'" ∷ type_name rf.image_type ∷ codes "'" ∷ []))
      ∷ str_column (codes "object") rf.object
      ∷ str_column (codes "object_canonical") rf.object_canonical
      ∷ real (codes "ra_deg") rf.ra_deg
      ∷ real (codes "dec_deg") rf.dec_deg
      ∷ str_column (codes "date_obs_utc") rf.date_obs_utc
      ∷ str_column (codes "session_night") rf.session_night
      ∷ real (codes "exposure_s") rf.exposure_s
      ∷ str_column (codes "filter_raw") rf.filter_raw
      ∷ bit (codes "filter_defaulted") rf.filter_defaulted
      ∷ str_column (codes "instrume_raw") rf.instrume_raw
      ∷ str_column (codes "telescope_raw") rf.telescope_raw
      ∷ real (codes "focal_len_mm") rf.focal_len_mm
      ∷ num_column (codes "camera_id") eq.camera_id
      ∷ num_column (codes "rig_id") eq.rig_id
      ∷ num_column (codes "filter_id") eq.filter_id
      ∷ num_column (codes "site_id") eq.site_id
      ∷ num_column (codes "gain") rf.gain
      ∷ num_column (codes "offset_adu") rf.offset_adu
      ∷ num_column (codes "binx") rf.binx
      ∷ num_column (codes "biny") rf.biny
      ∷ num_column (codes "naxis1") rf.naxis1
      ∷ num_column (codes "naxis2") rf.naxis2
      ∷ real (codes "ccd_temp_c") rf.ccd_temp_c
      ∷ real (codes "set_temp_c") rf.set_temp_c
      ∷ real (codes "airmass") rf.airmass
      ∷ real (codes "sqm_mag_arcsec2") rf.sqm_mag_arcsec2
      ∷ str_column (codes "sqm_sensor") rf.sqm_sensor
      ∷ str_column (codes "sqm_time_utc") rf.sqm_time_utc
      ∷ num_column (codes "sqm_dt_s") rf.sqm_dt_s
      ∷ str_column (codes "pier_side") rf.pier_side
      ∷ str_column (codes "row_order") rf.row_order
      ∷ str_column (codes "quarantine_reason") (quarantine_reason rf.has_date rf.image_type)
      ∷ []

  text_or_null : Bytes → Bytes
  unfolding quoted_text
  text_or_null [] = codes "NULL"
  text_or_null (c ∷ s) = quoted_text p.escape (take 256 (c ∷ s))

  card_row : ℤ → ℕ → Card → Bytes
  unfolding quoted_text text_or_null decimal decimal_int
  card_row frame_id ord c = concat (
      codes "("
      ∷ decimal_int frame_id
      ∷ codes ", "
      ∷ decimal ord
      ∷ codes ", "
      ∷ quoted_text p.escape (take 72 c.keyword)
      ∷ codes ", "
      ∷ text_or_null c.value
      ∷ codes ", "
      ∷ text_or_null c.comment
      ∷ codes ")"
      ∷ [])

  -- The rows of the cards from the place `ord` on.
  unfoldable pub card_rows : ℤ → ℕ → List Card → List Bytes
  unfolding card_row
  card_rows frame_id ord [] = []
  card_rows frame_id ord (c ∷ cards) = card_row frame_id ord c ∷ card_rows frame_id (suc ord) cards

  insert_cards : ℤ → List Card → Prog ℕ
  unfolding card_rows commas
  insert_cards frame_id [] = ret 0
  insert_cards frame_id (c ∷ cards) = do
    done ← exec (
        codes "INSERT INTO frame_keywords (frame_id, ord, keyword, value, comment) VALUES "
        ++ commas (card_rows frame_id 0 (c ∷ cards)))
    ret (length (c ∷ cards))

  -- The frame's row, its id, and its cards in place of the old ones; the number of cards.
  pub write_frame : (Bytes → Bytes) → ℤ → Hdu → ResolvedFrame p → EquipmentIds p → Prog ℕ
  unfolding build frame_columns read_back insert_cards
  write_frame digest file_id hdu rf eq = do
    done ← exec (build (codes "frames") [] (frame_columns digest file_id hdu rf eq))
    rows ← query (
        concat (
          codes "SELECT id FROM frames WHERE file_id = "
          ∷ decimal_int file_id
          ∷ codes " AND hdu = "
          ∷ decimal_int hdu.index
          ∷ codes " LIMIT 1"
          ∷ []))
    frame_id ← read_back (codes "store_file: could not read back frame id") rows
    cleared ← exec (codes "DELETE FROM frame_keywords WHERE frame_id = " ++ decimal_int frame_id)
    insert_cards frame_id hdu.cards
