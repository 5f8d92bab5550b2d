-- ===== src/Index/FrameStore/Transaction.antt =====
-- `store_file` of src/index/frame_store.cpp without a resolver of equipment: the transaction, and the retries where
-- the server reports a conflict. The pause between two attempts makes no call.
pub mod Bracket
use star_base.Db.Database.{retryable}
use star_base.Db.Database.Statements.{exec}
use star_base.Extract.Coord.{Library}
use star_base.Extract.Mapping.{HeaderMapping}
use star_base.Extract.Resolver.{resolve}
use star_base.Fits.Header.{Hdu, RawHeader, image_hdus}
use star_base.Index.Equipment.{EquipmentIds}
use star_base.Index.FrameStore.{FileInfo, write_file, write_frame}
use star_base.Query.Platform.{Platform}
use star_base.Sys.{Error, Prog, ret, throw, catch, ◌>>=◌, ◌>>◌, or_throw}
use star_base.Common.{ℕ, zero, suc, ◌+◌, ap, true, false, none, List, [], ◌∷◌, all, Bytes, codes}
use star_base.Common.Int.{ℤ}

pub record StoreResult : Type 0 where
  pub file_id : ℤ
  pub frames_written : ℕ
  pub keywords_written : ℕ

abbrev pub start_text : Bytes
start_text = codes "START TRANSACTION"

abbrev pub commit_text : Bytes
commit_text = codes "COMMIT"

abbrev pub rollback_text : Bytes
rollback_text = codes "ROLLBACK"

-- The transaction is rolled back, and the error goes on; what the rollback throws is left out.
abbrev pub undo : {A : Type 0} → Error → Prog A
undo e = do done ← catch (do n ← exec rollback_text; ret tt) (λ ignored. ret tt); throw e

module _ (p : Platform) (lib : Library p) (digest : Bytes → Bytes) (m : HeaderMapping)
    (offset : p.Double) where
  no_equipment : EquipmentIds p
  no_equipment = record { camera_id = none; rig_id = none; filter_id = none; site_id = none }

  write_hdu : ℤ → Hdu → Prog ℕ
  unfolding no_equipment
  write_hdu file_id hdu = do
    rf ← or_throw (resolve p lib m hdu offset) (codes "stod")
    write_frame p digest file_id hdu rf no_equipment

  -- The frames of a file, behind the counts so far.
  write_frames : ℤ → ℕ → ℕ → List Hdu → Prog StoreResult
  unfolding write_hdu
  write_frames file_id frames keywords [] =
      ret (record { file_id = file_id; frames_written = frames; keywords_written = keywords })
  write_frames file_id frames keywords (hdu ∷ hdus) = do
    n ← write_hdu file_id hdu
    write_frames file_id (suc frames) (keywords + n) hdus

  write_all : FileInfo → RawHeader → Prog StoreResult
  unfolding write_frames image_hdus
  write_all info header = do
    file_id ← write_file p info
    write_frames file_id 0 0 (image_hdus header)

  -- `store_file_once`.
  pub store_file_once : FileInfo → RawHeader → Prog StoreResult
  unfolding write_all
  store_file_once info header = do
    begun ← exec start_text
    catch (do result ← write_all info header; done ← exec commit_text; ret result) undo

  -- With some attempts left behind this one.
  store_from : ℕ → FileInfo → RawHeader → Prog StoreResult
  store_from zero info header = store_file_once info header
  store_from (suc left) info header =
      catch (store_file_once info header)
        (λ e. elim (retryable e) [ true ↦ store_from left info header | false ↦ throw e ])

  -- At most `kMaxAttempts` attempts.
  pub store_file : FileInfo → RawHeader → Prog StoreResult
  unfolding store_from
  store_file info header = store_from 9 info header
