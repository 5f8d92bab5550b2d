-- ===== src/Index/FrameStore/Transaction/Bracket.antt =====
-- Transactions are bracketed.
use star_base.Db.Database.{retryable, cell}
use star_base.Common.Stoi.{stoll}
use star_base.Db.Database.Statements.{query, exec, exec_reply}
use star_base.Db.Database.Statements.Safe.{query-Calls, exec-Calls}
use star_base.Fits.Header.{Card, Hdu, RawHeader, image_hdus}
use star_base.Extract.Coord.{Library}
use star_base.Extract.Mapping.{HeaderMapping}
use star_base.Extract.Resolver.{ResolvedFrame, resolve}
use star_base.Index.Equipment.{EquipmentIds}
use star_base.Index.FrameStore.{
  FileInfo, build, write_file, write_frame, id_in, read_back, insert_cards,
}
use star_base.Index.FrameStore.Transaction.{
  StoreResult, start_text, commit_text, rollback_text, undo, write_hdu, write_frames, write_all,
  store_file_once, store_from, store_file,
}
use star_base.Query.Platform.{Platform}
use star_base.Sys.Ends.{Calls, bind-Calls}
use star_base.Sys.{Call, Reply, Row, Error, Prog, ret, throw, catch, ◌>>=◌, or_throw}
use star_base.Common.{
  ℕ, zero, suc, ◌+◌, ◌≡◌, refl, sym, subst, Bool, true, false, Option, none, some, List, [], ◌∷◌,
  if◌then◌else◌, value_or, get_elem?, Bytes, codes, text_eq,
}
use star_base.Common.Int.{ℤ}

-- Whether a transaction is open, and whether the last one was committed.
pub data Phase : Type 0 where
  idle opened committed : Phase

pub data Kind : Type 0 where
  begins commits rolls_back plain : Kind

unfoldable pub kind_of : Bytes → Kind
unfolding text_eq
kind_of sql =
    if text_eq sql start_text
    then Kind.begins
    else if text_eq sql commit_text
    then Kind.commits
    else if text_eq sql rollback_text
    then Kind.rolls_back
    else Kind.plain

abbrev pub is_failed : Reply → Bool
is_failed (Reply.failed n m) = true
is_failed other = false

abbrev pub one_left : ℕ → Bool
one_left zero = false
one_left (suc n) = true

abbrev pub less_one : ℕ → ℕ
less_one zero = zero
less_one (suc n) = n

-- A transaction begins where none is open and one is left; every other statement stands in one.
abbrev pub allowed : ℕ → Phase → Kind → Bool
allowed n Phase.idle Kind.begins = one_left n
allowed n Phase.opened Kind.commits = true
allowed n Phase.opened Kind.rolls_back = true
allowed n Phase.opened Kind.plain = true
allowed n phase kind = false

abbrev pub spent : ℕ → Kind → ℕ
spent n Kind.begins = less_one n
spent n kind = n

-- A rollback ends the transaction whatever is answered: the server drops it with the connection.
abbrev pub next : Phase → Kind → Bool → Phase
next phase Kind.begins true = phase
next phase Kind.begins false = Phase.opened
next phase Kind.commits true = phase
next phase Kind.commits false = Phase.committed
next phase Kind.rolls_back fails = Phase.idle
next phase Kind.plain fails = phase

-- Every run asks what is allowed, returns behind a commit, and throws where no transaction is open, with an
-- error and a number of transactions left of which `E` holds.
abbrev pub Bracketed : {A : Type 0} → (ℕ → Error → Type 0) → ℕ → Phase → Prog A → Type 0
Bracketed E n phase (Prog.ret a) = phase ≡ Phase.committed
Bracketed E n phase (Prog.throw e) = (phase ≡ Phase.idle) × E n e
Bracketed E n phase (Prog.call (Call.mysql sql) k) =
    (allowed n phase (kind_of sql) ≡ true)
    × ((r : Reply)
        → Bracketed E (spent n (kind_of sql)) (next phase (kind_of sql) (is_failed r)) (k r))
Bracketed E n phase (Prog.call other k) = ⊥

abbrev IsPlain : Call → Type 0
IsPlain (Call.mysql sql) = kind_of sql ≡ Kind.plain
IsPlain other = ⊥

module _ (A : Type 0) (E : ℕ → Error → Type 0) (n : ℕ) where
  rolled_back :
      (e : Error) (r : Reply)
      → E n e
      → Bracketed {A = A} E n Phase.idle (
          catch (exec_reply r >>= (λ i. ret (tt {0}))) (λ ignored. ret (tt {0})) >>= (λ u. throw e))
  unfolding exec_reply
  rolled_back e (Reply.failed i m) h = (refl, h)
  rolled_back e (Reply.rows rs) h = (refl, h)
  rolled_back e (Reply.lost m) h = (refl, h)
  rolled_back e (Reply.done i c) h = (refl, h)

  undo-Bracketed : (e : Error) → E n e → Bracketed {A = A} E n Phase.opened (undo e)
  unfolding exec kind_of
  undo-Bracketed e h = (refl, λ r. rolled_back e r h)

  committed_by :
      (a : A) (r : Reply)
      → ((e : Error) → E n e)
      → Bracketed E n
          (next Phase.opened Kind.commits (is_failed r))
          (catch (exec_reply r >>= (λ i. ret a)) undo)
  unfolding exec_reply
  committed_by a (Reply.failed i m) h = undo-Bracketed _ (h _)
  committed_by a (Reply.rows rs) h = refl
  committed_by a (Reply.lost m) h = refl
  committed_by a (Reply.done i c) h = refl

  commit_text-Bracketed :
      (a : A)
      → ((e : Error) → E n e)
      → Bracketed E n Phase.opened (catch (do ended ← exec commit_text; ret a) undo)
  unfolding exec kind_of
  commit_text-Bracketed a h = (refl, λ r. committed_by a r h)

  -- A part of plain statements inside a transaction that is undone where it throws.
  plain-Bracketed :
      {B : Type 0} (m : Prog B) (f : B → Prog A)
      → Calls IsPlain m
      → ((e : Error) → E n e)
      → ((b : B) → Bracketed E n Phase.opened (catch (f b) undo))
      → Bracketed E n Phase.opened (catch (m >>= f) undo)
  plain-Bracketed (Prog.ret b) f h e k = k b
  plain-Bracketed (Prog.throw x) f h e k = undo-Bracketed x (e x)
  plain-Bracketed (Prog.call (Call.mysql sql) g) f (q, h) e k =
      rw q (refl, λ r. plain-Bracketed (g r) f (h r) e k)
  plain-Bracketed (Prog.call c g) f (q, h) e k = absurd q

catch-Bracketed :
    {A : Type 0} (E F : ℕ → Error → Type 0) (n : ℕ) (phase : Phase) (m : Prog A)
    (h : Error → Prog A)
    → Bracketed E n phase m
    → ((k : ℕ) (e : Error) → E k e → Bracketed F k Phase.idle (h e))
    → Bracketed F n phase (catch m h)
catch-Bracketed E F n phase (Prog.ret a) h b k = b
catch-Bracketed E F n phase (Prog.throw e) h (i, b) k =
    subst (λ x. Bracketed F n x (h e)) (sym i) (k n e b)
catch-Bracketed E F n phase (Prog.call (Call.mysql sql) g) h (q, b) k = (
  q,
  λ r.
      catch-Bracketed E F (spent n (kind_of sql)) (next phase (kind_of sql) (is_failed r)) (g r) h
        (b r) k,
)
catch-Bracketed E F n phase (Prog.call c g) h b k = absurd b

relax :
    {A : Type 0} (E : ℕ → Error → Type 0) (n : ℕ) (phase : Phase) (m : Prog A)
    → Bracketed E n phase m
    → Bracketed (λ k e. Unit {0}) n phase m
relax E n phase (Prog.ret a) b = b
relax E n phase (Prog.throw e) (i, b) = (i, tt)
relax E n phase (Prog.call (Call.mysql sql) g) (q, b) =
    (q, λ r. relax E (spent n (kind_of sql)) (next phase (kind_of sql) (is_failed r)) (g r) (b r))
relax E n phase (Prog.call c g) b = absurd b

or_throw-Plain : {A : Type 0} (o : Option A) (what : Bytes) → Calls IsPlain (or_throw o what)
or_throw-Plain none what = tt
or_throw-Plain (some a) what = tt

id_in-Plain : (what : Bytes) (o : Option Bytes) → Calls IsPlain (id_in what o)
unfolding id_in
id_in-Plain what none = tt
id_in-Plain what (some s) = or_throw-Plain (stoll s) (codes "stoll")

first_id-Plain : (what : Bytes) (rows : List Row) → Calls IsPlain (read_back what rows)
unfolding read_back cell
first_id-Plain what [] = tt
first_id-Plain what (r ∷ rs) = id_in-Plain what (value_or (get_elem? r 0) none)

module _ (p : Platform) where
  write_file-Plain : (info : FileInfo) → Calls IsPlain (write_file p info)
  unfolding write_file build kind_of
  write_file-Plain info = bind-Calls IsPlain (exec _) _ (exec-Calls IsPlain _ refl) (λ a.
      bind-Calls IsPlain (query _) _ (query-Calls IsPlain _ refl)
        (λ rows. first_id-Plain (codes "store_file: could not read back file id") rows))

  insert_cards-Plain :
      (frame_id : ℤ) (cards : List Card) → Calls IsPlain (insert_cards p frame_id cards)
  unfolding insert_cards kind_of
  insert_cards-Plain frame_id [] = tt
  insert_cards-Plain frame_id (c ∷ cards) =
      bind-Calls IsPlain (exec _) _ (exec-Calls IsPlain _ refl) (λ a. tt)

  write_frame-Plain :
      (digest : Bytes → Bytes) (file_id : ℤ) (hdu : Hdu) (rf : ResolvedFrame p)
      (eq : EquipmentIds p)
      → Calls IsPlain (write_frame p digest file_id hdu rf eq)
  unfolding write_frame build kind_of
  write_frame-Plain digest file_id hdu rf eq =
      bind-Calls IsPlain (exec _) _ (exec-Calls IsPlain _ refl) (λ a.
        bind-Calls IsPlain (query _) _ (query-Calls IsPlain _ refl) (λ rows.
          bind-Calls IsPlain (read_back _ rows) _
            (first_id-Plain (codes "store_file: could not read back frame id") rows)
            (λ id.
              bind-Calls IsPlain (exec _) _ (exec-Calls IsPlain _ refl)
                (λ b. insert_cards-Plain id hdu.cards))))

  module _ (lib : Library p) (digest : Bytes → Bytes) (m : HeaderMapping) (offset : p.Double) where
    write_hdu-Plain :
        (file_id : ℤ) (hdu : Hdu) → Calls IsPlain (write_hdu p lib digest m offset file_id hdu)
    unfolding write_hdu
    write_hdu-Plain file_id hdu =
        bind-Calls IsPlain (or_throw _ _) _
          (or_throw-Plain (resolve p lib m hdu offset) (codes "stod"))
          (λ rf. write_frame-Plain digest file_id hdu rf _)

    write_frames-Plain :
        (file_id : ℤ) (frames keywords : ℕ) (hdus : List Hdu)
        → Calls IsPlain (write_frames p lib digest m offset file_id frames keywords hdus)
    unfolding write_frames
    write_frames-Plain file_id frames keywords [] = tt
    write_frames-Plain file_id frames keywords (hdu ∷ hdus) =
        bind-Calls IsPlain (write_hdu p lib digest m offset file_id hdu) _
          (write_hdu-Plain file_id hdu)
          (λ n. write_frames-Plain file_id (suc frames) (keywords + n) hdus)

    write_all-Plain :
        (info : FileInfo) (header : RawHeader)
        → Calls IsPlain (write_all p lib digest m offset info header)
    unfolding write_all
    write_all-Plain info header =
        bind-Calls IsPlain (write_file p info) _ (write_file-Plain info)
          (λ id. write_frames-Plain id 0 0 (image_hdus header))

    body-Bracketed :
        (n : ℕ) (info : FileInfo) (header : RawHeader)
        → Bracketed
            (λ k e. k ≡ n)
            n
            Phase.opened
            (catch
              (do
                result ← write_all p lib digest m offset info header
                ended ← exec commit_text
                ret result)
              undo)
    body-Bracketed n info header =
        plain-Bracketed StoreResult (λ k e. k ≡ n) n (write_all p lib digest m offset info header) _
          (write_all-Plain info header) (λ e. refl)
          (λ result. commit_text-Bracketed StoreResult (λ k e. k ≡ n) n result (λ e. refl))

    -- One attempt takes one transaction.
    begun :
        (n : ℕ) (info : FileInfo) (header : RawHeader) (r : Reply)
        → Bracketed
            (λ k e. k ≡ n)
            n
            (next Phase.idle Kind.begins (is_failed r))
            (exec_reply r >>= (λ i.
              catch
                (do
                  result ← write_all p lib digest m offset info header
                  ended ← exec commit_text
                  ret result)
                undo))
    unfolding exec_reply
    begun n info header (Reply.failed i what) = (refl, refl)
    begun n info header (Reply.rows rs) = body-Bracketed n info header
    begun n info header (Reply.lost what) = body-Bracketed n info header
    begun n info header (Reply.done i c) = body-Bracketed n info header

    once-Bracketed :
        (n : ℕ) (info : FileInfo) (header : RawHeader)
        → Bracketed
            (λ k e. k ≡ n)
            (suc n)
            Phase.idle
            (store_file_once p lib digest m offset info header)
    unfolding store_file_once exec kind_of
    once-Bracketed n info header = (refl, λ r. begun n info header r)

    retried :
        (left : ℕ) (info : FileInfo) (header : RawHeader) (e : Error) (b : Bool)
        → Bracketed
            (λ k e. Unit {0})
            (suc left)
            Phase.idle
            (store_from p lib digest m offset left info header)
        → Bracketed
            (λ k e. Unit {0})
            (suc left)
            Phase.idle
            (elim b [ true ↦ store_from p lib digest m offset left info header | false ↦ throw e ])
    retried left info header e true h = h
    retried left info header e false h = (refl, tt)

    from-Bracketed :
        (left : ℕ) (info : FileInfo) (header : RawHeader)
        → Bracketed
            (λ k e. Unit {0})
            (suc left)
            Phase.idle
            (store_from p lib digest m offset left info header)
    unfolding store_from
    from-Bracketed zero info header =
        relax (λ k e. k ≡ 0) 1 Phase.idle (store_file_once p lib digest m offset info header)
          (once-Bracketed 0 info header)
    from-Bracketed (suc left) info header =
        catch-Bracketed (λ k e. k ≡ suc left) (λ k e. Unit {0}) (suc (suc left)) Phase.idle
          (store_file_once p lib digest m offset info header) _
          (once-Bracketed (suc left) info header)
          (λ k e q.
            subst
              (λ x.
                Bracketed (λ k e. Unit {0}) x Phase.idle
                  (elim (retryable e) [
                    | true ↦ store_from p lib digest m offset left info header
                    | false ↦ throw e
                  ]))
              (sym q) (retried left info header e (retryable e) (from-Bracketed left info header)))

    -- A file is never left half-written: whatever the server answers, a call of `store_file` begins at most ten
    -- transactions, one at a time, and makes every other statement inside one. It returns exactly behind a commit
    -- that went well, and where it throws no transaction is open.
    pub store_file-Bracketed :
        (info : FileInfo) (header : RawHeader)
        → Bracketed (λ k e. Unit {0}) 10 Phase.idle (store_file p lib digest m offset info header)
    unfolding store_file
    store_file-Bracketed info header = from-Bracketed 9 info header
