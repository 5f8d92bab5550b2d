-- ===== src/Sys.antt =====
-- What the daemon asks of the database server and of the file system, and programs over it.
pub mod Paths
pub mod Ends
use star_base.Common.{ℕ, Bool, Option, none, some, List, Bytes}

-- A column that is NULL is `none`.
abbrev pub Row : Type 0
Row = List (Option Bytes)

-- What the server answers to `mysql_real_query`: a failure with its number and message, a result set, a
-- result set that cannot be fetched, or a statement without one, with its insert id and the number of
-- rows that it changed.
pub data Reply : Type 0 where
  failed : ℕ → Bytes → Reply
  rows : List Row → Reply
  lost : Bytes → Reply
  done : ℕ → ℕ → Reply

pub data Call : Type 0 where
  mysql : Bytes → Call
  exists : Bytes → Call
  create_directories : Bytes → Call
  create_hard_link : Bytes → Bytes → Call
  create_symlink : Bytes → Bytes → Call
  copy_file : Bytes → Bytes → Call
  rename : Bytes → Bytes → Call
  remove : Bytes → Call

-- A call of the file system answers with its error's message, if there is one.
abbrev pub Answer : Call → Type 0
Answer (Call.mysql sql) = Reply
Answer (Call.exists path) = Bool
Answer (Call.create_directories path) = Option Bytes
Answer (Call.create_hard_link src dst) = Option Bytes
Answer (Call.create_symlink src dst) = Option Bytes
Answer (Call.copy_file src dst) = Option Bytes
Answer (Call.rename src dst) = Option Bytes
Answer (Call.remove path) = Option Bytes

-- A `DbError` with its message and number, or another exception.
pub data Error : Type 0 where
  db_error : Bytes → ℕ → Error
  runtime_error : Bytes → Error

-- A program is finished, has thrown, or makes a call and goes on by the answer.
pub data Prog (A : Type 0) : Type 0 where
  ret : A → Prog A
  throw : Error → Prog A
  call : (c : Call) → (Answer c → Prog A) → Prog A

infixl 5 ◌>>=◌
abbrev pub ◌>>=◌ : {A B : Type 0} → Prog A → (A → Prog B) → Prog B
Prog.ret a >>= f = f a
Prog.throw e >>= f = Prog.throw e
Prog.call c k >>= f = Prog.call c (λ r. k r >>= f)

infixl 5 ◌>>◌
abbrev pub ◌>>◌ : {A B : Type 0} → Prog A → Prog B → Prog B
m >> k = m >>= (λ _. k)

-- One call.
abbrev pub ask : (c : Call) → Prog (Answer c)
ask c = Prog.call c (λ r. Prog.ret r)

-- A value, or what the standard library throws where there is none.
abbrev pub or_throw : {A : Type 0} → Option A → Bytes → Prog A
or_throw none what = Prog.throw (Error.runtime_error what)
or_throw (some a) what = Prog.ret a

-- `try { m } catch (...) { h }`.
abbrev pub catch : {A : Type 0} → Prog A → (Error → Prog A) → Prog A
catch (Prog.ret a) h = Prog.ret a
catch (Prog.throw e) h = h e
catch (Prog.call c k) h = Prog.call c (λ r. catch (k r) h)
