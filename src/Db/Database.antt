-- ===== src/Db/Database.antt =====
-- src/db/database.cpp over the calls of the MariaDB connector: `mysql_real_query` and what follows it is
-- one call with its reply, and `mysql_real_escape_string` is the argument `escape`. The columns of a
-- result are as many as the statement names.
pub mod Statements
pub mod Examples
use star_base.Sys.{Row, Error, db_error, runtime_error, ret}
use star_base.Common.Stoi.{stoi, stoll}
use star_base.Common.{
  ℕ, zero, suc, ◌-◌, ◌%◌, Bool, false, not, ◌||◌, Option, none, some, [], ltb, ◌==◌, if◌then◌else◌,
  value_or, get_elem?, Bytes, codes,
}
use star_base.Common.Int.{ℤ, pos, negsuc}

-- `DbConfig`, and `DbConfig::from_env` over the environment.
pub record DbConfig : Type 0 where
  pub host : Bytes
  pub port : ℕ
  pub user : Bytes
  pub password : Bytes
  pub database : Bytes

-- `std::atoi`; what is out of range has no defined value, and is 0 here.
unfoldable pub atoi : Bytes → ℤ
unfolding stoi
atoi s = value_or (stoi s) (pos 0)

-- `static_cast<uint16_t>`.
uint16 : ℤ → ℕ
uint16 (pos n) = n % 65536
uint16 (negsuc n) = 65535 - n % 65536

port_of : Option Bytes → ℕ
unfolding uint16 atoi
port_of none = 3306
port_of (some v) = uint16 (atoi v)

pub from_env : (Bytes → Option Bytes) → DbConfig
unfolding port_of
from_env getenv = record {
  host = value_or (getenv (codes "SB_DB_HOST")) (codes "127.0.0.1");
  port = port_of (getenv (codes "SB_DB_PORT"));
  user = value_or (getenv (codes "SB_DB_USER")) (codes "starbase");
  password = value_or (getenv (codes "SB_DB_PASSWORD")) [];
  database = value_or (getenv (codes "SB_DB_NAME")) (codes "starbase");
}

pub retryable : Error → Bool
retryable (db_error what errno) = errno == 1213 || errno == 1205
retryable (runtime_error what) = false

-- A column of a row.
unfoldable pub cell : Row → ℕ → Option Bytes
cell r i = value_or (get_elem? r i) none

-- `static_cast<int>` of an id.
unfoldable pub int_of : ℕ → ℤ
int_of n = let m = n % 4294967296 in if ltb m 2147483648 then pos m else negsuc (4294967295 - m)

pub record RootRow : Type 0 where
  pub id : ℤ
  pub label : Bytes
  pub path : Bytes
  pub enabled : Bool
  pub writable : Bool
  pub case_sensitive : Bool
  pub watch_mode : Bytes
  pub scan_interval_s : ℤ
  pub settle_seconds : ℤ
  pub ignore_globs : Bytes
  pub fs_type : Bytes
  pub last_scan_status : Bytes
  pub last_scan_end : Bytes
  pub last_scan_error : Bytes
  pub file_count : ℤ

pub record RootFields : Type 0 where
  pub enabled : Option Bool
  pub writable : Option Bool
  pub case_sensitive : Option Bool
  pub watch_mode : Option Bytes
  pub scan_interval_s : Option ℤ
  pub settle_seconds : Option ℤ
  pub fs_type : Option Bytes
  pub ignore_globs : Option Bytes

unfoldable pub opt_str : Option Bytes → Bytes
opt_str p = value_or p []

int_cell : Option Bytes → ℤ
unfolding atoi
int_cell none = pos 0
int_cell (some s) = atoi s

long_cell : Option Bytes → ℤ
unfolding stoll
long_cell none = pos 0
long_cell (some s) = value_or (stoll s) (pos 0)

is_zero : ℤ → Bool
is_zero (pos n) = n == 0
is_zero (negsuc n) = false

flag_cell : Option Bytes → Bool
unfolding int_cell is_zero
flag_cell c = not (is_zero (int_cell c))

pub row_to_root : Row → RootRow
unfolding cell opt_str int_cell long_cell flag_cell
row_to_root row = record {
  id = int_cell (cell row 0);
  label = opt_str (cell row 1);
  path = opt_str (cell row 2);
  enabled = flag_cell (cell row 3);
  writable = flag_cell (cell row 4);
  case_sensitive = flag_cell (cell row 5);
  watch_mode = opt_str (cell row 6);
  scan_interval_s = int_cell (cell row 7);
  settle_seconds = int_cell (cell row 8);
  ignore_globs = opt_str (cell row 9);
  fs_type = opt_str (cell row 10);
  last_scan_status = opt_str (cell row 11);
  last_scan_end = opt_str (cell row 12);
  last_scan_error = opt_str (cell row 13);
  file_count = long_cell (cell row 14);
}
