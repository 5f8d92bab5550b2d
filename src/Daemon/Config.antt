-- ===== src/Daemon/Config.antt =====
-- src/daemon/config.cpp: the configuration file. The text of the file is an argument; `none` stands for
-- a file that cannot be opened.
pub mod Load
pub mod Examples
use star_base.Common.Stoi.{stoi_whole}
use star_base.Common.{
  ℕ, ◌*◌, ◌≡◌, refl, sym, ap, Bool, true, false, not, ◌||◌, Option, none, some, List, [], ◌∷◌, ◌++◌,
  ◌==◌, if◌then◌else◌, any, Bytes, codes, concat, text_eq, has_byte,
}
use star_base.Common.Ascii.{lower}
use star_base.Common.Int.{ℤ, pos}

pub record Config : Type 0 where
  pub log_level : Bytes
  pub db_host : Bytes
  pub db_port : ℤ
  pub db_name : Bytes
  pub db_user : Bytes
  pub api_bind : Bytes
  pub api_port : ℤ
  pub api_tls : Bool
  pub api_tls_cert : Bytes
  pub api_tls_key : Bytes
  pub schema_file : Bytes
  pub seed_file : Bytes
  pub web_root : Bytes
  pub scanner_threads : ℤ
  pub scanner_queue_depth : ℤ
  pub default_scan_interval_s : ℤ
  pub default_settle_seconds : ℤ
  pub scan_scheduler : Bool
  pub default_ignore_globs : Bytes
  pub staging_root : Bytes
  pub trash_root : Bytes
  pub link_mode : Bytes
  pub sesame_enabled : Bool
  pub sesame_url : Bytes
  pub pixinsight_binary : Bytes
  pub wbpp_script : Bytes

-- The default member values.
unfoldable pub default_config : Config
default_config = record {
  log_level = codes "info";
  db_host = codes "127.0.0.1";
  db_port = pos 3306;
  db_name = codes "starbase";
  db_user = codes "starbase";
  api_bind = codes "127.0.0.1";
  api_port = pos 8642;
  api_tls = false;
  api_tls_cert = [];
  api_tls_key = [];
  schema_file = [];
  seed_file = [];
  web_root = [];
  scanner_threads = pos 0;
  scanner_queue_depth = pos 4096;
  default_scan_interval_s = pos 3600;
  default_settle_seconds = pos 30;
  scan_scheduler = true;
  default_ignore_globs =
      codes
        "_gsdata_,*.tmp,*.part,*.partial,Thumbs.db,desktop.ini,System Volume Information,$RECYCLE.BIN,.DS_Store,._*,.zfs";
  staging_root = codes "/var/lib/starbase/staging";
  trash_root = codes "/var/lib/starbase/trash";
  link_mode = codes "symlink";
  sesame_enabled = false;
  sesame_url = codes "https://cds.unistra.fr";
  pixinsight_binary = codes "/opt/PixInsight/bin/PixInsight.sh";
  wbpp_script = codes "/opt/PixInsight/src/scripts/BatchPreprocessing/WBPP.js";
}

-- A `std::runtime_error` with its text.
pub data Result {ℓ} (A : Type ℓ) : Type ℓ where
  err : Bytes → Result A
  ok : A → Result A

infixl 5 ◌>>=◌
abbrev pub ◌>>=◌ {ℓ κ} : {A : Type ℓ} {B : Type κ} → Result A → (A → Result B) → Result B
err what >>= f = err what
ok a >>= f = f a

pub ok-injective {ℓ} : {A : Type ℓ} (a b : A) → ok a ≡ ok b → a ≡ b
ok-injective a b h = cc h

-- A chain that succeeds succeeded at its first part.
pub bind-ok {ℓ κ} :
    {A : Type ℓ} {B : Type κ} (m : Result A) (f : A → Result B) (b : B)
    → (m >>= f) ≡ ok b
    → (a : A) × (m ≡ ok a) × (f a ≡ ok b)
bind-ok (err what) f b h = absurd (cc h)
bind-ok (ok a) f b h = (a, refl, h)

is_any : List Bytes → Bytes → Bool
unfolding text_eq
is_any names s = any (text_eq s) names

unfoldable pub to_bool : Bytes → Bytes → Result Bool
unfolding is_any
to_bool v place =
    let s = lower v in
    if is_any (codes "on" ∷ codes "true" ∷ codes "yes" ∷ codes "1" ∷ []) s
    then ok true
    else if is_any (codes "off" ∷ codes "false" ∷ codes "no" ∷ codes "0" ∷ []) s
    then ok false
    else err (concat (place ∷ codes ": expected a boolean, got '" ∷ v ∷ codes "'" ∷ []))

unfoldable pub to_int : Bytes → Bytes → Result ℤ
unfolding stoi_whole
to_int v place = elim (stoi_whole v) [
  | some n ↦ ok n
  | none ↦ err (concat (place ∷ codes ": expected an integer, got '" ∷ v ∷ codes "'" ∷ []))
]

-- The text in front of the first `#` or `;`.
unfoldable pub strip_comment : Bytes → Bytes
strip_comment [] = []
strip_comment (c ∷ s) =
    let rest = c ∷ strip_comment s in if c == b'#' || c == b';' then [] else rest

put_front : ℕ → Option (Bytes × Bytes) → Option (Bytes × Bytes)
put_front c none = none
put_front c (some (a, b)) = some (c ∷ a, b)

-- The texts on both sides of the first byte `d`.
unfoldable pub split_at : ℕ → Bytes → Option (Bytes × Bytes)
unfolding put_front
split_at d [] = none
split_at d (c ∷ s) = let rest = put_front c (split_at d s) in if c == d then some ([], s) else rest

set_daemon : Config → Bytes → Bytes → Config
unfolding text_eq
set_daemon cfg key val =
    if text_eq key (codes "log_level") then record cfg { log_level = lower val } else cfg

-- The port behind the only colon of a host.
split_host : Bytes → Option (Bytes × Bytes)
unfolding split_at has_byte
split_host val = elim (split_at b':' val) [
  | none ↦ none
  | some (host, port) ↦ if has_byte b':' port then none else some (host, port)
]

set_host : Config → Bytes → Bytes → Result Config
unfolding split_host
set_host cfg val place = elim (split_host val) [
  | none ↦ ok (record cfg { db_host = val })
  | some (host, port) ↦ do n ← to_int port place; ok (record cfg { db_host = host; db_port = n })
]

set_database : Config → Bytes → Bytes → Bytes → Result Config
unfolding text_eq
set_database cfg key val place =
    if text_eq key (codes "host")
    then set_host cfg val place
    else if text_eq key (codes "port")
    then (do n ← to_int val place; ok (record cfg { db_port = n }))
    else if text_eq key (codes "name")
    then ok (record cfg { db_name = val })
    else if text_eq key (codes "user")
    then ok (record cfg { db_user = val })
    else if text_eq key (codes "password")
    then err (
        place
        ++ codes
            ": the database password must not be stored in this file; set SB_DB_PASSWORD in the environment instead")
    else ok cfg

set_api : Config → Bytes → Bytes → Bytes → Result Config
unfolding text_eq
set_api cfg key val place =
    if text_eq key (codes "bind")
    then ok (record cfg { api_bind = val })
    else if text_eq key (codes "port")
    then (do n ← to_int val place; ok (record cfg { api_port = n }))
    else if text_eq key (codes "tls")
    then (do b ← to_bool val place; ok (record cfg { api_tls = b }))
    else if text_eq key (codes "tls_cert")
    then ok (record cfg { api_tls_cert = val })
    else if text_eq key (codes "tls_key")
    then ok (record cfg { api_tls_key = val })
    else if text_eq key (codes "schema_file")
    then ok (record cfg { schema_file = val })
    else if text_eq key (codes "seed_file")
    then ok (record cfg { seed_file = val })
    else if text_eq key (codes "web_root")
    then ok (record cfg { web_root = val })
    else ok cfg

set_scanner : Config → Bytes → Bytes → Bytes → Result Config
unfolding text_eq
set_scanner cfg key val place =
    if text_eq key (codes "threads")
    then (do n ← to_int val place; ok (record cfg { scanner_threads = n }))
    else if text_eq key (codes "queue_depth")
    then (do n ← to_int val place; ok (record cfg { scanner_queue_depth = n }))
    else if text_eq key (codes "default_scan_interval_s")
    then (do n ← to_int val place; ok (record cfg { default_scan_interval_s = n }))
    else if text_eq key (codes "scan_scheduler")
    then (do b ← to_bool val place; ok (record cfg { scan_scheduler = b }))
    else if text_eq key (codes "default_settle_seconds")
    then (do n ← to_int val place; ok (record cfg { default_settle_seconds = n }))
    else if text_eq key (codes "default_ignore_globs")
    then ok (record cfg { default_ignore_globs = val })
    else ok cfg

set_actions : Config → Bytes → Bytes → Config
unfolding text_eq
set_actions cfg key val =
    if text_eq key (codes "staging_root")
    then record cfg { staging_root = val }
    else if text_eq key (codes "trash_root")
    then record cfg { trash_root = val }
    else if text_eq key (codes "link_mode")
    then record cfg { link_mode = lower val }
    else cfg

set_pixinsight : Config → Bytes → Bytes → Config
unfolding text_eq
set_pixinsight cfg key val =
    if text_eq key (codes "binary")
    then record cfg { pixinsight_binary = val }
    else if text_eq key (codes "wbpp_script")
    then record cfg { wbpp_script = val }
    else cfg

set_names : Config → Bytes → Bytes → Config
unfolding text_eq
set_names cfg key val =
    if text_eq key (codes "sesame_enabled")
    then record cfg {
      sesame_enabled =
          text_eq (lower val) (codes "on")
          || (text_eq (lower val) (codes "true") || text_eq val (codes "1"));
    }
    else if text_eq key (codes "sesame_url")
    then record cfg { sesame_url = val }
    else cfg

-- `key = value` in a section; what is not known is ignored.
unfoldable pub set : Config → Bytes → Bytes → Bytes → Bytes → Result Config
unfolding text_eq set_daemon set_host set_database set_api set_scanner set_actions set_pixinsight
    set_names
set cfg section key val place =
    if text_eq section (codes "daemon")
    then ok (set_daemon cfg key val)
    else if text_eq section (codes "database")
    then set_database cfg key val place
    else if text_eq section (codes "api")
    then set_api cfg key val place
    else if text_eq section (codes "scanner")
    then set_scanner cfg key val place
    else if text_eq section (codes "actions")
    then ok (set_actions cfg key val)
    else if text_eq section (codes "pixinsight")
    then ok (set_pixinsight cfg key val)
    else if text_eq section (codes "names")
    then ok (set_names cfg key val)
    else ok cfg
