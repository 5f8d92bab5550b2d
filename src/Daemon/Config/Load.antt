-- ===== src/Daemon/Config/Load.antt =====
-- The loop of `Config::load` and the checks behind it.
pub mod Checked
pub mod Password
use star_base.Daemon.Config.{
  Config, default_config, Result, err, ok, ◌>>=◌, strip_comment, split_at, set,
}
use star_base.Common.Lines.{lines, trim}
use star_base.Common.{
  ℕ, suc, sym, ap, Bool, true, false, not, ◌&&◌, ◌||◌, Option, none, some, List, [], ◌∷◌, ◌++◌, leb,
  ◌==◌, if◌then◌else◌, last?, pop_back, Bytes, codes, text_eq,
}
use star_base.Common.Ascii.{lower}
use star_base.Common.Decimal.{decimal}
use star_base.Common.Int.{ℤ, pos, negsuc}

-- The section and the configuration so far.
abbrev pub State : Type 0
State = Bytes × Config

-- Behind the bracket of a section header, by the line's last byte.
header : State → Bytes → Bytes → Option ℕ → Result State
unfolding trim
header st place s none = err (place ++ codes ": malformed section header")
header (section, cfg) place s (some d) =
    if not (d == b']')
    then err (place ++ codes ": malformed section header")
    else ok (lower (trim (pop_back s)), cfg)

-- Both sides of the first `=`.
entry : State → Bytes → Option (Bytes × Bytes) → Result State
unfolding trim
entry st place none = err (place ++ codes ": expected 'key = value'")
entry (section, cfg) place (some (key, val)) = do
  cfg' ← set cfg section (lower (trim key)) (trim val) place
  ok (section, cfg')

-- A line without its comment and its blanks.
unfoldable pub clean : Bytes → Bytes
unfolding strip_comment trim
clean line = trim (strip_comment line)

-- A line that is clean.
read_clean : State → Bytes → Bytes → Result State
unfolding header entry split_at
read_clean st place [] = ok st
read_clean st place (c ∷ s) =
    if c == b'[' then header st place s (last? (c ∷ s)) else entry st place (split_at b'=' (c ∷ s))

place_of : Bytes → ℕ → Bytes
place_of path n = path ++ b':' ∷ decimal n

-- The lines behind the first `n`.
read_lines : Bytes → ℕ → State → List Bytes → Result State
unfolding place_of
read_lines path n st [] = ok st
read_lines path n st (l ∷ ls) = do
  st' ← read_clean st (place_of path (suc n)) (clean l)
  read_lines path (suc n) st' ls

pub is_mode : Bytes → Bool
unfolding text_eq
is_mode m =
    text_eq m (codes "symlink") || (text_eq m (codes "hardlink") || text_eq m (codes "copy"))

pub is_port : ℤ → Bool
is_port (pos n) = leb 1 n && leb n 65535
is_port (negsuc n) = false

pub is_count : ℤ → Bool
is_count (pos n) = true
is_count (negsuc n) = false

validate : Bytes → Config → Result Config
unfolding is_mode is_port is_count
validate path cfg =
    if not (is_mode cfg.link_mode)
    then err (path ++ codes ": [actions] link_mode must be symlink, hardlink, or copy")
    else if not (is_port cfg.api_port)
    then err (path ++ codes ": [api] port out of range")
    else if not (is_count cfg.scanner_threads)
    then err (path ++ codes ": [scanner] threads must be >= 0")
    else ok cfg

-- The file's path and its text.
unfoldable pub load : Bytes → Option Bytes → Result Config
unfolding lines read_lines read_clean validate place_of
load path none = err (codes "cannot open config file: " ++ path)
load path (some text) = do
  st ← read_lines path 0 ([], default_config) (lines text)
  validate path st.1
