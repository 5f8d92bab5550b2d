-- ===== src/Daemon/Config/Examples.antt =====
-- Runs of src/daemon/config.cpp.
use star_base.Daemon.Config.{Config, default_config, set, to_int, to_bool, Result, err, ok}
use star_base.Daemon.Config.Load.{load, clean}
use star_base.Daemon.Config.Load.Checked.{IsChecked, load-IsChecked}
use star_base.Daemon.Config.Load.Password.{section_after, key_on, load-password}
use star_base.Common.Lines.{lines}
use star_base.Common.{◌≡◌, refl, true, some, [], ◌∷◌, ◌++◌, Bytes, codes, concat}
use star_base.Common.Ascii.{lower}
use star_base.Common.Int.{ℤ, pos, negsuc}

abbrev newline : Bytes
newline = 10 ∷ []

abbrev api_file : Bytes
api_file = concat (
    codes "# comment"
    ∷ newline
    ∷ codes "[API]"
    ∷ newline
    ∷ codes "port = 9000 ; http"
    ∷ newline
    ∷ codes "tls=Yes"
    ∷ newline
    ∷ [])

abbrev port_of : Result Config → ℤ
port_of (err what) = negsuc 0
port_of (ok cfg) = cfg.api_port

port_test : port_of (load (codes "sb.conf") (some api_file)) ≡ pos 9000
unfolding load lower clean set to_int to_bool default_config
port_test = refl

abbrev with_port : Config
unfolding default_config
with_port = record default_config { api_port = pos 9000; api_tls = true }

loads : load (codes "sb.conf") (some api_file) ≡ ok with_port
unfolding load lower clean set to_int to_bool default_config
loads = refl

load-IsChecked_example : IsChecked with_port
load-IsChecked_example = load-IsChecked (codes "sb.conf") (some api_file) with_port loads

abbrev secret_file : Bytes
secret_file = concat (codes " [ DataBase ] # main" ∷ newline ∷ codes "Password = x" ∷ newline ∷ [])

secret_lines : lines secret_file ≡ (codes " [ DataBase ] # main" ∷ []) ++ codes "Password = x" ∷ []
unfolding lines
secret_lines = refl

secret_section : section_after [] (codes " [ DataBase ] # main" ∷ []) ≡ codes "database"
unfolding section_after clean lower
secret_section = refl

secret_key : key_on (codes "Password = x") ≡ some (codes "password")
unfolding key_on clean lower
secret_key = refl

load-password_example : ¬ (load (codes "sb.conf") (some secret_file) ≡ ok with_port)
load-password_example =
    load-password (codes "sb.conf") secret_file (codes " [ DataBase ] # main" ∷ [])
      (codes "Password = x") [] with_port secret_lines secret_section secret_key
