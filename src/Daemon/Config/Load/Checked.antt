-- ===== src/Daemon/Config/Load/Checked.antt =====
-- What the checks at the end of `Config::load` ensure.
use star_base.Daemon.Config.{Config, default_config, Result, err, ok, ◌>>=◌, ok-injective}
use star_base.Common.Lines.{lines}
use star_base.Daemon.Config.Load.{State, read_lines, is_mode, is_port, is_count, validate, load}
use star_base.Common.{
  ℕ, ◌≤◌, ◌≡◌, refl, sym, ◌∙◌, subst, ◌⊎◌, inl, inr, true, Option, none, some, [], arith,
  Bool-cases, Bytes, codes, text_eq, text_eq→eq,
}
use star_base.Common.Int.{ℤ, pos, negsuc}

-- The values that the rest of the daemon relies on.
pub record IsChecked (cfg : Config) : Type 0 where
  pub known_mode :
      (cfg.link_mode ≡ codes "symlink")
      ⊎ ((cfg.link_mode ≡ codes "hardlink") ⊎ (cfg.link_mode ≡ codes "copy"))
  pub port_in_range : (port : ℕ) × (cfg.api_port ≡ pos port) × (1 ≤ port) × (port ≤ 65535)
  pub threads_counted : (threads : ℕ) × (cfg.scanner_threads ≡ pos threads)

mode-named :
    (m : Bytes)
    → is_mode m ≡ true
    → (m ≡ codes "symlink") ⊎ ((m ≡ codes "hardlink") ⊎ (m ≡ codes "copy"))
unfolding is_mode
mode-named m h = elim (Bool-cases (text_eq m (codes "symlink"))) [
  | inl e ↦ inl (text_eq→eq m (codes "symlink") e)
  | inr e ↦ elim (Bool-cases (text_eq m (codes "hardlink"))) [
    | inl k ↦ inr (inl (text_eq→eq m (codes "hardlink") k))
    | inr k ↦ inr (inr (text_eq→eq m (codes "copy") (ground (arith, e, k, h))))
  ]
]

port-in_range :
    (n : ℤ) → is_port n ≡ true → (port : ℕ) × (n ≡ pos port) × (1 ≤ port) × (port ≤ 65535)
unfolding is_port
port-in_range (pos n) h = (n, refl, ground (arith, h), ground (arith, h))
port-in_range (negsuc n) h = absurd (cc h)

count-natural : (n : ℤ) → is_count n ≡ true → (threads : ℕ) × (n ≡ pos threads)
unfolding is_count
count-natural (pos n) h = (n, refl)
count-natural (negsuc n) h = absurd (cc h)

accepted :
    (path : Bytes) (cfg : Config)
    → is_mode cfg.link_mode ≡ true
    → is_port cfg.api_port ≡ true
    → is_count cfg.scanner_threads ≡ true
    → validate path cfg ≡ ok cfg
unfolding validate
accepted path cfg e k m = rw (e, k, m) refl

validate-IsChecked : (path : Bytes) (cfg out : Config) → validate path cfg ≡ ok out → IsChecked out
unfolding validate
validate-IsChecked path cfg out h = elim (Bool-cases (is_mode cfg.link_mode)) [
  | inr e ↦ absurd (ground (arith, e, h))
  | inl e ↦ elim (Bool-cases (is_port cfg.api_port)) [
    | inr k ↦ absurd (ground (arith, e, k, h))
    | inl k ↦ elim (Bool-cases (is_count cfg.scanner_threads)) [
      | inr m ↦ absurd (ground (arith, e, k, m, h))
      | inl m ↦ subst IsChecked (ok-injective cfg out (sym (accepted path cfg e k m) ∙ h)) (record {
        known_mode = mode-named cfg.link_mode e;
        port_in_range = port-in_range cfg.api_port k;
        threads_counted = count-natural cfg.scanner_threads m;
      })
    ]
  ]
]

validated :
    (path : Bytes) (r : Result State) (out : Config)
    → (do st ← r; validate path st.1) ≡ ok out
    → IsChecked out
validated path (err what) out h = absurd (cc h)
validated path (ok st) out h = validate-IsChecked path st.1 out h

-- A configuration that is loaded has a known link mode, a port from 1 to 65535 and no negative number of
-- threads, whatever the file holds.
pub load-IsChecked :
    (path : Bytes) (text : Option Bytes) (cfg : Config) → load path text ≡ ok cfg → IsChecked cfg
unfolding load
load-IsChecked path none cfg h = absurd (cc h)
load-IsChecked path (some text) cfg h =
    validated path (read_lines path 0 ([], default_config) (lines text)) cfg h
