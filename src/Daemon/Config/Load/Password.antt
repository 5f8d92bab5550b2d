-- ===== src/Daemon/Config/Load/Password.antt =====
-- The database password in a configuration file.
use star_base.Daemon.Config.{Config, default_config, err, ok, split_at, set, bind-ok, ok-injective}
use star_base.Common.Lines.{lines, trim}
use star_base.Daemon.Config.Load.{
  State, header, entry, clean, read_clean, place_of, read_lines, validate, load,
}
use star_base.Common.{
  ℕ, suc, ◌≡◌, refl, sym, ap, ◌∙◌, inl, inr, true, false, Option, none, some, List, [], ◌∷◌, ◌++◌,
  arith, ◌==◌, if◌then◌else◌, Bool-cases, last?, pop_back, Bytes, codes,
}
use star_base.Common.Ascii.{lower}

-- The section that a clean line leaves in force.
section_clean : Bytes → Bytes → Bytes
unfolding trim
section_clean section [] = section
section_clean section (c ∷ s) = if c == b'[' then lower (trim (pop_back s)) else section

-- The section in force behind some lines.
unfoldable pub section_after : Bytes → List Bytes → Bytes
unfolding section_clean
section_after section [] = section
section_after section (l ∷ ls) = section_after (section_clean section (clean l)) ls

key_of : Option (Bytes × Bytes) → Option Bytes
unfolding trim
key_of none = none
key_of (some (key, val)) = some (lower (trim key))

-- The key of a line that is not a header.
key_clean : Bytes → Option Bytes
unfolding key_of split_at
key_clean [] = none
key_clean (c ∷ s) = if c == b'[' then none else key_of (split_at b'=' (c ∷ s))

unfoldable pub key_on : Bytes → Option Bytes
unfolding key_clean
key_on l = key_clean (clean l)

at_header :
    (st : State) (place : Bytes) (c : ℕ) (s : Bytes)
    → (c == b'[') ≡ true
    → read_clean st place (c ∷ s) ≡ header st place s (last? (c ∷ s))
unfolding read_clean
at_header st place c s e = rw e refl

at_entry :
    (st : State) (place : Bytes) (c : ℕ) (s : Bytes)
    → (c == b'[') ≡ false
    → read_clean st place (c ∷ s) ≡ entry st place (split_at b'=' (c ∷ s))
unfolding read_clean
at_entry st place c s e = rw e refl

set-password :
    (cfg : Config) (val place : Bytes)
    → set cfg (codes "database") (codes "password") val place
      ≡ err (
          place
          ++ codes
              ": the database password must not be stored in this file; set SB_DB_PASSWORD in the environment instead")
unfolding set
set-password cfg val place = refl

closed :
    (st : State) (place s : Bytes) (d : ℕ)
    → (d == b']') ≡ true
    → header st place s (some d) ≡ ok (lower (trim (pop_back s)), st.1)
unfolding header
closed (section, cfg) place s d e = rw e refl

not_closed :
    (st : State) (place s : Bytes) (d : ℕ)
    → (d == b']') ≡ false
    → header st place s (some d) ≡ err (place ++ codes ": malformed section header")
unfolding header
not_closed (section, cfg) place s d e = rw e refl

header-section :
    (st st' : State) (place s : Bytes) (o : Option ℕ)
    → header st place s o ≡ ok st'
    → st'.0 ≡ lower (trim (pop_back s))
unfolding header
header-section st st' place s none h = absurd (cc h)
header-section st st' place s (some d) h = elim (Bool-cases (d == b']')) [
  | inl e ↦
      ap (λ (x : State). x.0)
        (ok-injective st' (lower (trim (pop_back s)), st.1) (sym h ∙ closed st place s d e))
  | inr e ↦ absurd (cc (h, not_closed st place s d e))
]

entry-section :
    (st st' : State) (place : Bytes) (o : Option (Bytes × Bytes))
    → entry st place o ≡ ok st'
    → st'.0 ≡ st.0
unfolding entry
entry-section st st' place none h = absurd (cc h)
entry-section (section, cfg) st' place (some (key, val)) h =
    let (cfg', e, q) =
      bind-ok (set cfg section (lower (trim key)) (trim val) place) (λ cfg'. ok (section, cfg')) st'
        h in
    ap (λ (x : State). x.0) (sym (ok-injective (section, cfg') st' q))

read_clean-section :
    (st st' : State) (place l : Bytes)
    → read_clean st place l ≡ ok st'
    → st'.0 ≡ section_clean st.0 l
unfolding read_clean section_clean
read_clean-section st st' place [] h = ap (λ (x : State). x.0) (sym (ok-injective st st' h))
read_clean-section st st' place (c ∷ s) h = elim (Bool-cases (c == b'[')) [
  | inl e ↦
      rw (e, section_clean)
        (header-section st st' place s (last? (c ∷ s)) (sym (at_header st place c s e) ∙ h))
  | inr e ↦
      rw (e, section_clean)
        (entry-section st st' place (split_at b'=' (c ∷ s)) (sym (at_entry st place c s e) ∙ h))
]

refused_entry :
    (st st' : State) (place : Bytes) (o : Option (Bytes × Bytes))
    → st.0 ≡ codes "database"
    → key_of o ≡ some (codes "password")
    → ¬ (entry st place o ≡ ok st')
unfolding entry key_of
refused_entry st st' place none e k h = absurd (cc k)
refused_entry (section, cfg) st' place (some (key, val)) e k h =
    let (cfg', q, r) =
      bind-ok (set cfg section (lower (trim key)) (trim val) place) (λ cfg'. ok (section, cfg')) st'
        h in
    absurd (cc (set-password cfg (trim val) place, q, e, k))

refused_line :
    (st st' : State) (place l : Bytes)
    → st.0 ≡ codes "database"
    → key_clean l ≡ some (codes "password")
    → ¬ (read_clean st place l ≡ ok st')
unfolding key_clean read_clean
refused_line st st' place [] e k h = absurd (cc k)
refused_line st st' place (c ∷ s) e k h = elim (Bool-cases (c == b'[')) [
  | inl q ↦ absurd (ground (arith, q, k))
  | inr q ↦
      refused_entry st st' place (split_at b'=' (c ∷ s)) e (ground (arith, q, k))
        (sym (at_entry st place c s q) ∙ h)
]

refused_lines :
    (path : Bytes) (n : ℕ) (st st' : State) (pre : List Bytes) (l : Bytes) (post : List Bytes)
    → section_after st.0 pre ≡ codes "database"
    → key_on l ≡ some (codes "password")
    → ¬ (read_lines path n st (pre ++ l ∷ post) ≡ ok st')
unfolding read_lines section_after key_on
refused_lines path n st st' [] l post e k h =
    let (st1, q, r) =
      bind-ok (read_clean st (place_of path (suc n)) (clean l))
        (λ s. read_lines path (suc n) s post) st' h in
    refused_line st st1 (place_of path (suc n)) (clean l) e k q
refused_lines path n st st' (x ∷ pre) l post e k h =
    let (st1, q, r) =
      bind-ok (read_clean st (place_of path (suc n)) (clean x))
        (λ s. read_lines path (suc n) s (pre ++ l ∷ post)) st' h in
    refused_lines path (suc n) st1 st' pre l post
      (ap (λ sec. section_after sec pre)
          (read_clean-section st st1 (place_of path (suc n)) (clean x) q)
        ∙ e)
      k r

-- No file is loaded in which a line of a [database] section sets a password: wherever the line stands, and
-- whatever spelling of the section, the key and the comments the file uses.
pub load-password :
    (path text : Bytes) (pre : List Bytes) (l : Bytes) (post : List Bytes) (cfg : Config)
    → lines text ≡ pre ++ l ∷ post
    → section_after [] pre ≡ codes "database"
    → key_on l ≡ some (codes "password")
    → ¬ (load path (some text) ≡ ok cfg)
unfolding load
load-password path text pre l post cfg e s k h =
    let (st, q, r) =
      bind-ok (read_lines path 0 ([], default_config) (lines text))
        (λ (st : State). validate path st.1) cfg h in
    refused_lines path 0 ([], default_config) st pre l post s k
      (ap (read_lines path 0 ([], default_config)) (sym e) ∙ q)
