-- ===== src/Pix/Wbpp.antt =====
-- src/pix/wbpp.cpp: the WBPP command line and launcher rendered from a staging tree and a profile.
pub mod Shell
pub mod Params
pub mod Examples
use star_base.Common.{
  ℕ, ◌-◌, ap, Bool, true, false, not, ◌&&◌, ◌||◌, none, List, [], ◌∷◌, ◌++◌, map, ◌==◌,
  if◌then◌else◌, length, is_empty, Bytes, codes, concat, contains, has_byte,
}
use star_base.Common.Decimal.{decimal}
use star_base.Common.Int.{ℤ, pos, decimal_int}

pub record WbppProfile : Type 0 where
  pub pixinsight_sh : Bytes
  pub wbpp_script : Bytes
  pub output_dir : Bytes
  pub keywords : Bytes
  pub grouping_enabled : Bool
  pub fits_convention : ℤ
  pub extra_params : List Bytes

-- The profile with the initializers of wbpp.hpp.
abbrev pub default_profile : WbppProfile
default_profile = record {
  pixinsight_sh = codes "/opt/PixInsight/bin/PixInsight.sh";
  wbpp_script = codes "/opt/PixInsight/src/scripts/BatchPreprocessing/WBPP.js";
  output_dir = [];
  keywords = codes "FILTER prepost";
  grouping_enabled = true;
  fits_convention = pos 1;
  extra_params = [];
}

pub record WbppPlan : Type 0 where
  pub staging_root : Bytes
  pub output_dir : Bytes
  pub mode : Bytes
  pub dirs : List Bytes
  pub params : List Bytes
  pub command : Bytes
  pub launcher : Bytes
  pub warnings : List Bytes

-- One character of `sh_squote`'s loop.
squote_byte : ℕ → Bytes
squote_byte c = if c == b'\'' then codes "'\\''" else c ∷ []

squote_body : Bytes → Bytes
unfolding squote_byte
squote_body [] = []
squote_body (c ∷ s) = squote_byte c ++ squote_body s

-- Single-quote for a POSIX shell.
pub sh_squote : Bytes → Bytes
unfolding squote_body
sh_squote s = b'\'' ∷ (squote_body s ++ b'\'' ∷ [])

-- WBPP splits its argument list on these.
pub has_delimiter : Bytes → Bool
unfolding has_byte
has_delimiter s = has_byte b',' s || has_byte b'=' s

-- The staged directories, in the order of the image types.
staged : Bytes → List Bytes → List Bytes
staged job_root types = map (λ t. job_root ++ b'/' ∷ t) types

dir_warnings : List Bytes → List Bytes
unfolding has_delimiter
dir_warnings [] = []
dir_warnings (d ∷ ds) =
    (if has_delimiter d
      then (codes "staging path contains ',' or '=' which WBPP cannot parse: " ++ d) ∷ []
      else [])
    ++ dir_warnings ds

output_params : WbppProfile → List Bytes
output_params p =
    if is_empty p.output_dir then [] else (codes "outputDirectory=" ++ p.output_dir) ∷ []

output_warnings : WbppProfile → List Bytes
unfolding has_delimiter
output_warnings p =
    if is_empty p.output_dir
    then []
    else if has_delimiter p.output_dir
    then (codes "output directory contains ',' or '=' which WBPP cannot parse: " ++ p.output_dir)
      ∷ []
    else []

keyword_params : WbppProfile → List Bytes
keyword_params p =
    if p.grouping_enabled && not (is_empty p.keywords)
    then (codes "keywords=" ++ p.keywords) ∷ []
    else []

nonempty : List Bytes → List Bytes
nonempty [] = []
nonempty (x ∷ xs) = if is_empty x then nonempty xs else x ∷ nonempty xs

-- The `-r` tokens in the order in which WBPP reads them.
pub params_of : List Bytes → WbppProfile → Bool → List Bytes
params_of dirs p load_only =
    p.wbpp_script
    ∷ codes "automationMode=true"
    ∷ (map (λ d. codes "dir=" ++ d) dirs
        ++ (output_params p
            ++ (codes "groupingKeywordsEnabled="
                ++ (if p.grouping_enabled then codes "true" else codes "false"))
              ∷ (keyword_params p
                  ++ (codes "fitsCoordinateConvention=" ++ decimal_int p.fits_convention)
                    ∷ (nonempty p.extra_params
                        ++ (if load_only then codes "loadOnly" ∷ [] else [])))))

-- The tokens joined by commas.
pub join_params : List Bytes → Bytes
join_params [] = []
join_params (x ∷ []) = x
join_params (x ∷ y ∷ xs) = x ++ b',' ∷ join_params (y ∷ xs)

pub command_of : List Bytes → WbppProfile → Bool → Bytes
unfolding sh_squote join_params
command_of params p load_only = concat (
    p.pixinsight_sh
    ∷ codes " -n --automation-mode "
    ∷ codes "-r="
    ∷ sh_squote (join_params params)
    ∷ (if load_only then [] else codes " --force-exit")
    ∷ [])

launcher_of : Bytes → Bytes → ℕ → Bytes → Bytes
unfolding sh_squote decimal
launcher_of mode output_dir dirs command = concat (
    codes "#!/usr/bin/env bash\n"
    ∷ codes "# Generated by StarBase - PixInsight WBPP handoff ("
    ∷ mode
    ∷ codes " mode).\n"
    ∷ codes "# Run this from your desktop session; starbased has no display of its own.\n"
    ∷ codes "set -euo pipefail\n\n"
    ∷ (if is_empty output_dir
        then []
        else codes "mkdir -p " ++ (sh_squote output_dir ++ codes "\n\n"))
    ∷ codes "echo 'Handing "
    ∷ decimal dirs
    ∷ codes " staged frame set(s) to WBPP ("
    ∷ mode
    ∷ codes ")...'\n"
    ∷ codes "exec "
    ∷ command
    ∷ codes "\n"
    ∷ [])

pub render : Bytes → List Bytes → WbppProfile → Bool → WbppPlan
unfolding staged dir_warnings output_warnings params_of output_params keyword_params nonempty
    decimal_int command_of launcher_of
render job_root image_types profile load_only =
    let dirs = staged job_root image_types in
    let mode = if load_only then codes "loadOnly" else codes "automation" in
    let params = params_of dirs profile load_only in
    let command = command_of params profile load_only in
    record {
      staging_root = job_root;
      output_dir = profile.output_dir;
      mode = mode;
      dirs = dirs;
      params = params;
      command = command;
      launcher = launcher_of mode profile.output_dir (length dirs) command;
      warnings =
          dir_warnings dirs
          ++ (output_warnings profile
              ++ (if is_empty image_types
                  then codes "no image-type subdirectories: nothing to hand off" ∷ []
                  else []));
    }
