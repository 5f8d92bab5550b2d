-- ===== src/Fs/Mounts/Examples.antt =====
-- Examples for util/fsinfo.cpp.
use star_base.Fs.Mounts.{
  unescape_mount_field, Best, detect_fs_type, supports_inotify, detect_case_sensitive,
}
use star_base.Fs.Mounts.Unescape.{mangle, unescape-mangle}
use star_base.Fs.Mounts.Longest.{entry, Readable, Wins, detect_fs_type-longest}
use star_base.Fs.Mounts.Case.{cased, detect-folding, detect-sensitive}
use star_base.Common.Lines.{lines}
use star_base.Common.{
  ℕ, ◌<◌, ◌≡◌, refl, sym, ap, inr, Bool, true, false, not, ◌||◌, some, List, [], ◌∷◌, ◌++◌, map,
  arith, ◌==◌, any, All, Bytes, codes, text_eq, text_eq→eq,
}
use star_base.Common.Ascii.{lower}

abbrev hidden : ℕ → Bool
hidden c = c == b' ' || (c == b'\\' || c == 10)

abbrev disk : Bytes
disk = codes "/a \\b"

disk-bytes : All (λ c. c < 256) disk
disk-bytes = ground arith

unescape-mangle_example : unescape_mount_field (mangle hidden disk) ≡ some disk
unescape-mangle_example = unescape-mangle hidden disk refl disk-bytes

abbrev table : Bytes
table =
    codes "/dev/sda1 / ext4 rw 0 0"
    ++ 10
      ∷ (codes "tank:/a /astro nfs4 rw 0 0"
          ++ 10 ∷ (codes "/dev/sdb1 /astro\\040x xfs rw 0 0" ++ 10 ∷ []))

table-Readable : All Readable (lines table)
unfolding Readable entry lines
table-Readable = (
  inr ((codes "/", codes "ext4"), refl),
  (inr ((codes "/astro", codes "nfs4"), refl), (inr ((codes "/astro x", codes "xfs"), refl), tt)),
)

detect_fs_type-longest_example :
    (best : Best) × (detect_fs_type (codes "/astro/lights") (some table) ≡ some best.best_type)
    × Wins
        (codes "/astro/lights")
        (map entry (lines table))
        (record { best_type = []; best_len = 0 })
        best
detect_fs_type-longest_example = detect_fs_type-longest (codes "/astro/lights") table table-Readable

nfs4_test : detect_fs_type (codes "/astro/lights") (some table) ≡ some (codes "nfs4")
unfolding detect_fs_type
nfs4_test = refl

-- A path that begins with the letters of a mount point is not below it.
component_test : detect_fs_type (codes "/astronomy") (some table) ≡ some (codes "ext4")
unfolding detect_fs_type
component_test = refl

inotify_test : (supports_inotify (codes "ext4") ≡ true) × (supports_inotify (codes "nfs4") ≡ false)
unfolding supports_inotify
inotify_test = (refl, refl)

abbrev names : List Bytes
names = codes "2026" ∷ codes "Lights" ∷ []

abbrev folds : Bytes → Bool
folds x = any (λ n. text_eq (lower n) (lower x)) names

detect-folding_example : detect_case_sensitive names folds ≡ not (any cased names)
unfolding text_eq lower
detect-folding_example = detect-folding names folds (
  (λ x e. ap (λ l. any (λ n. text_eq (lower n) l) names) e),
  ((λ x e. ap (λ l. any (λ n. text_eq (lower n) l) names) e), tt),
)

abbrev lights : List Bytes
lights = codes "Lights" ∷ []

detect-sensitive_example : detect_case_sensitive lights (text_eq (codes "Lights")) ≡ true
detect-sensitive_example =
    detect-sensitive lights (text_eq (codes "Lights"))
      ((λ x k e. sym (text_eq→eq (codes "Lights") x k)), tt)
