-- ===== src/Fs/Mounts.antt =====
-- src/util/fsinfo.cpp: mount points and file system types. Reading /proc/mounts and resolving the path
-- are the system's: the text of the table and the resolved path are arguments.
pub mod Unescape
pub mod Longest
pub mod Case
pub mod Examples
use star_base.Common.Lines.{lines, words}
use star_base.Common.{
  ℕ, ◌+◌, ◌-◌, ◌*◌, ◌%◌, ap, Bool, true, false, not, ◌&&◌, ◌||◌, Option, none, some, List, [], ◌∷◌,
  leb, ◌==◌, if◌then◌else◌, ◌>>=◌, length, is_empty, drop, any, Bytes, codes, text_eq, starts_with,
}
use star_base.Common.Ascii.{is_digit, is_upper, is_lower, to_lower, to_upper, lower}

is_octal : ℕ → Bool
is_octal c = leb b'0' c && leb c b'7'

-- `std::stoi(s, nullptr, 8)` behind the first digits, which have the value `n`.
octal_from : ℕ → Bytes → ℕ
octal_from n [] = n
octal_from n (c ∷ s) =
    let rest = octal_from (8 * n + (c - b'0')) s in if is_octal c then rest else n

-- `std::stoi` of a text that begins with a digit; `none` where it throws, at an 8 or a 9.
octal : Bytes → Option ℕ
unfolding octal_from is_octal
octal [] = none
octal (c ∷ s) = if is_octal c then some (octal_from (c - b'0') s) else none

-- One byte in front of what is read behind it.
before : Option ℕ → Option Bytes → Option Bytes
before c s = do b ← c; r ← s; some (b ∷ r)

-- `static_cast<char>` of an escape's value.
octal_byte : Bytes → Option ℕ
unfolding octal
octal_byte s = do n ← octal s; some (n % 256)

-- The octal escapes of /proc/mounts; `none` where the code throws.
pub unescape_mount_field : Bytes → Option Bytes
unfolding before octal_byte is_digit
unescape_mount_field (c ∷ d ∷ e ∷ f ∷ s) = elim (c == b'\\' && is_digit d) [
  | true ↦ before (octal_byte (d ∷ e ∷ f ∷ [])) (unescape_mount_field s)
  | false ↦ before (some c) (unescape_mount_field (d ∷ e ∷ f ∷ s))
]
unescape_mount_field (c ∷ d ∷ e ∷ []) = some (c ∷ d ∷ e ∷ [])
unescape_mount_field (c ∷ d ∷ []) = some (c ∷ d ∷ [])
unescape_mount_field (c ∷ []) = some (c ∷ [])
unescape_mount_field [] = some []

at_slash : Bytes → Bool
at_slash [] = false
at_slash (c ∷ s) = c == b'/'

-- The mount point is the target or one of its parent directories.
pub covers : Bytes → Bytes → Bool
unfolding starts_with text_eq at_slash
covers target mount_point =
    starts_with mount_point target
    && (length target == length mount_point
        || (text_eq mount_point (codes "/") || at_slash (drop (length mount_point) target)))

-- The best type so far and the length of its mount point.
pub record Best : Type 0 where
  pub best_type : Bytes
  pub best_len : ℕ

pub consider : Bytes → Bytes → Bytes → Best → Best
consider target mount_point type best =
    if covers target mount_point && leb best.best_len (length mount_point)
    then record { best_type = type; best_len = length mount_point }
    else best

three : List Bytes → Option (Bytes × Bytes)
three (dev ∷ mount_point ∷ type ∷ more) = some (mount_point, type)
three few = none

-- The device, the mount point and the type of a line, where it has them.
pub fields_of : Bytes → Option (Bytes × Bytes)
unfolding words three
fields_of line = three (words line)

-- The loop over the lines.
pub scan_mounts : Bytes → List Bytes → Best → Option Best
scan_mounts target [] best = some best
scan_mounts target (l ∷ ls) best = elim (fields_of l) [
  | none ↦ scan_mounts target ls best
  | some (raw, type) ↦ do
    mount_point ← unescape_mount_field raw
    scan_mounts target ls (consider target mount_point type best)
]

-- The type of the file system that holds the target; empty where the table cannot be read, and `none`
-- where the code throws.
pub detect_fs_type : Bytes → Option Bytes → Option Bytes
unfolding scan_mounts covers consider fields_of unescape_mount_field lines
detect_fs_type target none = some []
detect_fs_type target (some mounts) = do
  best ← scan_mounts target (lines mounts) (record { best_type = []; best_len = 0 })
  some best.best_type

network_filesystems : List Bytes
network_filesystems =
    codes "nfs"
    ∷ codes "nfs4"
    ∷ codes "cifs"
    ∷ codes "smb3"
    ∷ codes "smbfs"
    ∷ codes "afs"
    ∷ codes "fuse.sshfs"
    ∷ codes "ceph"
    ∷ codes "glusterfs"
    ∷ codes "autofs"
    ∷ []

pub supports_inotify : Bytes → Bool
unfolding network_filesystems text_eq
supports_inotify fs_type =
    if is_empty fs_type then false else not (any (text_eq fs_type) network_filesystems)

-- The case of every cased letter inverted, and whether there is one.
pub flip_case : Bytes → Bytes × Bool
unfolding is_upper is_lower to_lower to_upper
flip_case [] = ([], false)
flip_case (c ∷ s) =
    let (rest, cased) = flip_case s in
    if is_upper c
    then (to_lower c ∷ rest, true)
    else if is_lower c
    then (to_upper c ∷ rest, true)
    else (c ∷ rest, cased)

-- The names of a directory against a test for the existence of a name in it.
pub detect_case_sensitive : List Bytes → (Bytes → Bool) → Bool
unfolding flip_case
detect_case_sensitive [] exists = true
detect_case_sensitive (name ∷ names) exists =
    let (flipped, cased) = flip_case name in
    if cased then not (exists flipped) else detect_case_sensitive names exists
