-- ===== src/Sys/Paths.antt =====
-- `std::filesystem::path` on POSIX.
use star_base.Common.{
  ℕ, Bool, false, ◌||◌, Option, none, some, [], ◌∷◌, ◌++◌, ◌==◌, if◌then◌else◌, is_empty, last?,
  Bytes,
}

is_slash? : Option ℕ → Bool
is_slash? none = false
is_slash? (some c) = c == b'/'

-- `path / other`.
unfoldable pub join : Bytes → Bytes → Bytes
unfolding is_slash?
join path [] = if is_empty path || is_slash? (last? path) then path else path ++ b'/' ∷ []
join path (c ∷ s) =
    if c == b'/'
    then c ∷ s
    else if is_empty path || is_slash? (last? path)
    then path ++ c ∷ s
    else path ++ b'/' ∷ c ∷ s
