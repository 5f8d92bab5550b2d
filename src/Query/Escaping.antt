-- ===== src/Query/Escaping.antt =====
-- A server that puts a backslash before quotes and backslashes.
use star_base.Query.Sql.{quoted, scan, lex}
use star_base.Common.{ℕ, ◌≡◌, refl, ◌||◌, some, [], ◌∷◌, ◌++◌, arith, ◌==◌, if◌then◌else◌, Bytes}

abbrev pub escape_byte : ℕ → Bytes
escape_byte c = if c == b'\'' || c == b'\\' then b'\\' ∷ c ∷ [] else c ∷ []

abbrev pub backslashed : Bytes → Bytes
backslashed [] = []
backslashed (c ∷ s) = escape_byte c ++ backslashed s

pub backslashed-inside : (s : Bytes) (k : ℕ) → scan (quoted k) (backslashed s) ≡ some (quoted k)
unfolding scan lex
backslashed-inside [] k = refl
backslashed-inside (c ∷ s) k = ground (arith, backslashed-inside s k)
