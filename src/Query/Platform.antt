-- ===== src/Query/Platform.antt =====
-- What src/query/query.cpp takes from outside the repository: `double` and its printing and parsing,
-- the numbers of the JSON library, and the escaping of the database connection.
use star_base.Query.Sql.{outside, quoted, scan, is_number}
use star_base.Common.{ℕ, ◌≡◌, Bool, true, Option, some, length, Bytes}
use star_base.Common.Int.{ℤ}

pub record Platform : Type 1 where
  pub Double : Type 0
  pub equal : Double → Double → Bool
  pub less : Double → Double → Bool
  pub less_eq : Double → Double → Bool
  pub add : Double → Double → Double
  pub sub : Double → Double → Double
  pub mul : Double → Double → Double
  pub div : Double → Double → Double
  pub abs : Double → Double
  pub floor : Double → Double
  pub cos : Double → Double
  -- The value of a literal of the source, such as `1e-6`, and `M_PI`.
  pub literal : Bytes → Double
  pub pi : Double
  -- `static_cast<long long>(d)`.
  pub to_long : Double → ℤ
  -- `std::to_string(d)`.
  pub to_string : Double → Bytes
  -- `std::stod`: the value and how many bytes it read; `none` where it throws.
  pub stod : Bytes → Option (Double × ℕ)
  -- The numbers of the JSON library, with `get<double>()` and `get<long long>()`.
  pub Number : Type 0
  pub get_double : Number → Double
  pub get_long : Number → ℤ
  -- `db.escape(s)`: `mysql_real_escape_string`.
  pub escape : Bytes → Bytes

-- The documented behaviour that the safety of the SQL rests on.
pub record IsSound (p : Platform) : Type 0 where
  -- `%f` prints digits and a point, or `inf` or `nan`, behind a minus or not.
  pub to_string_number : (d : p.Double) → is_number (p.to_string d) ≡ true
  -- What `strtod` reads to its end holds no quote, no slash and no minus before a minus or a blank, and its parentheses, as
  -- in `nan(1)`, match.
  pub stod_neutral :
      (s : Bytes) (d : p.Double)
      → p.stod s ≡ some (d, length s)
      → (k : ℕ) → scan (outside k) s ≡ some (outside k)
  -- An escaped text inside single quotes does not end them.
  pub escape_inside : (s : Bytes) (k : ℕ) → scan (quoted k) (p.escape s) ≡ some (quoted k)
