-- ===== src/Query/Whole.antt =====
-- Whole numbers for `double`: the platform of the tests.
use star_base.Query.Platform.{Platform, IsSound}
use star_base.Query.Escaping.{backslashed, backslashed-inside}
use star_base.Query.Sql.{decimal_number}
use star_base.Common.{ℕ, ◌+◌, ◌-◌, ◌*◌, ◌/◌, Option, none, ltb, leb, ◌==◌, Bytes}
use star_base.Common.Decimal.{decimal}
use star_base.Common.Int.{pos}

-- With the values of literals and of `std::stod`.
abbrev pub whole : (Bytes → ℕ) → (Bytes → Option (ℕ × ℕ)) → Platform
whole literal stod = record {
  Double = ℕ;
  equal = ◌==◌;
  less = ltb;
  less_eq = leb;
  add = ◌+◌;
  sub = ◌-◌;
  mul = ◌*◌;
  div = ◌/◌;
  abs = λ d. d;
  floor = λ d. d;
  cos = λ d. 1;
  literal = literal;
  pi = 3;
  to_long = pos;
  to_string = decimal;
  stod = stod;
  Number = ℕ;
  get_double = λ n. n;
  get_long = pos;
  escape = backslashed;
}

abbrev pub no_stod : Bytes → Option (ℕ × ℕ)
no_stod s = none

pub whole-IsSound : (literal : Bytes → ℕ) → IsSound (whole literal no_stod)
whole-IsSound literal = record {
  to_string_number = decimal_number;
  stod_neutral = λ s d e k. absurd (cc);
  escape_inside = backslashed-inside;
}
