-- ===== src/Names/Sesame.antt =====
-- src/names/sesame.cpp: the query of the Sesame name resolver. The HTTP client and the reading of two
-- doubles from a stream are arguments.
pub mod Encode
pub mod Outcome
pub mod Examples
use star_base.Common.Lines.{lines, trim}
use star_base.Common.{
  ℕ, zero, ◌/◌, ◌%◌, ap, Bool, true, false, not, ◌&&◌, ◌||◌, Option, none, some, List, [], ◌∷◌,
  ◌++◌, ◌==◌, if◌then◌else◌, value_or, is_empty, get_elem?, drop, Bytes, codes, starts_with,
}
use star_base.Common.Ascii.{is_alnum}
use star_base.Common.Decimal.{decimal}

hex_digit : ℕ → ℕ
hex_digit n = value_or (get_elem? (codes "0123456789ABCDEF") n) 0

unreserved : ℕ → Bool
unfolding is_alnum
unreserved c = is_alnum c || (c == b'-' || (c == b'_' || (c == b'.' || c == b'~')))

-- Percent-encode a query value.
unfoldable pub url_encode : Bytes → Bytes
unfolding unreserved hex_digit
url_encode [] = []
url_encode (c ∷ s) =
    if unreserved c
    then c ∷ url_encode s
    else b'%' ∷ hex_digit (c / 16) ∷ hex_digit (c % 16) ∷ url_encode s

-- The loop of `collapse`, over the text so far and the flag for a run of blanks.
collapse_loop : Bytes → Bytes → Bool → Bytes
collapse_loop [] s sp = s
collapse_loop (c ∷ cs) s sp = elim (c == b' ' || c == 9) [
  | true ↦ collapse_loop cs s true
  | false ↦
      collapse_loop cs ((if sp && not (is_empty s) then s ++ b' ' ∷ [] else s) ++ c ∷ []) false
]

unfoldable pub collapse : Bytes → Bytes
unfolding trim collapse_loop
collapse s = collapse_loop (trim s) [] false

-- What stands behind the first space, if there is one.
behind_space : Bytes → Option Bytes
behind_space [] = none
behind_space (c ∷ s) = let rest = behind_space s in if c == b' ' then some s else rest

module _ (Double : Type 0) (zero_double : Double)
    (read_two : Bytes → Option (Double × Double)) where
  pub record SesameResult : Type 0 where
    pub ok : Bool
    pub name : Bytes
    pub otype : Bytes
    pub ra_deg : Double
    pub dec_deg : Double
    pub has_coords : Bool
    pub error : Bytes

  pub no_result : SesameResult
  no_result = record {
    ok = false;
    name = [];
    otype = [];
    ra_deg = zero_double;
    dec_deg = zero_double;
    has_coords = false;
    error = [];
  }

  with_coords : SesameResult → Option (Double × Double) → SesameResult
  with_coords r none = r
  with_coords r (some (ra, dec)) = record r { ra_deg = ra; dec_deg = dec; has_coords = true }

  with_name : SesameResult → Option Bytes → SesameResult
  unfolding collapse
  with_name r none = r
  with_name r (some s) = record r { name = collapse s }

  with_type : SesameResult → Option Bytes → SesameResult
  unfolding trim
  with_type r none = r
  with_type r (some s) = record r { otype = trim s }

  -- One line of the reply.
  parse_line : SesameResult → Bytes → SesameResult
  unfolding starts_with with_coords with_name with_type behind_space
  parse_line r line =
      if starts_with (codes "%J ") line && not r.has_coords
      then with_coords r (read_two (drop 3 line))
      else if starts_with (codes "%I") line && is_empty r.name
      then with_name r (behind_space line)
      else if starts_with (codes "%C") line && is_empty r.otype
      then with_type r (behind_space line)
      else r

  parse_lines : SesameResult → List Bytes → SesameResult
  unfolding trim parse_line
  parse_lines r [] = r
  parse_lines r (l ∷ ls) = parse_lines (parse_line r (trim l)) ls

  unfoldable pub parse_oi : Bytes → SesameResult
  unfolding lines parse_lines no_result
  parse_oi body =
      let r = parse_lines no_result (lines body) in
      record r { ok = not (is_empty r.name) || r.has_coords }

  -- What the HTTP client yields: an exception with its text, no response, or a status and a body.
  pub data Response : Type 0 where
    thrown : Bytes → Response
    no_response : Response
    response : ℕ → Bytes → Response

  checked : SesameResult → SesameResult
  checked r = if r.ok then r else record r { error = codes "no match" }

  outcome : Response → SesameResult
  unfolding no_result parse_oi checked
  outcome (thrown what) = record no_result { error = what }
  outcome no_response = record no_result { error = codes "network error contacting Sesame" }
  outcome (response status body) =
      if not (status == 200)
      then record no_result { error = codes "Sesame returned HTTP " ++ decimal status }
      else checked (parse_oi body)

  -- `get` is the client's GET of a path.
  unfoldable pub sesame_resolve : (Bytes → Response) → Bytes → SesameResult
  unfolding outcome url_encode
  sesame_resolve get raw = outcome (get (codes "/cgi-bin/nph-sesame/-oI/SNV?" ++ url_encode raw))
