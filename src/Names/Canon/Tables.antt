-- ===== src/Names/Canon/Tables.antt =====
-- The tables of src/names/canon.cpp: catalog rules, the Messier cross-reference, placeholders.
use Prim.Native.String.{String}
use star_base.Common.{
  ℕ, Bool, Option, none, some, List, [], ◌∷◌, ◌++◌, if◌then◌else◌, any, Bytes, codes, text_eq,
}
use star_base.Common.Decimal.{decimal}

-- One catalog: the acronym, the separator before the number, and the aliases in lower case.
pub record Rule : Type 0 where
  pub acronym : Bytes
  pub sep : ℕ
  pub aliases : List Bytes

abbrev pub rule : String → ℕ → List Bytes → Rule
rule a s l = record { acronym = codes a; sep = s; aliases = l }

unfoldable pub rules : List Rule
rules =
    rule "M" b' ' (codes "messier" ∷ codes "m" ∷ [])
    ∷ rule "NGC" b' ' (codes "ngc" ∷ [])
    ∷ rule "IC" b' ' (codes "ic" ∷ [])
    ∷ rule "UGC" b' ' (codes "ugc" ∷ [])
    ∷ rule "PGC" b' ' (codes "pgc" ∷ [])
    ∷ rule "Arp" b' ' (codes "arp" ∷ [])
    ∷ rule "Abell" b' ' (codes "abell" ∷ codes "aco" ∷ [])
    ∷ rule "Sh2" b'-' (codes "sharpless" ∷ codes "sh2" ∷ codes "sh" ∷ [])
    ∷ rule "LBN" b' ' (codes "lbn" ∷ [])
    ∷ rule "LDN" b' ' (codes "ldn" ∷ [])
    ∷ rule "Cr" b' ' (codes "collinder" ∷ codes "cr" ∷ [])
    ∷ rule "Mel" b' ' (codes "melotte" ∷ codes "mel" ∷ [])
    ∷ rule "vdB" b' ' (codes "vdb" ∷ [])
    ∷ rule "Ced" b' ' (codes "cederblad" ∷ codes "ced" ∷ [])
    ∷ rule "C" b' ' (codes "caldwell" ∷ [])
    ∷ rule "B" b' ' (codes "barnard" ∷ codes "b" ∷ [])
    ∷ []

-- A Messier number and its number in the NGC or the IC.
pub record Xref : Type 0 where
  pub m : ℕ
  pub cat : Bytes
  pub num : Bytes

abbrev xref : ℕ → String → String → Xref
xref m c n = record { m = m; cat = codes c; num = codes n }

unfoldable pub messier_xref : List Xref
messier_xref =
    xref 1 "NGC" "1952"
    ∷ xref 2 "NGC" "7089"
    ∷ xref 3 "NGC" "5272"
    ∷ xref 4 "NGC" "6121"
    ∷ xref 5 "NGC" "5904"
    ∷ xref 6 "NGC" "6405"
    ∷ xref 7 "NGC" "6475"
    ∷ xref 8 "NGC" "6523"
    ∷ xref 9 "NGC" "6333"
    ∷ xref 10 "NGC" "6254"
    ∷ xref 11 "NGC" "6705"
    ∷ xref 12 "NGC" "6218"
    ∷ xref 13 "NGC" "6205"
    ∷ xref 14 "NGC" "6402"
    ∷ xref 15 "NGC" "7078"
    ∷ xref 16 "NGC" "6611"
    ∷ xref 17 "NGC" "6618"
    ∷ xref 18 "NGC" "6613"
    ∷ xref 19 "NGC" "6273"
    ∷ xref 20 "NGC" "6514"
    ∷ xref 21 "NGC" "6531"
    ∷ xref 22 "NGC" "6656"
    ∷ xref 23 "NGC" "6494"
    ∷ xref 24 "IC" "4715"
    ∷ xref 25 "IC" "4725"
    ∷ xref 26 "NGC" "6694"
    ∷ xref 27 "NGC" "6853"
    ∷ xref 28 "NGC" "6626"
    ∷ xref 29 "NGC" "6913"
    ∷ xref 30 "NGC" "7099"
    ∷ xref 31 "NGC" "224"
    ∷ xref 32 "NGC" "221"
    ∷ xref 33 "NGC" "598"
    ∷ xref 34 "NGC" "1039"
    ∷ xref 35 "NGC" "2168"
    ∷ xref 36 "NGC" "1960"
    ∷ xref 37 "NGC" "2099"
    ∷ xref 38 "NGC" "1912"
    ∷ xref 39 "NGC" "7092"
    ∷ xref 41 "NGC" "2287"
    ∷ xref 42 "NGC" "1976"
    ∷ xref 43 "NGC" "1982"
    ∷ xref 44 "NGC" "2632"
    ∷ xref 46 "NGC" "2437"
    ∷ xref 47 "NGC" "2422"
    ∷ xref 48 "NGC" "2548"
    ∷ xref 49 "NGC" "4472"
    ∷ xref 50 "NGC" "2323"
    ∷ xref 51 "NGC" "5194"
    ∷ xref 52 "NGC" "7654"
    ∷ xref 53 "NGC" "5024"
    ∷ xref 54 "NGC" "6715"
    ∷ xref 55 "NGC" "6809"
    ∷ xref 56 "NGC" "6779"
    ∷ xref 57 "NGC" "6720"
    ∷ xref 58 "NGC" "4579"
    ∷ xref 59 "NGC" "4621"
    ∷ xref 60 "NGC" "4649"
    ∷ xref 61 "NGC" "4303"
    ∷ xref 62 "NGC" "6266"
    ∷ xref 63 "NGC" "5055"
    ∷ xref 64 "NGC" "4826"
    ∷ xref 65 "NGC" "3623"
    ∷ xref 66 "NGC" "3627"
    ∷ xref 67 "NGC" "2682"
    ∷ xref 68 "NGC" "4590"
    ∷ xref 69 "NGC" "6637"
    ∷ xref 70 "NGC" "6681"
    ∷ xref 71 "NGC" "6838"
    ∷ xref 72 "NGC" "6981"
    ∷ xref 73 "NGC" "6994"
    ∷ xref 74 "NGC" "628"
    ∷ xref 75 "NGC" "6864"
    ∷ xref 76 "NGC" "650"
    ∷ xref 77 "NGC" "1068"
    ∷ xref 78 "NGC" "2068"
    ∷ xref 79 "NGC" "1904"
    ∷ xref 80 "NGC" "6093"
    ∷ xref 81 "NGC" "3031"
    ∷ xref 82 "NGC" "3034"
    ∷ xref 83 "NGC" "5236"
    ∷ xref 84 "NGC" "4374"
    ∷ xref 85 "NGC" "4382"
    ∷ xref 86 "NGC" "4406"
    ∷ xref 87 "NGC" "4486"
    ∷ xref 88 "NGC" "4501"
    ∷ xref 89 "NGC" "4552"
    ∷ xref 90 "NGC" "4569"
    ∷ xref 91 "NGC" "4548"
    ∷ xref 92 "NGC" "6341"
    ∷ xref 93 "NGC" "2447"
    ∷ xref 94 "NGC" "4736"
    ∷ xref 95 "NGC" "3351"
    ∷ xref 96 "NGC" "3368"
    ∷ xref 97 "NGC" "3587"
    ∷ xref 98 "NGC" "4192"
    ∷ xref 99 "NGC" "4254"
    ∷ xref 100 "NGC" "4321"
    ∷ xref 101 "NGC" "5457"
    ∷ xref 102 "NGC" "5866"
    ∷ xref 103 "NGC" "581"
    ∷ xref 104 "NGC" "4594"
    ∷ xref 105 "NGC" "3379"
    ∷ xref 106 "NGC" "4258"
    ∷ xref 107 "NGC" "6171"
    ∷ xref 108 "NGC" "3556"
    ∷ xref 109 "NGC" "3992"
    ∷ xref 110 "NGC" "205"
    ∷ []

unfoldable pub m_name : Xref → Bytes
unfolding decimal
m_name e = codes "M " ++ decimal e.m

unfoldable pub alt_name : Xref → Bytes
alt_name e = e.cat ++ b' ' ∷ e.num

-- The value at `k` of the map that `map[key(e)] = value(e)` builds over the entries in order: the
-- last entry of that key.
unfoldable pub map_get :
    (Xref → Bytes) → (Xref → Bytes) → Bytes → List Xref → Option Bytes → Option Bytes
unfolding text_eq
map_get key value k [] found = found
map_get key value k (e ∷ es) found =
    map_get key value k es (if text_eq (key e) k then some (value e) else found)

-- `m_to_alt().find(k)`: "M 31" to "NGC 224".
unfoldable pub m_to_alt : Bytes → Option Bytes
unfolding map_get messier_xref m_name alt_name
m_to_alt k = map_get m_name alt_name k messier_xref none

-- `alt_to_m().find(k)`: "NGC 224" to "M 31".
unfoldable pub alt_to_m : Bytes → Option Bytes
unfolding map_get messier_xref m_name alt_name
alt_to_m k = map_get alt_name m_name k messier_xref none

unfoldable pub placeholders : List Bytes
placeholders =
    codes ""
    ∷ codes "target"
    ∷ codes "none"
    ∷ codes "unknown"
    ∷ codes "n/a"
    ∷ codes "na"
    ∷ codes "test"
    ∷ codes "flatwizard"
    ∷ codes "flat"
    ∷ codes "dark"
    ∷ codes "bias"
    ∷ codes "object"
    ∷ codes "no target"
    ∷ codes "-"
    ∷ []

unfoldable pub is_placeholder : Bytes → Bool
unfolding placeholders text_eq
is_placeholder low = any (text_eq low) placeholders
