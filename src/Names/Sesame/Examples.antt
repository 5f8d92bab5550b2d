-- ===== src/Names/Sesame/Examples.antt =====
-- Runs of src/names/sesame.cpp.
use star_base.Names.Sesame.{Response, response, sesame_resolve, parse_oi, url_encode, collapse}
use star_base.Names.Sesame.Encode.{url_decode, url_decode-url_encode}
use star_base.Names.Sesame.Outcome.{sesame_resolve-tells}
use star_base.Common.{ℕ, ◌≡◌, refl, Option, none, ◌∷◌, ◌++◌, arith, is_empty, Bytes, codes}

abbrev m31 : Bytes
m31 = codes "M 31 & co"

url_decode-url_encode_example : url_decode (url_encode m31) ≡ m31
url_decode-url_encode_example = url_decode-url_encode m31 (ground arith)

abbrev no_two : Bytes → Option (ℕ × ℕ)
no_two s = none

abbrev reply : Bytes → Response ℕ 0 no_two
reply path = response 200 (codes "#! sesame" ++ 10 ∷ codes "%I.0 M  31")

name_test : (sesame_resolve ℕ 0 no_two reply m31).name ≡ codes "M 31"
unfolding sesame_resolve parse_oi collapse
name_test = refl

sesame_resolve-tells_example :
    (sesame_resolve ℕ 0 no_two reply m31).ok ≡ is_empty (sesame_resolve ℕ 0 no_two reply m31).error
sesame_resolve-tells_example =
    sesame_resolve-tells ℕ 0 no_two reply m31 (λ path what e. absurd (cc e))
