-- ===== src/Pix/Wbpp/Params.antt =====
-- The token list of src/pix/wbpp.cpp behind WBPP's split at commas.
use star_base.Pix.Wbpp.{
  WbppProfile, render, has_delimiter, params_of, join_params, staged, dir_warnings, output_params,
  output_warnings, keyword_params, nonempty,
}
use star_base.Common.{
  ℕ, suc, ◌≡◌, refl, Bool, true, not, List, [], ◌∷◌, ◌++◌, map, arith, ◌==◌, if◌then◌else◌, all,
  all-append, append-eq-nil, Bytes, codes, has_byte,
}
use star_base.Common.Ascii.{is_digit}
use star_base.Common.Decimal.{decimal, decimal-digits}
use star_base.Common.Int.{ℤ, pos, negsuc, decimal_int}

-- WBPP's reading of its argument: cut at every comma.
put_front : ℕ → List Bytes → List Bytes
put_front c [] = (c ∷ []) ∷ []
put_front c (x ∷ xs) = (c ∷ x) ∷ xs

pub split_commas : Bytes → List Bytes
unfolding put_front
split_commas [] = [] ∷ []
split_commas (c ∷ s) = if c == b',' then [] ∷ split_commas s else put_front c (split_commas s)

abbrev lacks_comma : Bytes → Bool
lacks_comma x = not (has_byte b',' x)

split_last : (x : Bytes) → lacks_comma x ≡ true → split_commas x ≡ x ∷ []
unfolding split_commas has_byte
split_last [] h = refl
split_last (c ∷ x) h = ground (arith, split_last x)

split_first :
    (x s : Bytes) → lacks_comma x ≡ true → split_commas (x ++ b',' ∷ s) ≡ x ∷ split_commas s
unfolding split_commas has_byte
split_first [] s h = refl
split_first (c ∷ x) s h = ground (arith, split_first x s)

-- The split gives the tokens back where none of them holds a comma.
split-join_params :
    (x : Bytes) (xs : List Bytes)
    → all lacks_comma (x ∷ xs) ≡ true
    → split_commas (join_params (x ∷ xs)) ≡ x ∷ xs
unfolding join_params
split-join_params x [] h = split_last x (ground arith)
split-join_params x (y ∷ xs) h =
    ground (arith, split_first x (join_params (y ∷ xs)), split-join_params y xs)

-- Where no directory is warned of, none holds a delimiter.
dir_warnings-lacks : (ds : List Bytes) → dir_warnings ds ≡ [] → all lacks_comma ds ≡ true
unfolding dir_warnings has_delimiter
dir_warnings-lacks [] h = refl
dir_warnings-lacks (d ∷ ds) h = ground (arith, dir_warnings-lacks ds)

output-lacks : (p : WbppProfile) → output_warnings p ≡ [] → all lacks_comma (output_params p) ≡ true
unfolding output_warnings output_params has_delimiter has_byte
output-lacks p h = ground arith

keyword-lacks :
    (p : WbppProfile) → lacks_comma p.keywords ≡ true → all lacks_comma (keyword_params p) ≡ true
unfolding keyword_params has_byte
keyword-lacks p h = ground arith

nonempty-lacks :
    (xs : List Bytes) → all lacks_comma xs ≡ true → all lacks_comma (nonempty xs) ≡ true
unfolding nonempty
nonempty-lacks [] h = refl
nonempty-lacks (x ∷ xs) h = ground (arith, nonempty-lacks xs)

prefixed-lacks :
    (ds : List Bytes)
    → all lacks_comma ds ≡ true
    → all lacks_comma (map (λ d. codes "dir=" ++ d) ds) ≡ true
unfolding has_byte
prefixed-lacks [] h = refl
prefixed-lacks (d ∷ ds) h = ground (arith, prefixed-lacks ds)

digits-lack : (s : Bytes) → all is_digit s ≡ true → lacks_comma s ≡ true
unfolding has_byte is_digit
digits-lack [] h = refl
digits-lack (c ∷ s) h = ground (arith, digits-lack s)

decimal_int-lacks : (z : ℤ) → lacks_comma (decimal_int z) ≡ true
unfolding decimal_int has_byte
decimal_int-lacks (pos n) = digits-lack (decimal n) (decimal-digits n)
decimal_int-lacks (negsuc n) = digits-lack (decimal (suc n)) (decimal-digits (suc n))

-- The tokens hold no comma where their parts hold none.
params_of-lacks :
    (ds : List Bytes) (p : WbppProfile) (load_only : Bool)
    → all lacks_comma ds ≡ true
    → all lacks_comma (output_params p) ≡ true
    → lacks_comma p.wbpp_script ≡ true
    → lacks_comma p.keywords ≡ true
    → all lacks_comma p.extra_params ≡ true
    → all lacks_comma (params_of ds p load_only) ≡ true
unfolding params_of has_byte
params_of-lacks ds p load_only dirs output script keywords extra = simp all-append (
    ground (
      arith,
      prefixed-lacks ds dirs,
      keyword-lacks p keywords,
      decimal_int-lacks p.fits_convention,
      nonempty-lacks p.extra_params extra,
    ))

quiet_parts :
    (root : Bytes) (types : List Bytes) (p : WbppProfile) (load_only : Bool)
    → (render root types p load_only).warnings ≡ []
    → (dir_warnings (staged root types) ≡ []) × (output_warnings p ≡ [])
unfolding render
quiet_parts root types p load_only quiet =
    let (a, b) = append-eq-nil (dir_warnings (staged root types)) _ quiet in
    (a, (append-eq-nil (output_warnings p) _ b).0)

split-params_of :
    (ds : List Bytes) (p : WbppProfile) (load_only : Bool)
    → all lacks_comma (params_of ds p load_only) ≡ true
    → split_commas (join_params (params_of ds p load_only)) ≡ params_of ds p load_only
unfolding params_of
split-params_of ds p load_only h = split-join_params p.wbpp_script _ h

render-params :
    (root : Bytes) (types : List Bytes) (p : WbppProfile) (load_only : Bool)
    → (render root types p load_only).params ≡ params_of (staged root types) p load_only
unfolding render
render-params root types p load_only = refl

-- Where a plan has no warning, WBPP's split at commas reads back exactly the tokens of the plan.
-- The warnings speak only of paths: that the script, the keywords and the extra parameters of the
-- profile hold no comma is a hypothesis.
pub split-render :
    (root : Bytes) (types : List Bytes) (p : WbppProfile) (load_only : Bool)
    → (render root types p load_only).warnings ≡ []
    → lacks_comma p.wbpp_script ≡ true
    → lacks_comma p.keywords ≡ true
    → all lacks_comma p.extra_params ≡ true
    → split_commas (join_params (render root types p load_only).params)
      ≡ (render root types p load_only).params
split-render root types p load_only quiet script keywords extra =
    let (dirs, output) = quiet_parts root types p load_only quiet in
    rw (render-params root types p load_only) (
      split-params_of (staged root types) p load_only (
        params_of-lacks (staged root types) p load_only (dir_warnings-lacks _ dirs)
          (output-lacks p output) script keywords extra))
