-- ===== src/Names/Canon/Tidy.antt =====
-- What `tidy` (src/names/canon.cpp) returns.
use star_base.Names.Canon.{tidy, tidy_loop}
use star_base.Common.{
  ℕ, ◌≡◌, refl, sym, ◌∙◌, inl, inr, Bool, true, false, not, ◌&&◌, ◌||◌, [], ◌∷◌, ◌++◌, append-nil,
  append_assoc, arith, ◌==◌, if◌then◌else◌, Bool-cases, is_empty, Bytes,
}
use star_base.Common.Ascii.{is_space}

-- No space at either end, and inner runs of one plain space only. The flag says that a character
-- other than a space has to come next.
unfoldable pub neat : Bool → Bytes → Bool
neat true [] = false
neat false [] = true
neat b (c ∷ s) = if is_space c then (c == 32 && (not b && neat true s)) else neat false s

unfoldable pub is_tidy : Bytes → Bool
unfolding neat
is_tidy s = is_empty s || neat true s

pub neat-append : (b : Bool) (s t : Bytes) → neat b s ≡ true → neat b (s ++ t) ≡ neat false t
unfolding neat
neat-append true [] t h = ground arith
neat-append false [] t h = refl
neat-append true (c ∷ s) t h = ground (arith, neat-append true s t, neat-append false s t)
neat-append false (c ∷ s) t h = ground (arith, neat-append true s t, neat-append false s t)

neat_snoc :
    (s : Bytes) (c : ℕ) → neat true s ≡ true → is_space c ≡ false → neat true (s ++ c ∷ []) ≡ true
unfolding neat
neat_snoc s c h k = neat-append true s (c ∷ []) h ∙ ground arith

neat_snoc_space :
    (s : Bytes) (c : ℕ)
    → neat true s ≡ true
    → is_space c ≡ false
    → neat true ((s ++ 32 ∷ []) ++ c ∷ []) ≡ true
unfolding neat is_space
neat_snoc_space s c h k = rw append_assoc (neat-append true s (32 ∷ c ∷ []) h ∙ ground arith)

neat_put :
    (b : Bool) (s : Bytes) (c : ℕ)
    → neat true s ≡ true
    → is_space c ≡ false
    → neat true ((if b then s ++ 32 ∷ [] else s) ++ c ∷ []) ≡ true
neat_put true = neat_snoc_space
neat_put false = neat_snoc

tidy_loop-neat :
    (cs s : Bytes) (sp : Bool) → neat true s ≡ true → neat true (tidy_loop cs s sp) ≡ true
unfolding tidy_loop
tidy_loop-neat [] s sp h = h
tidy_loop-neat (c ∷ cs) s sp h = elim (Bool-cases (is_space c)) [
  | inl e ↦ rw (e, tidy_loop) (tidy_loop-neat cs s (not (is_empty s)) h)
  | inr e ↦ rw (e, tidy_loop) (tidy_loop-neat cs _ false (neat_put sp s c h e))
]

tidy_start : (cs : Bytes) → is_tidy (tidy_loop cs [] false) ≡ true
unfolding tidy_loop is_tidy
tidy_start [] = refl
tidy_start (c ∷ cs) = elim (Bool-cases (is_space c)) [
  | inl e ↦ rw (e, tidy_loop) (tidy_start cs)
  | inr e ↦ rw (e, tidy_loop) (grind (arith, tidy_loop-neat cs (c ∷ []) false (first e)))
]
  where
    first : is_space c ≡ false → neat true (c ∷ []) ≡ true
    first e = ground arith

-- Whatever the input, the tidied text has no space at an end, no two spaces in a row and no other
-- whitespace.
pub tidy-is_tidy : (raw : Bytes) → is_tidy (tidy raw) ≡ true
unfolding tidy
tidy-is_tidy raw = tidy_start raw

nonempty_snoc : (s t : Bytes) (c : ℕ) → is_empty (s ++ c ∷ t) ≡ false
nonempty_snoc [] t c = refl
nonempty_snoc (x ∷ s) t c = refl

-- What the loop does with a neat rest behind a text that is not empty.
tidy_loop_rest :
    (b : Bool) (t s : Bytes)
    → is_empty s ≡ false
    → neat b t ≡ true
    → tidy_loop t s b ≡ s ++ (if b then 32 ∷ t else t)
unfolding tidy_loop neat
tidy_loop_rest true [] s e h = absurd (ground arith)
tidy_loop_rest false [] s e h = sym (append-nil s)
tidy_loop_rest true (c ∷ t) s e h = ground (
  arith,
  append_assoc s (32 ∷ []) (c ∷ []),
  append_assoc s (32 ∷ c ∷ []) t,
  tidy_loop_rest false t (s ++ 32 ∷ c ∷ []) (nonempty_snoc s (c ∷ []) 32),
)
tidy_loop_rest false (c ∷ t) s e h = ground (
  arith,
  append_assoc s (c ∷ []) t,
  tidy_loop_rest true t s e,
  tidy_loop_rest false t (s ++ c ∷ []) (nonempty_snoc s [] c),
)

tidy_loop-fixed : (s : Bytes) → is_tidy s ≡ true → tidy_loop s [] false ≡ s
unfolding is_tidy tidy_loop
tidy_loop-fixed [] h = refl
tidy_loop-fixed (c ∷ s) h = ground (arith, tidy_loop_rest false s (c ∷ []) refl)

-- A text with none of these is left as it is.
pub tidy-fixed : (s : Bytes) → is_tidy s ≡ true → tidy s ≡ s
unfolding tidy
tidy-fixed s h = tidy_loop-fixed s h

pub tidy_idem : (raw : Bytes) → tidy (tidy raw) ≡ tidy raw
tidy_idem raw = tidy-fixed (tidy raw) (tidy-is_tidy raw)
