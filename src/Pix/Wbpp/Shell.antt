-- ===== src/Pix/Wbpp/Shell.antt =====
-- How a POSIX shell reads the command of src/pix/wbpp.cpp: words, single quotes and backslashes.
use star_base.Pix.Wbpp.{WbppProfile, sh_squote, squote_body, squote_byte, command_of, join_params}
use star_base.Common.{
  ℕ, ◌≡◌, ◌∙◌, Bool, true, false, ◌||◌, Option, none, some, List, [], ◌∷◌, ◌++◌, append-nil,
  append_assoc, arith, ◌==◌, if◌then◌else◌, is_empty, all, Bytes, codes, concat, has_byte,
}
use star_base.Common.Ascii.{is_alnum}

-- Where the shell stands: between words, in a word, in single quotes, behind a backslash.
pub data Mode : Type 0 where
  between bare quoted escaped : Mode

-- A byte that stands for itself outside quotes.
unfoldable pub is_plain : ℕ → Bool
unfolding is_alnum has_byte
is_plain c = is_alnum c || (has_byte c (codes "/.-_=+:@%,"))

abbrev pub Reading : Type 0
Reading = Mode × Bytes × Option Bytes

-- One byte: the next mode, the word so far, and the words that it completes. Bytes with another
-- meaning outside quotes are refused.
pub advance : Mode → Bytes → ℕ → Option Reading
advance between cur c =
    if c == 32
    then some (between, [], none)
    else if c == b'\''
    then some (quoted, [], none)
    else if c == b'\\'
    then some (escaped, [], none)
    else if is_plain c
    then some (bare, c ∷ [], none)
    else none
advance bare cur c =
    if c == 32
    then some (between, [], some cur)
    else if c == b'\''
    then some (quoted, cur, none)
    else if c == b'\\'
    then some (escaped, cur, none)
    else if is_plain c
    then some (bare, cur ++ c ∷ [], none)
    else none
advance quoted cur c =
    if c == b'\'' then some (bare, cur, none) else some (quoted, cur ++ c ∷ [], none)
advance escaped cur c = some (bare, cur ++ c ∷ [], none)

abbrev emit : Option Bytes → Option (List Bytes) → Option (List Bytes)
emit none o = o
emit (some w) none = none
emit (some w) (some ws) = some (w ∷ ws)

-- The words of a command line; `none` where it is not complete or holds a special byte.
pub words : Mode → Bytes → Bytes → Option (List Bytes)
unfolding advance
words between cur [] = some []
words bare cur [] = some (cur ∷ [])
words quoted cur [] = none
words escaped cur [] = none
words m cur (c ∷ s) = elim (advance m cur c) [
  | none ↦ none
  | some (m', cur', out) ↦ emit out (words m' cur' s)
]

-- Inside single quotes the body that `sh_squote` writes is read back, whatever bytes it stands for.
words-squote_body :
    (s cur rest : Bytes)
    → words quoted cur (squote_body s ++ b'\'' ∷ rest) ≡ words bare (cur ++ s) rest
unfolding words squote_body squote_byte
words-squote_body [] cur rest = rw append-nil
words-squote_body (c ∷ s) cur rest = ground (
  arith,
  append_assoc (squote_byte c) (squote_body s) (b'\'' ∷ rest),
  append_assoc cur (c ∷ []) s,
  words-squote_body s (cur ++ c ∷ []) rest,
)

-- A shell reads a single-quoted text as one piece of a word, whatever bytes it holds.
pub words-sh_squote :
    (s cur rest : Bytes) → words bare cur (sh_squote s ++ rest) ≡ words bare (cur ++ s) rest
unfolding sh_squote words
words-sh_squote s cur rest =
    rw (append_assoc (squote_body s) (b'\'' ∷ []) rest) (words-squote_body s cur rest)

plain_byte :
    (c : ℕ) → is_plain c ≡ true → (c == 32 ≡ false) × (c == b'\'' ≡ false) × (c == b'\\' ≡ false)
unfolding is_plain
plain_byte c h = ground arith

words_bare_step :
    (c : ℕ) (cur s : Bytes)
    → is_plain c ≡ true
    → words bare cur (c ∷ s) ≡ words bare (cur ++ c ∷ []) s
unfolding words
words_bare_step c cur s h = let (a, b, d) = plain_byte c h in rw (a, b, d, h, words)

words-plain :
    (p cur rest : Bytes)
    → all is_plain p ≡ true
    → words bare cur (p ++ rest) ≡ words bare (cur ++ p) rest
words-plain [] cur rest h = rw append-nil
words-plain (c ∷ p) cur rest h =
    words_bare_step c cur (p ++ rest) (ground arith)
    ∙ words-plain p (cur ++ c ∷ []) rest (ground arith)
    ∙ rw (append_assoc cur (c ∷ []) p)

words-start :
    (c : ℕ) (s : Bytes) → is_plain c ≡ true → words between [] (c ∷ s) ≡ words bare (c ∷ []) s
unfolding words
words-start c s h = let (a, b, d) = plain_byte c h in rw (a, b, d, h, words)

-- The words that the shell hands to PixInsight.
abbrev pub argv : List Bytes → WbppProfile → Bool → List Bytes
argv params p load_only =
    p.pixinsight_sh
    ∷ codes "-n"
    ∷ codes "--automation-mode"
    ∷ (codes "-r=" ++ join_params params)
    ∷ (if load_only then [] else codes "--force-exit" ∷ [])

-- Behind the program's name.
words-options :
    (params : List Bytes) (p : WbppProfile) (load_only : Bool) (name : Bytes)
    → words bare name (
        concat (
          codes " -n --automation-mode "
          ∷ codes "-r="
          ∷ sh_squote (join_params params)
          ∷ (if load_only then [] else codes " --force-exit")
          ∷ []))
      ≡ some (
          name
          ∷ codes "-n"
          ∷ codes "--automation-mode"
          ∷ (codes "-r=" ++ join_params params)
          ∷ (if load_only then [] else codes "--force-exit" ∷ []))
unfolding words is_plain
words-options params p true name = rw (words-sh_squote (join_params params) (codes "-r=") [])
words-options params p false name =
    rw (words-sh_squote (join_params params) (codes "-r=") (codes " --force-exit"))

words-program :
    (name t : Bytes)
    → is_empty name ≡ false
    → all is_plain name ≡ true
    → words between [] (name ++ t) ≡ words bare name t
words-program [] t e h = absurd (cc)
words-program (c ∷ s) t e h =
    words-start c (s ++ t) (ground arith) ∙ words-plain s (c ∷ []) t (ground arith)

-- The shell reads the rendered command as exactly the program, its two options, one argument that is
-- `-r=` and the tokens joined, and `--force-exit` where the run is headless: whatever bytes the tokens
-- hold, none of them splits, quotes or ends the argument. The program's path is assumed to be of
-- plain bytes, since the source does not quote it.
pub words-command_of :
    (params : List Bytes) (p : WbppProfile) (load_only : Bool)
    → is_empty p.pixinsight_sh ≡ false
    → all is_plain p.pixinsight_sh ≡ true
    → words between [] (command_of params p load_only) ≡ some (argv params p load_only)
unfolding command_of
words-command_of params p load_only e h =
    words-program p.pixinsight_sh _ e h ∙ words-options params p load_only p.pixinsight_sh
