-- ===== src/Quote/Words.antt =====
-- subshell.go: how the shells read what was quoted for them.
use schain.Prelude.{
  ℕ, ◌≡◌, refl, Bool, true, false, ◌||◌, Option, none, some, inl, inr, [], ◌∷◌, ◌++◌, arith,
  if◌then◌else◌, ◌==◌, append_assoc, Bool-cases, ==_iff,
}
use schain.Prelude.Text.{Bytes}
use schain.Quote.{replace_all, quote, backslash, shell_quote, fish_quote}

-- A byte in front of what was read.
abbrev onto : ℕ → Option (Bytes × Bytes) → Option (Bytes × Bytes)
onto c none = none
onto c (some (w, rest)) = some (c ∷ w, rest)

abbrev is_blank : ℕ → Bool
is_blank c = c == b' ' || c == 10

-- What stood last in the word: nothing that goes on, an open single quote, or a backslash.
pub data Reading : Type 0 where
  plain quoted escaped : Reading

-- A word of a POSIX shell, with the text behind it. A byte that is neither quoted nor escaped makes
-- the word one that the shell may interpret: none.
unfoldable pub sh_word : Reading → Bytes → Option (Bytes × Bytes)
sh_word plain [] = some ([], [])
sh_word quoted [] = none
sh_word escaped [] = none
sh_word escaped (c ∷ s) = onto c (sh_word plain s)
sh_word quoted (c ∷ s) = elim (c == quote) [
  | true ↦ sh_word plain s
  | false ↦ onto c (sh_word quoted s)
]
sh_word plain (c ∷ s) = elim (c == quote) [
  | true ↦ sh_word quoted s
  | false ↦ elim (c == backslash) [
    | true ↦ sh_word escaped s
    | false ↦ if is_blank c then some ([], c ∷ s) else none
  ]
]

-- What may stand behind a word: nothing, or a blank.
abbrev pub EndsWord : Bytes → Type 0
EndsWord [] = Unit
EndsWord (c ∷ s) = is_blank c ≡ true

sh_word_end : (rest : Bytes) → EndsWord rest → sh_word plain rest ≡ some ([], rest)
unfolding sh_word
sh_word_end [] h = refl
sh_word_end (c ∷ s) h = ground arith

sh_word-replace_all :
    (s rest : Bytes)
    → EndsWord rest
    → sh_word quoted (replace_all quote (quote ∷ backslash ∷ quote ∷ quote ∷ []) s ++ quote ∷ rest)
      ≡ some (s, rest)
unfolding sh_word replace_all
sh_word-replace_all [] rest h = sh_word_end rest h
sh_word-replace_all (c ∷ s) rest h = elim (Bool-cases (c == quote)) [
  | inl y ↦ rw y (rw (sh_word-replace_all s rest h, (==_iff c quote).0 y) refl)
  | inr n ↦ ground (arith, n, sh_word-replace_all s rest h)
]

-- A POSIX shell reads a text that shellQuote has quoted as one word, which is the text itself,
-- whatever bytes it holds; nothing of it is left for the shell to interpret.
pub sh_word-shell_quote :
    (s rest : Bytes) → EndsWord rest → sh_word plain (shell_quote s ++ rest) ≡ some (s, rest)
unfolding shell_quote
sh_word-shell_quote s rest h =
    rw
      (append_assoc (replace_all quote (quote ∷ backslash ∷ quote ∷ quote ∷ []) s) (quote ∷ [])
        rest)
      (unfold sh_word in sh_word-replace_all s rest h)

-- The byte that fish reads for a byte behind a backslash in single quotes, and a byte in front of it:
-- only a quote and a backslash lose the backslash.
abbrev fish_escaped : ℕ → Option (Bytes × Bytes) → Option (Bytes × Bytes)
fish_escaped c o = if c == quote || c == backslash then onto c o else onto backslash (onto c o)

-- A word of fish, which is made of quoted parts only.
unfoldable pub fish_word : Reading → Bytes → Option (Bytes × Bytes)
fish_word plain [] = some ([], [])
fish_word quoted [] = none
fish_word escaped [] = none
fish_word escaped (c ∷ s) = fish_escaped c (fish_word quoted s)
fish_word quoted (c ∷ s) = elim (c == quote) [
  | true ↦ fish_word plain s
  | false ↦ elim (c == backslash) [
    | true ↦ fish_word escaped s
    | false ↦ onto c (fish_word quoted s)
  ]
]
fish_word plain (c ∷ s) = elim (c == quote) [
  | true ↦ fish_word quoted s
  | false ↦ if is_blank c || c == b';' then some ([], c ∷ s) else none
]

-- What may stand behind a word of fish: a blank or a semicolon too.
abbrev pub EndsFish : Bytes → Type 0
EndsFish [] = Unit
EndsFish (c ∷ s) = (is_blank c || c == b';') ≡ true

fish_word_end : (rest : Bytes) → EndsFish rest → fish_word plain rest ≡ some ([], rest)
unfolding fish_word
fish_word_end [] h = refl
fish_word_end (c ∷ s) h = ground arith

abbrev doubled : Bytes → Bytes
doubled s =
    replace_all quote (backslash ∷ quote ∷ [])
      (replace_all backslash (backslash ∷ backslash ∷ []) s)

fish_word-replace_all :
    (s rest : Bytes) → EndsFish rest → fish_word quoted (doubled s ++ quote ∷ rest) ≡ some (s, rest)
unfolding fish_word replace_all
fish_word-replace_all [] rest h = fish_word_end rest h
fish_word-replace_all (c ∷ s) rest h = elim (Bool-cases (c == backslash)) [
  | inl y ↦ rw (y, (==_iff c backslash).0 y) (rw (fish_word-replace_all s rest h) refl)
  | inr n ↦ elim (Bool-cases (c == quote)) [
    | inl y ↦ rw (n, y, (==_iff c quote).0 y) (rw (fish_word-replace_all s rest h) refl)
    | inr m ↦ ground (arith, n, m, fish_word-replace_all s rest h)
  ]
]

-- fish reads a text that fishQuote has quoted as one word, which is the text itself.
pub fish_word-fish_quote :
    (s rest : Bytes) → EndsFish rest → fish_word plain (fish_quote s ++ rest) ≡ some (s, rest)
unfolding fish_quote
fish_word-fish_quote s rest h =
    rw (append_assoc (doubled s) (quote ∷ []) rest)
      (unfold fish_word in fish_word-replace_all s rest h)
