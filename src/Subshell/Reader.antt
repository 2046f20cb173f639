-- ===== src/Subshell/Reader.antt =====
-- How a POSIX shell reads a script byte by byte: quotes, backslashes and comments. What follows a
-- dollar sign and documents given in place are not told apart from other text.
use schain.Prelude.{ℕ, ◌||◌, [], ◌∷◌, if◌then◌else◌, ◌==◌}
use schain.Prelude.Text.{Bytes}
use schain.Quote.{quote, backslash}

-- At the start of a line, between two words, in a word, in single quotes, in double quotes, behind a
-- backslash in a word or in double quotes, and in a comment.
pub data Place : Type 0 where
  line_start between word single double escaped double_escaped comment : Place

abbrev in_line : ℕ → Place
in_line c =
    if c == 10
    then line_start
    else if c == quote
    then single
    else if c == b'"'
    then double
    else if c == backslash
    then escaped
    else if c == b' ' || c == b';' || c == b'&' || c == b'|'
    then between
    else word

abbrev pub after_byte : Place → ℕ → Place
after_byte line_start c = if c == b'#' then comment else in_line c
after_byte between c = if c == b'#' then comment else in_line c
after_byte word c = in_line c
after_byte single c = if c == quote then word else single
after_byte double c = if c == b'"' then word else if c == backslash then double_escaped else double
after_byte escaped c = word
after_byte double_escaped c = double
after_byte comment c = if c == 10 then line_start else comment

-- Where the shell is behind a text.
unfoldable pub place_after : Place → Bytes → Place
place_after i [] = i
place_after i (c ∷ s) = place_after (after_byte i c) s
