-- ===== src/Tests/Quotes.antt =====
-- Quoted texts (subshell.go, cache_security.go).
use schain.Prelude.{◌≡◌, refl, ◌<◌, true, false, some, [], ◌∷◌, ◌++◌, length}
use schain.Prelude.Text.{Bytes, codes, contains}
use schain.Fail.{ok}
use schain.Quote.{shell_quote, fish_quote, store_words, security_store_line}
use schain.Quote.Words.{plain, sh_word, fish_word, sh_word-shell_quote, fish_word-fish_quote}
use schain.Quote.Security.{between, arguments, arguments-security_store_line}

quoted_as : shell_quote (codes "it's") ≡ codes "'it'\\''s'"
unfolding shell_quote
quoted_as = refl

sh_word-shell_quote_example :
    sh_word plain (shell_quote (codes "it's") ++ 10 ∷ []) ≡ some (codes "it's", 10 ∷ [])
sh_word-shell_quote_example = sh_word-shell_quote (codes "it's") (10 ∷ []) refl

fish_word-fish_quote_example :
    fish_word plain (fish_quote (codes "a\\'b") ++ codes "; end")
    ≡ some (codes "a\\'b", codes "; end")
fish_word-fish_quote_example = fish_word-fish_quote (codes "a\\'b") (codes "; end") refl

abbrev line : Bytes
line = store_words (codes "m\"e") (codes "schain:/a") (codes "0f:1a") ++ 10 ∷ []

line_runs :
    security_store_line (λ s. true) (codes "m\"e") (codes "schain:/a") (codes "0f:1a") ≡ ok line
unfolding security_store_line
line_runs = refl

arguments-security_store_line_example :
    (body : Bytes) × (line ≡ body ++ 10 ∷ [])
    × (contains body 10 ≡ false)
    × (length line < 4096)
    × (arguments between body
        ≡ some (
            codes "add-generic-password"
            ∷ codes "-U"
            ∷ codes "-a"
            ∷ codes "m\"e"
            ∷ codes "-s"
            ∷ codes "schain:/a"
            ∷ codes "-w"
            ∷ codes "0f:1a"
            ∷ []))
arguments-security_store_line_example =
    arguments-security_store_line (λ s. true) (codes "m\"e") (codes "schain:/a") (codes "0f:1a")
      line line_runs
