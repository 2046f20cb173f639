-- ===== src/Quote.antt =====
-- subshell.go, cache_darwin.go and cache_security.go: texts that other programs read, quoted for them.
pub mod Words
pub mod Security
use schain.Prelude.{
  ℕ, ◌+◌, Bool, true, false, ◌&&◌, ◌||◌, not, Option, none, some, List, [], ◌∷◌, ◌++◌,
  if◌then◌else◌, ltb, leb, ◌==◌, length,
}
use schain.Prelude.Text.{Bytes, codes, has_prefix}
use schain.Prelude.Paths.{spaces}
use schain.Fail.{Fail, Result, ok, err, bad_service, no_payload, bad_payload, overlong}

-- strings.ReplaceAll of one byte
unfoldable pub replace_all : ℕ → Bytes → Bytes → Bytes
replace_all old new [] = []
replace_all old new (c ∷ s) =
    let rest = replace_all old new s in if c == old then new ++ rest else c ∷ rest

abbrev pub quote : ℕ
quote = 39

abbrev pub backslash : ℕ
backslash = 92

abbrev pub double_quote : ℕ
double_quote = 34

unfoldable pub shell_quote : Bytes → Bytes
unfolding replace_all
shell_quote s = quote ∷ replace_all quote (quote ∷ backslash ∷ quote ∷ quote ∷ []) s ++ quote ∷ []

unfoldable pub fish_quote : Bytes → Bytes
unfolding replace_all
fish_quote s =
    quote
      ∷ replace_all quote (backslash ∷ quote ∷ [])
          (replace_all backslash (backslash ∷ backslash ∷ []) s)
    ++ quote ∷ []

-- The replacer of securityStoreCommand, one pass for both bytes.
unfoldable pub escape : Bytes → Bytes
escape [] = []
escape (c ∷ s) =
    let rest = escape s in
    if c == backslash || c == double_quote then backslash ∷ c ∷ rest else c ∷ rest

unfoldable pub security_quote : Bytes → Bytes
unfolding escape
security_quote s = double_quote ∷ escape s ++ double_quote ∷ []

-- unicode.IsControl of the code point at the front of a text in UTF-8
unfoldable pub control_in_front : Bytes → Bool
control_in_front [] = false
control_in_front (c ∷ []) = ltb c 32 || c == 127
control_in_front (c ∷ d ∷ s) = ltb c 32 || c == 127 || (c == 194 && leb 128 d && ltb d 160)

-- unicode.IsSpace of it, but for the blank
unfoldable pub space_in_list : List Bytes → Bytes → Bool
unfolding has_prefix
space_in_list [] s = false
space_in_list (w ∷ ws) s = (has_prefix s w && not (has_prefix w (b' ' ∷ []))) || space_in_list ws s

-- The loop over the code points. In valid UTF-8 no code point starts inside another one, so a walk
-- over the bytes finds the same ones.
unfoldable pub has_unsupported : Bytes → Bool
unfolding control_in_front space_in_list
has_unsupported [] = false
has_unsupported (c ∷ s) =
    control_in_front (c ∷ s) || space_in_list spaces (c ∷ s) || has_unsupported s

unfoldable pub is_payload : Bytes → Bool
is_payload [] = true
is_payload (b ∷ s) =
    ((leb b'0' b && leb b b'9') || (leb b'a' b && leb b b'f') || b == b':') && is_payload s

-- The command without its line end.
unfoldable pub store_words : Bytes → Bytes → Bytes → Bytes
unfolding security_quote
store_words user service payload =
    codes "add-generic-password -U -a "
    ++ (security_quote user
        ++ (codes " -s " ++ (security_quote service ++ (codes " -w " ++ payload))))

-- securityStoreCommand: the line that goes to `security -i`. `valid` is utf8.ValidString.
unfoldable pub security_store_line : (Bytes → Bool) → Bytes → Bytes → Bytes → Result Bytes
unfolding has_unsupported is_payload store_words
security_store_line valid user service payload =
    if not (valid user) || has_unsupported user || not (valid service) || has_unsupported service
    then err bad_service
    else if length payload == 0
    then err no_payload
    else if not (is_payload payload)
    then err bad_payload
    else let line = store_words user service payload ++ 10 ∷ [] in
      if leb 4096 (length line) then err overlong else ok line
