-- ===== src/Quote/Security.antt =====
-- cache_security.go: how the interactive mode of `security` reads the line that is built for it.
use schain.Prelude.{
  ℕ, ◌<◌, ◌≡◌, refl, ap, ◌∙◌, Bool, true, false, ◌&&◌, ◌||◌, Option, none, some, List, [], ◌∷◌,
  ◌++◌, arith, ◌==◌, leb, append_assoc, append-nil, length,
}
use schain.Prelude.Text.{Bytes, codes, contains, contains-append}
use schain.Prelude.Paths.{spaces}
use schain.Fail.{ok}
use schain.Quote.{
  backslash, double_quote, escape, security_quote, has_unsupported, control_in_front, space_in_list,
  is_payload, store_words, security_store_line,
}

-- Where split_line stands: between arguments, in a plain one, in a quoted one, behind a backslash in a
-- quoted one; the bytes of the argument so far.
pub data Place : Type 0 where
  between : Place
  plain quoted escaped : Bytes → Place

abbrev with_word : Bytes → Option (List Bytes) → Option (List Bytes)
with_word w none = none
with_word w (some ws) = some (w ∷ ws)

-- The arguments of a line; none if a quote is left open. A quote that closes ends its argument.
unfoldable pub arguments : Place → Bytes → Option (List Bytes)
arguments between [] = some []
arguments (plain w) [] = some (w ∷ [])
arguments (quoted w) [] = none
arguments (escaped w) [] = none
arguments between (c ∷ s) = elim (c == b' ') [
  | true ↦ arguments between s
  | false ↦ elim (c == double_quote) [
    | true ↦ arguments (quoted []) s
    | false ↦ arguments (plain (c ∷ [])) s
  ]
]
arguments (plain w) (c ∷ s) = elim (c == b' ') [
  | true ↦ with_word w (arguments between s)
  | false ↦ arguments (plain (w ++ c ∷ [])) s
]
arguments (quoted w) (c ∷ s) = elim (c == double_quote) [
  | true ↦ with_word w (arguments between s)
  | false ↦ elim (c == backslash) [
    | true ↦ arguments (escaped w) s
    | false ↦ arguments (quoted (w ++ c ∷ [])) s
  ]
]
arguments (escaped w) (c ∷ s) = arguments (quoted (w ++ c ∷ [])) s

arguments-escape :
    (s w rest : Bytes)
    → arguments (quoted w) (escape s ++ double_quote ∷ rest)
      ≡ with_word (w ++ s) (arguments between rest)
unfolding arguments escape
arguments-escape [] w rest = rw (append-nil w) refl
arguments-escape (c ∷ s) w rest =
    let ih = arguments-escape s (w ++ c ∷ []) rest in
    let e = append_assoc w (c ∷ []) s in ground (arith, ih, e)

arguments-security_quote :
    (s rest : Bytes)
    → arguments between (security_quote s ++ rest) ≡ with_word s (arguments between rest)
unfolding security_quote
arguments-security_quote s rest =
    rw (append_assoc (escape s) (double_quote ∷ []) rest)
      (unfold arguments in arguments-escape s [] rest)

-- A payload has none of the bytes that end a word.
arguments-is_payload :
    (p w : Bytes) → is_payload p ≡ true → arguments (plain w) p ≡ some ((w ++ p) ∷ [])
unfolding arguments is_payload
arguments-is_payload [] w h = rw (append-nil w) refl
arguments-is_payload (c ∷ p) w h =
    ground (arith, arguments-is_payload p (w ++ c ∷ []), append_assoc w (c ∷ []) p)

abbrev of_payload : ℕ → Bool
of_payload b = (leb b'0' b && leb b b'9') || (leb b'a' b && leb b b'f') || b == b':'

payload_byte :
    (c : ℕ) (more : Bool)
    → (of_payload c && more) ≡ true
    → ((c == b' ') ≡ false) × ((c == double_quote) ≡ false) × (more ≡ true)
payload_byte c more h = ground arith

arguments_payload :
    (p : Bytes)
    → (length p == 0) ≡ false
    → is_payload p ≡ true
    → arguments between p ≡ some (p ∷ [])
unfolding arguments is_payload
arguments_payload [] n h = cc
arguments_payload (c ∷ p) n h =
    let (blank, other, more) = payload_byte c (is_payload p) h in
    ground (arith, blank, other, arguments-is_payload p (c ∷ []) more)

arguments-store_words :
    (user service p : Bytes)
    → (length p == 0) ≡ false
    → is_payload p ≡ true
    → arguments between (store_words user service p)
      ≡ some (
          codes "add-generic-password"
          ∷ codes "-U"
          ∷ codes "-a"
          ∷ user
          ∷ codes "-s"
          ∷ service
          ∷ codes "-w"
          ∷ p
          ∷ [])
unfolding arguments store_words
arguments-store_words user service p n h =
    let e =
      arguments-security_quote user
        (codes " -s " ++ (security_quote service ++ (codes " -w " ++ p))) in
    let f = arguments-security_quote service (codes " -w " ++ p) in
    let g = arguments_payload p n h in
    ap
      (λ o.
        with_word (codes "add-generic-password")
          (with_word (codes "-U") (with_word (codes "-a") o)))
      (e
        ∙ ap (λ o. with_word user (with_word (codes "-s") o))
            (f ∙ ap (λ o. with_word service (with_word (codes "-w") o)) g))

abbrev newline : ℕ
newline = 10

either_false : (a b c : Bool) → (a || b || c) ≡ false → (a ≡ false) × (c ≡ false)
either_false a b c h = ground arith

newline_control : (c : ℕ) (s : Bytes) → control_in_front (c ∷ s) ≡ false → (c == newline) ≡ false
unfolding control_in_front
newline_control c [] h = ground arith
newline_control c (d ∷ s) h = ground arith

contains-has_unsupported : (s : Bytes) → has_unsupported s ≡ false → contains s newline ≡ false
unfolding has_unsupported contains
contains-has_unsupported [] h = refl
contains-has_unsupported (c ∷ s) h =
    let (a, b) =
      either_false (control_in_front (c ∷ s)) (space_in_list spaces (c ∷ s)) (has_unsupported s)
        h in
    rw (newline_control c s a) (contains-has_unsupported s b)

contains-escape : (s : Bytes) → contains s newline ≡ false → contains (escape s) newline ≡ false
unfolding contains escape
contains-escape [] h = refl
contains-escape (c ∷ s) h = ground (arith, contains-escape s)

contains-is_payload : (s : Bytes) → is_payload s ≡ true → contains s newline ≡ false
unfolding contains is_payload
contains-is_payload [] h = refl
contains-is_payload (c ∷ s) h = ground (arith, contains-is_payload s)

contains-security_quote :
    (s : Bytes) → has_unsupported s ≡ false → contains (security_quote s) newline ≡ false
unfolding security_quote contains
contains-security_quote s h =
    rw (contains, contains-append (escape s) (double_quote ∷ []) newline)
      (rw (contains-escape s (contains-has_unsupported s h)) (unfold contains in refl))

contains-store_words :
    (user service p : Bytes)
    → has_unsupported user ≡ false
    → has_unsupported service ≡ false
    → is_payload p ≡ true
    → contains (store_words user service p) newline ≡ false
unfolding store_words
contains-store_words user service p hu hs hp =
    let a = codes "add-generic-password -U -a " in
    let q = security_quote user in
    let r = security_quote service in
    let l = r ++ (codes " -w " ++ p) in
    ground (
      arith,
      contains-append a (q ++ (codes " -s " ++ l)) newline,
      contains-append q (codes " -s " ++ l) newline,
      contains-append (codes " -s ") l newline,
      contains-append r (codes " -w " ++ p) newline,
      contains-append (codes " -w ") p newline,
      contains-security_quote user hu,
      contains-security_quote service hs,
      contains-is_payload p hp,
      literals,
    )
  where
    literals :
        (contains (codes "add-generic-password -U -a ") newline ≡ false)
        × (contains (codes " -s ") newline ≡ false)
        × (contains (codes " -w ") newline ≡ false)
    literals = unfold contains in (refl, refl, refl)

-- What the guards of securityStoreCommand leave of a line that is built.
record IsBuilt (user service p line : Bytes) : Type 0 where
  user_plain : has_unsupported user ≡ false
  service_plain : has_unsupported service ≡ false
  some_payload : (length p == 0) ≡ false
  plain_payload : is_payload p ≡ true
  words : line ≡ store_words user service p ++ newline ∷ []
  short : length line < 4096

security_store_line-IsBuilt :
    (valid : Bytes → Bool) (user service p line : Bytes)
    → security_store_line valid user service p ≡ ok line
    → IsBuilt user service p line
unfolding security_store_line
security_store_line-IsBuilt valid user service p line e = ground (arith, e)

-- A line that securityStoreCommand builds is one line of less than 4096 bytes, and `security` reads
-- it as the eight arguments that were meant: no account and no service name can add or change one.
pub arguments-security_store_line :
    (valid : Bytes → Bool) (user service p line : Bytes)
    → security_store_line valid user service p ≡ ok line
    → (body : Bytes) × (line ≡ body ++ newline ∷ [])
      × (contains body newline ≡ false)
      × (length line < 4096)
      × (arguments between body
          ≡ some (
              codes "add-generic-password"
              ∷ codes "-U"
              ∷ codes "-a"
              ∷ user
              ∷ codes "-s"
              ∷ service
              ∷ codes "-w"
              ∷ p
              ∷ []))
arguments-security_store_line valid user service p line e =
    let b = security_store_line-IsBuilt valid user service p line e in
    (
      store_words user service p,
      b.words,
      contains-store_words user service p b.user_plain b.service_plain b.plain_payload,
      b.short,
      arguments-store_words user service p b.some_payload b.plain_payload,
    )
