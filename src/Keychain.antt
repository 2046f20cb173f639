-- ===== src/Keychain.antt =====
-- cache_darwin.go: the login keychain of macOS, through /usr/bin/security. What that program answers
-- is an argument; the sleeping shell that is started is part of the result.
use schain.Prelude.{ℕ, ◌≡◌, refl, Bool, Option, none, some, [], ◌++◌, if◌then◌else◌, ltb}
use schain.Prelude.Text.{Bytes, codes, str_eq}
use schain.Prelude.Number.{pos, itoa}
use schain.Prelude.Paths.{trim_space}
use schain.Fail.{Result, ok, err, io_error, no_cache}
use schain.Cache.{payload_with_expiry}
use schain.Quote.{shell_quote, security_store_line}
use schain.Quote.Words.{sh_word, plain, sh_word-shell_quote}

abbrev pub security_bin : Bytes
security_bin = codes "/usr/bin/security"

unfoldable pub keychain_service : Bytes → Bytes
keychain_service path = codes "schain:" ++ path

unfoldable pub account : (Bytes → Bytes) → Bytes
account getenv = if str_eq (getenv (codes "USER")) [] then codes "schain" else getenv (codes "USER")

-- Whether `security -i` succeeds on a line, what it finds for a service, whether it deletes one.
pub record Keychain : Type 0 where
  pub valid : Bytes → Bool
  pub takes : Bytes → Bool
  pub find : Bytes → Option Bytes
  pub delete : Bytes → Bool

-- The script that scheduleDelete gives to /bin/sh: up to the name of the service, and behind it.
unfoldable pub sleep_words : ℕ → Bytes
sleep_words ttl =
    codes "sleep "
    ++ (itoa ttl ++ (codes "; " ++ (security_bin ++ codes " delete-generic-password -s ")))

abbrev pub quietly : Bytes
quietly = codes " >/dev/null 2>&1"

unfoldable pub delete_script : Bytes → ℕ → Bytes
unfolding keychain_service sleep_words shell_quote
delete_script path ttl = sleep_words ttl ++ (shell_quote (keychain_service path) ++ quietly)

-- cacheStore, for a time to live that is not negative: its result, and the script that is left running.
unfoldable pub store_key :
    Keychain → (Bytes → Bytes) → ℕ → Bytes → Bytes → ℕ → Result (Unit {0}) × Option Bytes
unfolding account keychain_service delete_script
store_key k getenv now path payload ttl = elim (payload_with_expiry now payload (pos ttl)) [
  | err e ↦ (err e, none)
  | ok p ↦ elim (security_store_line k.valid (account getenv) (keychain_service path) p) [
    | err e ↦ (err e, none)
    | ok line ↦
        if k.takes line
        then (ok tt, if ltb 0 ttl then some (delete_script path ttl) else none)
        else (err io_error, none)
  ]
]

-- cacheLoad and cacheForget
unfoldable pub load_key : Keychain → Bytes → Result Bytes
unfolding keychain_service
load_key k path = elim (k.find (keychain_service path)) [
  | none ↦ err no_cache
  | some out ↦ ok (trim_space out)
]

unfoldable pub forget_key : Keychain → Bytes → Result (Unit {0})
unfolding keychain_service
forget_key k path = if k.delete (keychain_service path) then ok tt else err no_cache

-- Whatever the path of the vault holds, the shell reads the service as one word of the script.
pub delete_script-shell_quote :
    (path : Bytes) (ttl : ℕ)
    → (word : Bytes) × (delete_script path ttl ≡ sleep_words ttl ++ word)
      × (sh_word plain word ≡ some (keychain_service path, quietly))
unfolding delete_script
delete_script-shell_quote path ttl = (
  shell_quote (keychain_service path) ++ quietly,
  refl,
  sh_word-shell_quote (keychain_service path) quietly refl,
)
