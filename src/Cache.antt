-- ===== src/Cache.antt =====
-- cache.go: what the operating system remembers of a vault, its salt and key in hexadecimal and the time
-- at which they expire. The store and the clock (in seconds, from 1970 on) are arguments.
pub mod Remember
use schain.Prelude.{
  ℕ, zero, suc, ◌+◌, ◌-◌, ◌^◌, Bool, true, false, ◌&&◌, ◌||◌, not, Option, none, some, List, [],
  ◌∷◌, ◌++◌, if◌then◌else◌, ltb, leb, ◌==◌, length,
}
use schain.Prelude.Text.{Bytes}
use schain.Prelude.Split.{split}
use schain.Prelude.Number.{ℤ, pos, negsuc, max_int, atoi, itoa}
use schain.Prelude.Hex.{hex_encode, hex_decode}
use schain.Fail.{Fail, Result, ok, err, ◌>>=◌, malformed, bad_hex, bad_ttl}
use schain.Vault.{Vault}
use schain.Format.{salt_len}

abbrev pub key_len : ℕ
key_len = 32

abbrev pub max_ttl : ℕ
max_ttl = 2 ^ 31 - 1

-- `%d` of an int64 sum of two numbers that are not negative, which wraps around above its range.
unfoldable pub int64_text : ℕ → Bytes
int64_text n = if leb n max_int then itoa n else b'-' ∷ itoa (2 ^ 64 - n)

unfoldable pub payload_with_expiry : ℕ → Bytes → ℤ → Result Bytes
unfolding int64_text
payload_with_expiry now payload (negsuc n) = err bad_ttl
payload_with_expiry now payload (pos n) =
    if ltb max_ttl n
    then err bad_ttl
    else if n == 0
    then ok payload
    else ok (payload ++ b':' ∷ int64_text (now + n))

unfoldable pub cache_payload : Bytes → Bytes → Bytes
cache_payload salt key = hex_encode salt ++ b':' ∷ hex_encode key

-- `expiry` is 0 where the entry has none.
pub record CacheEntry : Type 0 where
  pub salt : Bytes
  pub key : Bytes
  pub expiry : ℕ

unfoldable pub hex_field : Bytes → Result Bytes
hex_field s = elim (hex_decode s) [ none ↦ err bad_hex | some d ↦ ok d ]

-- The third part, if there is one.
unfoldable pub expiry_field : List Bytes → Result ℕ
expiry_field [] = ok 0
expiry_field (p ∷ ps) = elim (atoi p) [ some (pos (suc n)) ↦ ok (suc n) | _ ↦ err malformed ]

unfoldable pub parse_fields : Bytes → Bytes → List Bytes → Result CacheEntry
unfolding hex_field expiry_field
parse_fields a b ps = hex_field a >>= λ s. hex_field b >>= λ k.
    if not (length s == salt_len) || not (length k == key_len)
    then err malformed
    else expiry_field ps >>= λ n. ok (record { salt = s; key = k; expiry = n })

unfoldable pub parse_cache_payload : Bytes → Result CacheEntry
unfolding parse_fields
parse_cache_payload p = elim (split b':' p) [
  | a ∷ b ∷ [] ↦ parse_fields a b []
  | a ∷ b ∷ c ∷ [] ↦ parse_fields a b (c ∷ [])
  | _ ↦ err malformed
]

-- tryCache: the vault, and whether the entry was forgotten. `load` is what cacheLoad gives for the path
-- and `open_key` is openVaultKey on it.
unfoldable pub try_cache : Result Bytes → ℕ → (Bytes → Bytes → Result Vault) → Option Vault × Bool
unfolding parse_cache_payload
try_cache load now open_key = elim load [
  | err e ↦ (none, false)
  | ok p ↦ elim (parse_cache_payload p) [
    | err e ↦ (none, false)
    | ok c ↦
        if ltb 0 c.expiry && leb c.expiry now
        then (none, true)
        else elim (open_key c.salt c.key) [ err e ↦ (none, false) | ok v ↦ (some v, false) ]
  ]
]
