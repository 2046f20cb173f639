-- ===== src/Cache/Remember.antt =====
-- What is remembered of a vault is read back, and opens it until its time is over.
use schain.Prelude.{
  ℕ, zero, suc, ◌+◌, ◌≤◌, ◌<◌, ◌≡◌, refl, true, false, ◌&&◌, none, some, List, [], ◌∷◌, ◌++◌, arith,
  if◌then◌else◌, ltb, leb, ◌==◌, length, All, append_assoc,
}
use schain.Prelude.Text.{Bytes}
use schain.Prelude.Split.{split, split-Lacks, split-append}
use schain.Prelude.Number.{pos, max_int, itoa, atoi-itoa, itoa-contains}
use schain.Prelude.Hex.{IsByte, hex_encode, hex_decode-hex_encode, hex_encode-contains}
use schain.Fail.{Result, ok, err}
use schain.Vault.{Vault}
use schain.Cache.{
  int64_text, payload_with_expiry, cache_payload, hex_field, expiry_field, parse_fields,
  parse_cache_payload, try_cache,
}

-- The deadline that a time to live gives, 0 for none.
abbrev pub deadline : ℕ → ℕ → ℕ
deadline now ttl = if ttl == 0 then 0 else now + ttl

module _ (salt key : Bytes) (hs : All IsByte salt) (hk : All IsByte key) where
  module _ (s16 : length salt ≡ 16) (k32 : length key ≡ 32) where
    parse_fields-hex_encode :
        (ps : List Bytes) (n : ℕ)
        → expiry_field ps ≡ ok n
        → parse_fields (hex_encode salt) (hex_encode key) ps
          ≡ ok (record { salt = salt; key = key; expiry = n })
    unfolding parse_fields hex_field
    parse_fields-hex_encode ps n e =
        ground (arith, e, hex_decode-hex_encode salt hs, hex_decode-hex_encode key hk)

    split_two : split b':' (cache_payload salt key) ≡ hex_encode salt ∷ hex_encode key ∷ []
    unfolding cache_payload
    split_two =
        rw (split-append b':' (hex_encode salt) (hex_encode key) (hex_encode-contains salt hs))
          (rw (split-Lacks b':' (hex_encode key) (hex_encode-contains key hk)) refl)

    split_three :
        (n : ℕ)
        → split b':' (cache_payload salt key ++ b':' ∷ itoa n)
          ≡ hex_encode salt ∷ hex_encode key ∷ itoa n ∷ []
    unfolding cache_payload
    split_three n = rw (append_assoc (hex_encode salt) (b':' ∷ hex_encode key) (b':' ∷ itoa n)) (
        rw
          (split-append b':' (hex_encode salt) (hex_encode key ++ b':' ∷ itoa n)
            (hex_encode-contains salt hs))
          (rw (split-append b':' (hex_encode key) (itoa n) (hex_encode-contains key hk))
            (rw (split-Lacks b':' (itoa n) (itoa-contains n b':' refl)) refl)))

    expiry_field-itoa : (n : ℕ) → 0 < n → n ≤ max_int → expiry_field (itoa n ∷ []) ≡ ok n
    unfolding expiry_field
    expiry_field-itoa zero h k = ground arith
    expiry_field-itoa (suc n) h k = rw (expiry_field, atoi-itoa (suc n) k) refl

    parse_cache_payload-plain :
        parse_cache_payload (cache_payload salt key)
        ≡ ok (record { salt = salt; key = key; expiry = 0 })
    unfolding parse_cache_payload
    parse_cache_payload-plain =
        rw (parse_cache_payload, split_two)
          (parse_fields-hex_encode [] 0 (unfold expiry_field in refl))

    parse_cache_payload-dated :
        (n : ℕ)
        → 0 < n
        → n ≤ max_int
        → parse_cache_payload (cache_payload salt key ++ b':' ∷ itoa n)
          ≡ ok (record { salt = salt; key = key; expiry = n })
    unfolding parse_cache_payload
    parse_cache_payload-dated n h k =
        rw (parse_cache_payload, split_three n)
          (parse_fields-hex_encode (itoa n ∷ []) n (expiry_field-itoa n h k))

    -- A payload with a deadline is read back as the salt, the key and the deadline, if the deadline
    -- is in the range of an int64.
    pub parse_cache_payload-payload_with_expiry :
        (now ttl : ℕ) (p : Bytes)
        → now + ttl ≤ max_int
        → payload_with_expiry now (cache_payload salt key) (pos ttl) ≡ ok p
        → parse_cache_payload p ≡ ok (record { salt = salt; key = key; expiry = deadline now ttl })
    unfolding payload_with_expiry int64_text
    parse_cache_payload-payload_with_expiry now ttl p h e =
        ground (arith, parse_cache_payload-plain, parse_cache_payload-dated (now + ttl))

    -- What is stored for a vault at the time `now`, with a time to live that is accepted and a
    -- deadline in the range of an int64, makes a later tryCache open the vault with the salt and the
    -- key that were stored; from the deadline on, if there is one, it gives no vault and forgets the
    -- entry instead.
    pub try_cache-payload_with_expiry :
        (now ttl later : ℕ) (p : Bytes) (open_key : Bytes → Bytes → Result Vault)
        → now + ttl ≤ max_int
        → payload_with_expiry now (cache_payload salt key) (pos ttl) ≡ ok p
        → try_cache (ok p) later open_key ≡ (
            if ltb 0 ttl && leb (now + ttl) later
            then (none, true)
            else elim (open_key salt key) [ err e ↦ (none, false) | ok v ↦ (some v, false) ])
    unfolding try_cache
    try_cache-payload_with_expiry now ttl later p open_key h e =
        rw (try_cache, parse_cache_payload-payload_with_expiry now ttl p h e) (ground arith)
