-- ===== src/Session/Remembered.antt =====
-- main.go, cache.go, cache_linux.go and vault.go: a vault that is remembered opens without a question.
use mathlib.Core.Path.{subst}
use schain.Prelude.{
  ℕ, ◌+◌, ◌≤◌, ◌≡◌, refl, sym, ap, ◌∙◌, false, ◌&&◌, Option, some, [], ◌∷◌, arith, ltb, leb, length,
  take, drop, All, length-take, length-drop, zero, suc,
}
use schain.Prelude.Text.{Bytes, contains}
use schain.Prelude.Hex.{IsByte}
use schain.Prelude.Number.{pos, max_int}
use schain.Fail.{Result, ok}
use schain.Vault.{Vault}
use schain.Format.{Crypto, open_vault, open_vault_key}
use schain.Format.Opened.{open_vault-parts}
use schain.Cache.{payload_with_expiry, cache_payload}
use schain.Cache.Remember.{try_cache-payload_with_expiry}
use schain.Keyring.{Kernel, key_desc, cache_load}
use schain.Keyring.Capacity.{length-payload_with_expiry, cache_load-stored}
use schain.Unlock.{Answers}
use schain.Askpass.{Surroundings, unlock}
use schain.Session.{Host, asking, open_cached, open_with, unlock_vault}

-- A key that is derived has 32 bytes.
pub record DerivesKeys (x : Crypto) : Type 0 where
  pub length-derive_key : (pass salt : Bytes) (n : ℕ) → length (x.derive_key pass salt n) ≡ 32
  pub derive_key-IsByte : (pass salt : Bytes) (n : ℕ) → All IsByte (x.derive_key pass salt n)

All-take : (P : ℕ → Type 0) (n : ℕ) (s : Bytes) → All P s → All P (take n s)
All-take P zero s h = tt
All-take P (suc n) [] h = tt
All-take P (suc n) (c ∷ s) (h, hs) = (h, All-take P n s hs)

All-drop : (P : ℕ → Type 0) (n : ℕ) (s : Bytes) → All P s → All P (drop n s)
All-drop P zero s h = h
All-drop P (suc n) [] h = tt
All-drop P (suc n) (c ∷ s) (h, hs) = All-drop P n s hs

unlock-cached :
    (w : Surroundings) (open_cached : Bytes → Option Vault)
    (open_vault : Bytes → Bytes → Result Vault) (path : Bytes) (v : Vault) (answers : Answers)
    → open_cached path ≡ some v
    → unlock w open_cached open_vault path answers ≡ (ok v, answers)
unfolding unlock
unlock-cached w open_cached open_vault path v answers e = rw (unlock, e) refl

-- What tryCache makes of a payload whose time is not over.
open_cached-payload :
    (h : Host) (path salt key p : Bytes) (now ttl : ℕ) (v : Vault)
    → All IsByte salt
    → All IsByte key
    → length salt ≡ 16
    → length key ≡ 32
    → now + ttl ≤ max_int
    → payload_with_expiry now (cache_payload salt key) (pos ttl) ≡ ok p
    → h.cached_at path ≡ ok p
    → (ltb 0 ttl && leb (now + ttl) h.now) ≡ false
    → open_vault_key h.crypto (h.file_at path) salt key ≡ ok v
    → open_cached h path ≡ some v
unfolding open_cached
open_cached-payload h path salt key p now ttl v bs bk s16 k32 m e c t o =
    rw (open_cached, c)
      (ap (λ r. r.0)
          (try_cache-payload_with_expiry salt key bs bk s16 k32 now ttl h.now p
            (λ s k. open_vault_key h.crypto (h.file_at path) s k) m e)
        ∙ rw (t, o) refl)

-- A vault that its passphrase has opened and that is then remembered, in a keyring that keeps what it
-- is given, opens again as the same vault, without the question for a passphrase, as long as its file
-- stays and the time to live, if there is one, is not over. The file and the key are bytes, and a
-- derived key has 32 of them; the path holds no NUL.
pub unlock_vault-remembered :
    (h : Host) (k : Kernel) (path blob pass p : Bytes) (id now ttl : ℕ) (v : Vault)
    (answers : Answers)
    → DerivesKeys h.crypto
    → h.file_at path ≡ some blob
    → All IsByte blob
    → open_with h path pass ≡ ok v
    → payload_with_expiry now (cache_payload v.salt v.key) (pos ttl) ≡ ok p
    → now + ttl ≤ max_int
    → (ltb 0 ttl && leb (now + ttl) h.now) ≡ false
    → contains (key_desc path) 0 ≡ false
    → k.search (key_desc path) ≡ some id
    → k.read id ≡ ok p
    → h.cached_at path ≡ cache_load k path
    → unlock_vault h path answers ≡ (ok v, answers)
unfolding unlock_vault open_with
unlock_vault-remembered h k path blob pass p id now ttl v answers derives file bytes o e m t z s r
      c =
    let (again, salt, long, key) = open_vault-parts h.crypto blob pass v (rw file at o) in
    let s16 : length v.salt ≡ 16 =
      ap length salt ∙ omega (arith, long, length-take 16 (drop 12 blob), length-drop 12 blob) in
    let k32 : length v.key ≡ 32 = ap length key ∙ derives.length-derive_key pass v.salt v.iters in
    let bs : All IsByte v.salt =
      subst (All IsByte) (sym salt)
        (All-take IsByte 16 (drop 12 blob) (All-drop IsByte 12 blob bytes)) in
    let bk : All IsByte v.key =
      subst (All IsByte) (sym key) (derives.derive_key-IsByte pass v.salt v.iters) in
    let fits = length-payload_with_expiry v.salt v.key p now ttl s16 k32 m e in
    unlock-cached (asking h) (open_cached h) (open_with h) path v answers (
      open_cached-payload h path v.salt v.key p now ttl v bs bk s16 k32 m e
        (c ∙ cache_load-stored k path p id fits z s r) t (rw file again))
