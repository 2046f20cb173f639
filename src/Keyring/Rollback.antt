-- ===== src/Keyring/Rollback.antt =====
-- cache_linux.go: a key is configured, or taken back.
use mathlib.Core.Path.{subst}
use schain.Prelude.{ℕ, ◌≡◌, refl, sym, ◌⊎◌, inl, inr, List, [], ◌∷◌, ◌++◌, ◌==◌, false, Bool-cases}
use schain.Prelude.Text.{Bytes, contains}
use schain.Prelude.Number.{ℤ}
use schain.Fail.{Fail, Result, ok, err}
use schain.Cache.{payload_with_expiry}
use schain.Keyring.{
  Call, add_key, set_perm, set_timeout, revoke, unlink, Kernel, key_perm, key_desc, roll_back,
  configure, add_cache_key, after_add, cache_store,
}

-- How a key that was added ends up: with its permissions and its timeout and nothing else done, or, on
-- an error, revoked and then unlinked, which are the last calls.
abbrev pub Configured : Bytes → Bytes → ℤ → ℕ → Result (Unit {0}) × List Call → Type 0
Configured desc p ttl id r =
    (r ≡ (ok tt, add_key desc p ∷ set_perm id key_perm ∷ set_timeout id ttl ∷ []))
    ⊎ ((e : Fail) × (calls : List Call) × (r ≡ (err e, calls ++ revoke id ∷ unlink id ∷ [])))

configure-Configured :
    (k : Kernel) (desc p : Bytes) (ttl : ℤ) (id : ℕ)
    → Configured desc p ttl id (configure k ttl id (add_key desc p ∷ []))
unfolding configure roll_back
configure-Configured k desc p ttl id = elim (Bool-cases (k.keyctl (set_perm id key_perm) == 0)) [
  | inl y ↦ elim (Bool-cases (k.keyctl (set_timeout id ttl) == 0)) [
    | inl z ↦ inl (rw (y, z) refl)
    | inr n ↦
        rw (y, n) (inr (_, add_key desc p ∷ set_perm id key_perm ∷ set_timeout id ttl ∷ [], refl))
  ]
  | inr n ↦ rw n (inr (_, add_key desc p ∷ set_perm id key_perm ∷ [], refl))
]

add_cache_key-added :
    (k : Kernel) (path p : Bytes) (id : ℕ)
    → contains (key_desc path) 0 ≡ false
    → k.add (key_desc path) p ≡ ok id
    → add_cache_key k path p ≡ (ok id, add_key (key_desc path) p ∷ [])
unfolding add_cache_key
add_cache_key-added k path p id c a = rw (c, add_cache_key) (rw a refl)

-- Once the kernel has taken the key, cacheStore either succeeds, with the permissions and the timeout
-- set, or returns an error and has revoked and unlinked that very key at the end, also where the
-- rollback itself meets an error. The path holds no NUL.
pub cache_store-Configured :
    (k : Kernel) (now : ℕ) (path payload p : Bytes) (ttl : ℤ) (id : ℕ)
    → payload_with_expiry now payload ttl ≡ ok p
    → contains (key_desc path) 0 ≡ false
    → k.add (key_desc path) p ≡ ok id
    → Configured (key_desc path) p ttl id (cache_store k now path payload ttl)
unfolding cache_store after_add
cache_store-Configured k now path payload p ttl id e c a =
    rw (e, cache_store)
      (subst (λ r. Configured (key_desc path) p ttl id (after_add k ttl r))
        (sym (add_cache_key-added k path p id c a))
        (configure-Configured k (key_desc path) p ttl id))
