-- ===== src/Keyring.antt =====
-- cache_linux.go: the kernel's user keyring. What the kernel answers is an argument; the calls that are
-- made are listed in their order.
pub mod Rollback
pub mod Capacity
use schain.Prelude.{
  ℕ, ◌+◌, ◌-◌, ◌*◌, ◌^◌, Bool, true, false, Option, none, some, List, [], ◌∷◌, ◌++◌, if◌then◌else◌,
  ◌||◌, ltb, ◌==◌, length,
}
use schain.Prelude.Text.{Bytes, codes, contains}
use schain.Prelude.Number.{ℤ, pos, negsuc}
use schain.Fail.{Fail, Result, ok, err, ◌>>=◌, no_cache, keyring, joined, nul_in_path}
use schain.Cache.{payload_with_expiry}

-- KEY_POS_ALL | KEY_USR_ALL
abbrev pub key_perm : ℕ
key_perm = 0x3f3f0000

unfoldable pub key_desc : Bytes → Bytes
key_desc path = codes "schain:" ++ path

pub data Call : Type 0 where
  add_key : Bytes → Bytes → Call
  set_perm : ℕ → ℕ → Call
  set_timeout : ℕ → ℤ → Call
  revoke : ℕ → Call
  unlink : ℕ → Call

-- `keyctl` is the errno of a call, 0 for none; `search` and `read` are KEYCTL_SEARCH and KEYCTL_READ.
pub record Kernel : Type 0 where
  pub add : Bytes → Bytes → Result ℕ
  pub keyctl : Call → ℕ
  pub search : Bytes → Option ℕ
  pub read : ℕ → Result Bytes

module _ (k : Kernel) where
  -- The error so far, with the one of a step of the rollback.
  unfoldable pub and_error : Fail → Call → Fail
  and_error e c = if k.keyctl c == 0 then e else joined e (keyring (k.keyctl c))

  -- The deferred function, on an error.
  unfoldable pub roll_back : ℕ → List Call → Fail → Result (Unit {0}) × List Call
  unfolding and_error
  roll_back id calls e =
      (err (and_error (and_error e (revoke id)) (unlink id)), calls ++ revoke id ∷ unlink id ∷ [])

  unfoldable pub configure : ℤ → ℕ → List Call → Result (Unit {0}) × List Call
  unfolding roll_back
  configure ttl id calls =
      let perm = set_perm id key_perm in
      let timeout = set_timeout id ttl in
      if k.keyctl perm == 0
      then if k.keyctl timeout == 0
        then (ok tt, calls ++ perm ∷ timeout ∷ [])
        else roll_back id (calls ++ perm ∷ timeout ∷ []) (keyring (k.keyctl timeout))
      else roll_back id (calls ++ perm ∷ []) (keyring (k.keyctl perm))

  -- addCacheKey: the key's number, with the calls. A description is a C string.
  unfoldable pub add_cache_key : Bytes → Bytes → Result ℕ × List Call
  unfolding key_desc contains
  add_cache_key path payload =
      if contains (key_desc path) 0
      then (err nul_in_path, [])
      else (k.add (key_desc path) payload, add_key (key_desc path) payload ∷ [])

  unfoldable pub search_key : Bytes → Result ℕ
  unfolding key_desc contains
  search_key path =
      if contains (key_desc path) 0
      then err nul_in_path
      else elim (k.search (key_desc path)) [ none ↦ err no_cache | some id ↦ ok id ]

  unfoldable pub after_add : ℤ → Result ℕ × List Call → Result (Unit {0}) × List Call
  unfolding configure
  after_add ttl (err e, calls) = (err e, calls)
  after_add ttl (ok id, calls) = configure ttl id calls

  unfoldable pub cache_store : ℕ → Bytes → Bytes → ℤ → Result (Unit {0}) × List Call
  unfolding after_add add_cache_key
  cache_store now path payload ttl = elim (payload_with_expiry now payload ttl) [
    | err e ↦ (err e, [])
    | ok p ↦ after_add ttl (add_cache_key path p)
  ]

  -- The buffer has 256 bytes, and the kernel says how many the payload has.
  unfoldable pub cache_load : Bytes → Result Bytes
  unfolding search_key
  cache_load path = search_key path >>= λ id. elim (k.read id) [
    | err e ↦ err no_cache
    | ok p ↦ if ltb 256 (length p) then err no_cache else ok p
  ]

  unfoldable pub cache_forget : Bytes → Result (Unit {0})
  unfolding search_key
  cache_forget path = search_key path >>= λ id.
      if k.keyctl (unlink id) == 0 then ok tt else err (keyring (k.keyctl (unlink id)))

-- What keyringErr explains of an errno, by the numbers of Linux.
pub data Hint : Type 0 where
  restricted other_session over_quota unexplained : Hint

abbrev pub eperm : ℕ
eperm = 1

abbrev pub eacces : ℕ
eacces = 13

abbrev pub enosys : ℕ
enosys = 38

abbrev pub edquot : ℕ
edquot = 122

unfoldable pub keyring_hint : ℕ → Hint
keyring_hint n =
    if n == eperm || n == enosys
    then restricted
    else if n == eacces
    then other_session
    else if n == edquot
    then over_quota
    else unexplained
