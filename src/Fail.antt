-- ===== src/Fail.antt =====
-- The errors that the program returns, without their texts, and results that carry one.
use schain.Prelude.{ℕ, ◌≡◌, ◌⊎◌, inl, inr, refl, Bool, true, false, ◌||◌, List}
use schain.Prelude.Text.{Bytes}

-- One constructor for each `fmt.Errorf` or error value; what the message names is an argument.
pub data Fail : Type 0 where
  -- an index out of range
  panic : Fail
  -- expand.go
  not_set : Bytes → Fail
  no_expand : Bytes → List Bytes → Fail
  needs_ref : Bytes → Fail
  -- vault.go: errBadPassphrase
  bad_passphrase : Fail
  not_a_vault newer_format too_large no_such_file io_error corrupted : Fail
  weak_iters excessive_iters : ℕ → Fail
  removed_meanwhile appeared_meanwhile changed_meanwhile : Fail
  -- askpass.go and term.go
  gave_up not_started no_output overlong loose_mode not_regular empty_passphrase
        passphrases_differ :
      Fail
  -- cache.go
  malformed bad_hex bad_ttl no_cache bad_service no_payload bad_payload : Fail
  -- cache_linux.go: the errno of a call, and errors.Join
  keyring : ℕ → Fail
  joined : Fail → Fail → Fail
  -- chain.go: abortErr, an end of the input, the error of a vault above the nearest one, and the
  -- error of one key of one vault
  abort : Fail → Fail
  end_of_input no_vault : Fail
  inherited : Bytes → Fail → Fail
  in_vault : Bytes → Bytes → Fail → Fail
  -- main.go
  inside_shell outside_shell no_program : Fail
  vault_gone bad_duration : Bytes → Fail
  nothing_cached : Fail
  unknown_command : Bytes → Fail
  no_inventory bad_inventory bad_entry contradicting : Fail
  bad_key bad_flag never_exported comma_key no_key no_key_here : Bytes → Fail
  inherited_from_there : Bytes → Bytes → Fail
  usage : Fail
  -- worktree.go, and cache_linux.go and term.go on a call of the kernel
  no_worktree nul_in_path ioctl_failed : Fail
  -- history.go
  bad_step bad_count : Bytes → Fail
  no_history : Bytes → Fail
  too_far : ℕ → Bytes → Fail
  already_unset : Bytes → Fail

pub data Result {ℓ} (A : Type ℓ) : Type ℓ where
  ok : A → Result A
  err : Fail → Result A

-- `if err != nil { return err }` between two steps
infixl 5 ◌>>=◌
abbrev pub ◌>>=◌ {ℓ κ} : {A : Type ℓ} {B : Type κ} → Result A → (A → Result B) → Result B
err e >>= more = err e
ok got >>= more = more got

-- `err == errBadPassphrase`
abbrev pub is_bad_passphrase : Fail → Bool
is_bad_passphrase bad_passphrase = true
is_bad_passphrase e = false

-- `errors.As(err, &abortErr{})`: an abort, or an error that wraps one
unfoldable pub is_abort : Fail → Bool
is_abort (abort e) = true
is_abort (inherited p e) = is_abort e
is_abort (in_vault k p e) = is_abort e
is_abort (joined d e) = is_abort d || is_abort e
is_abort e = false

pub Result-cases {ℓ} :
    {A : Type ℓ} (r : Result A) → ((e : Fail) × (r ≡ err e)) ⊎ ((a : A) × (r ≡ ok a))
Result-cases (err e) = inl (e, refl)
Result-cases (ok a) = inr (a, refl)

-- What a chain of two steps that came through says of each.
pub >>=-ok {ℓ κ} :
    {A : Type ℓ} {B : Type κ} {b : B} (step : Result A) (more : A → Result B)
    → step >>= more ≡ ok b
    → (a : A) × (step ≡ ok a) × (more a ≡ ok b)
>>=-ok (err e) more came_through = cc
>>=-ok (ok a) more came_through = (a, refl, came_through)
