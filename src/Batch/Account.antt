-- ===== src/Batch/Account.antt =====
-- Every vault of a run is accounted for.
use schain.Prelude.{
  ◌+◌, Bool, ◌≡◌, refl, false, true, Option, none, List, [], ◌∷◌, arith, length, if◌then◌else◌, All,
}
use schain.Prelude.Text.{Bytes}
use schain.Prelude.Count.{count}
use schain.Fail.{Fail}
use schain.Vault.{Vault}
use schain.Unlock.{Doors, Answers}
use schain.Batch.{VaultRun, pass, cached, start_run, ask_each, by_source, each_vault}
use schain.Batch.Tally.{Tally, Accounts, pass-Accounts}
use schain.Batch.Learned.{IsDone, IsShut, IsClosed, cached-Learns}
use schain.Batch.Rounds.{by_source-Accounts, ask_each-Accounts}

module _ (fn : Bytes → Vault → Option Fail) (d : Doors) (paths : List Bytes)
    (answers : Answers) where
  -- What a run has made of the paths that it was given.
  abbrev pub Accounted : VaultRun → Type 0
  Accounted r =
      (finished : List Bytes) × (length finished ≡ r.done)
      × All (IsDone fn d answers) finished
      × All (IsShut fn d answers) r.skipped
      × ((q : Bytes) → count q finished + count q r.skipped ≡ count q paths)

  Tally-Accounted :
      (Left : Bytes → Type 0) (r : VaultRun)
      → Tally (IsDone fn d answers) (IsShut fn d answers) Left (λ q. count q paths) r []
      → Accounted r
  Tally-Accounted Left r t = (
    t.finished,
    t.length-finished,
    t.all_done,
    t.all_shut,
    λ q. unfold count in omega (arith, t.each_once q),
  )

  units : (ps : List Bytes) → All {0, 0} (λ p. Unit) ps
  units [] = tt
  units (p ∷ ps) = (tt, units ps)

  start-Accounts :
      Accounts
        (IsDone fn d answers)
        (IsShut fn d answers)
        (λ p. Unit)
        (λ q. count q paths)
        (start_run, paths)
  unfolding count
  start-Accounts f = record {
    finished = [];
    length-finished = refl;
    all_done = tt;
    all_shut = tt;
    all_left = units paths;
    each_once = λ q. omega arith;
  }

  after_cache :
      Accounts
        (IsDone fn d answers)
        (IsShut fn d answers)
        (IsClosed fn d answers)
        (λ q. count q paths)
        (pass fn paths (cached d) start_run)
  after_cache =
      pass-Accounts fn (cached d) (IsDone fn d answers) (IsShut fn d answers) (λ p. Unit)
        (IsClosed fn d answers) paths start_run (λ q. count q paths) (cached-Learns fn d answers)
        start-Accounts

  -- A run that no error has ended counts the vaults of a list as done, and that list together with
  -- those that the run has reported as skipped has every path exactly as often as it was given: none is
  -- lost and none is counted twice. Each vault done was opened, out of the cache, by the passphrase
  -- source or by a passphrase that was typed, and the caller's function succeeded on it. Each vault
  -- skipped was not in the cache, and the source or a passphrase that was typed failed to open it.
  pub each_vault_counts :
      (each_vault fn d paths answers).0.failed ≡ none → Accounted (each_vault fn d paths answers).0
  unfolding each_vault
  each_vault_counts = by_door d.has_source refl
    where
      s : VaultRun × List Bytes
      s = pass fn paths (cached d) start_run

      run : Bool → VaultRun
      run b = (if b then (by_source fn d s, answers) else ask_each fn d answers s.1 s.0).0

      by_door : (b : Bool) → d.has_source ≡ b → (run b).failed ≡ none → Accounted (run b)
      by_door true has f =
          Tally-Accounted (IsShut fn d answers) (run true)
            (by_source-Accounts fn d answers (λ q. count q paths) s.0 s.1 has after_cache f)
      by_door false has f = Tally-Accounted (IsClosed fn d answers) (run false) (
          ask_each-Accounts fn d answers (λ q. count q paths) answers s.1 s.0 (λ x t. t) after_cache
            f)
