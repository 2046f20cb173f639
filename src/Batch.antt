-- ===== src/Batch.antt =====
-- chain.go: eachVault, the passes over several vaults at once. The results of a pass come back in the
-- order of the paths, so a pass is a walk over the paths with the result of each.
-- `fn` is the caller's function on an opened vault, with none for success.
pub mod Tally
pub mod Learned
pub mod Rounds
pub mod Account
use schain.Prelude.{
  ℕ, zero, suc, ◌+◌, Bool, true, false, ◌&&◌, ◌||◌, not, Option, none, some, List, [], ◌∷◌, ◌++◌,
  if◌then◌else◌, length, map,
}
use schain.Prelude.Text.{Bytes, str_eq}
use schain.Fail.{
  Fail, Result, ok, err, bad_passphrase, is_bad_passphrase, is_abort, abort, end_of_input,
}
use schain.Vault.{Vault}
use schain.Unlock.{Doors, Answers, prompt, from_source}

-- `failed` is the field `err`.
pub record VaultRun : Type 0 where
  pub done : ℕ
  pub skipped : List Bytes
  pub failed : Option Fail

-- One worker's outcome: the vault stayed shut, `fn` failed, or all went well.
pub data VaultResult : Type 0 where
  open_err fn_err : Fail → VaultResult
  fine : VaultResult

abbrev pub keep_first : Option Fail → Fail → Option Fail
keep_first none e = some e
keep_first (some x) e = some x

unfoldable pub skip : Bytes → Fail → VaultRun → VaultRun
skip path e r =
    if is_abort e
    then record r { failed = keep_first r.failed e }
    else record r { skipped = r.skipped ++ path ∷ [] }

-- The body of the loop over the results, with the paths left so far.
unfoldable pub count_result : Bytes → VaultResult → VaultRun × List Bytes → VaultRun × List Bytes
unfolding skip
count_result p (open_err e) (r, left) =
    if is_bad_passphrase e then (r, left ++ p ∷ []) else (skip p e r, left)
count_result p (fn_err e) (r, left) = (record r { failed = keep_first r.failed e }, left)
count_result p fine (r, left) = (record r { done = r.done + 1 }, left)

unfoldable pub count_results :
    List (Bytes × VaultResult) → VaultRun × List Bytes → VaultRun × List Bytes
unfolding count_result
count_results [] s = s
count_results ((p, x) ∷ l) s = count_results l (count_result p x s)

abbrev pub start_run : VaultRun
start_run = record { done = 0; skipped = []; failed = none }

unfoldable pub skip_all : List Bytes → VaultRun → VaultRun
unfolding skip
skip_all [] r = r
skip_all (p ∷ ps) r = skip_all ps (skip p bad_passphrase r)

-- What a round leaves to ask about: the vault just asked about is not asked about again. After an
-- error nothing more is done.
unfoldable pub settle : Bytes → VaultRun × List Bytes → VaultRun × List Bytes
unfolding skip
settle asked (r, []) = (r, [])
settle asked (r, p ∷ ps) = elim r.failed [
  | some e ↦ (r, p ∷ ps)
  | none ↦ if str_eq p asked then (skip asked bad_passphrase r, ps) else (r, p ∷ ps)
]

unfoldable pub cached : Doors → Bytes → Result Vault
cached d p = elim (d.open_cached p) [ none ↦ err bad_passphrase | some v ↦ ok v ]

module _ (fn : Bytes → Vault → Option Fail) where
  -- The function that a pass runs on each path.
  unfoldable pub visit : (Bytes → Result Vault) → Bytes → VaultResult
  visit open' p = elim (open' p) [
    | err e ↦ open_err e
    | ok v ↦ elim (fn p v) [ none ↦ fine | some e ↦ fn_err e ]
  ]

  -- The run after the pass, and the paths whose passphrase it did not have.
  unfoldable pub pass : List Bytes → (Bytes → Result Vault) → VaultRun → VaultRun × List Bytes
  unfolding count_results visit
  pass paths open' r = elim r.failed [
    | some e ↦ (r, paths)
    | none ↦ count_results (map (λ p. (p, visit open' p)) paths) (r, [])
  ]

  module _ (d : Doors) where
    -- The loop of prompts. It recurs on the answers: each round takes one.
    unfoldable pub ask_each : Answers → List Bytes → VaultRun → VaultRun × Answers
    ask_each as' [] r = (r, as')
    ask_each [] (asked ∷ left) r = elim r.failed [
      | some e ↦ (r, [])
      | none ↦ (record r { failed = some (abort end_of_input) }, [])
    ]
    ask_each (err e ∷ as') (asked ∷ left) r = elim r.failed [
      | some x ↦ (r, err e ∷ as')
      | none ↦ (record r { failed = some (abort e) }, as')
    ]
    ask_each (ok p ∷ as') (asked ∷ left) r = elim r.failed [
      | some x ↦ (r, ok p ∷ as')
      | none ↦
          let (r', left') = settle asked (pass (asked ∷ left) (λ q. d.open_vault q p) r) in
          ask_each as' left' r'
    ]

    unfoldable pub by_source : VaultRun × List Bytes → VaultRun
    by_source (r, left) =
        let (r', left') = pass left (from_source d) r in
        elim r'.failed [ some e ↦ r' | none ↦ skip_all left' r' ]

    unfoldable pub each_vault : List Bytes → Answers → VaultRun × Answers
    unfolding pass cached by_source ask_each
    each_vault paths answers =
        let (r, left) = pass paths (cached d) start_run in
        if d.has_source then (by_source (r, left), answers) else ask_each answers left r
