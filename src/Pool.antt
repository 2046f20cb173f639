-- ===== src/Pool.antt =====
-- chain.go: forEach, with its goroutines as steps that come in any order. A goroutine waits for the
-- semaphore, then works on its item, then has written its result into its own place.
pub mod Runs
use schain.Prelude.{
  ℕ, zero, suc, ◌+◌, ◌<◌, ◌≡◌, Option, none, some, List, [], ◌∷◌, ◌++◌, if◌then◌else◌, ltb,
}

-- vaultWorkers, from GOMAXPROCS
unfoldable pub vault_workers : ℕ → ℕ
vault_workers n = if ltb 1 n then n else 1

pub data Slot (A R : Type 0) : Type 0 where
  waiting : A → Slot A R
  running : A → Slot A R
  finished : R → Slot A R

module _ {A R : Type 0} where
  -- After the loop that starts the goroutines.
  unfoldable pub spawn : List A → List (Slot A R)
  spawn [] = []
  spawn (a ∷ as') = waiting a ∷ spawn as'

  -- How many hold the semaphore.
  abbrev pub held : List (Slot A R) → ℕ
  held [] = 0
  held (waiting a ∷ s) = held s
  held (running a ∷ s) = suc (held s)
  held (finished r ∷ s) = held s

  module _ (fn : A → R) where
    -- What one goroutine may do next; it takes the semaphore only if there is room in it, which the
    -- test says.
    pub data Move (room : Type 0) : List (Slot A R) → List (Slot A R) → Type 0 where
      acquire : {a : A} {s : List (Slot A R)} → room → Move room (waiting a ∷ s) (running a ∷ s)
      release : {a : A} {s : List (Slot A R)} → Move room (running a ∷ s) (finished (fn a) ∷ s)
      other : {x : Slot A R} {s t : List (Slot A R)} → Move room s t → Move room (x ∷ s) (x ∷ t)

    -- A step of the pool with a semaphore of that many places.
    abbrev pub Step : ℕ → List (Slot A R) → List (Slot A R) → Type 0
    Step width s t = Move (held s < width) s t

    -- Runs, with the number of their steps.
    pub data Run (width : ℕ) : ℕ → List (Slot A R) → List (Slot A R) → Type 0 where
      stop : {s : List (Slot A R)} → Run width zero s s
      next :
          {n : ℕ} {s t u : List (Slot A R)}
          → Step width s t
          → Run width n t u
          → Run width (suc n) s u

  -- `out` once wg.Wait returns, which it does when all are finished.
  unfoldable pub results : List (Slot A R) → Option (List R)
  results [] = some []
  results (waiting a ∷ s) = none
  results (running a ∷ s) = none
  results (finished r ∷ s) = elim (results s) [ none ↦ none | some rs ↦ some (r ∷ rs) ]
