-- ===== src/Batch/Rounds.antt =====
-- chain.go: the rounds of eachVault keep the account of its vaults.
use mathlib.Core.Path.{subst}
use schain.Prelude.{
  ℕ, Bool, ◌≡◌, refl, false, true, Option, none, some, inl, inr, List, [], ◌∷◌, ◌++◌, arith,
  if◌then◌else◌, All, All-append, Option-cases,
}
use schain.Prelude.Text.{Bytes, str_eq, str_eq_sound}
use schain.Prelude.Count.{count, count-append}
use schain.Fail.{Fail, ok, err, is_abort}
use schain.Vault.{Vault}
use schain.Unlock.{Doors, Answers, from_source}
use schain.Batch.{VaultRun, skip, pass, skip_all, settle, ask_each, by_source}
use schain.Batch.Tally.{Accounts, pass-Accounts}
use schain.Batch.Learned.{Typed, IsDone, IsShut, IsClosed, source-Learns, answer-Learns}

module _ (fn : Bytes → Vault → Option Fail) (d : Doors) (answers : Answers)
    (total : Bytes → ℕ) where
  -- The first of the paths left is skipped.
  skip_first :
      (p : Bytes) (ps : List Bytes) (r : VaultRun)
      → Accounts (IsDone fn d answers) (IsShut fn d answers) (IsShut fn d answers) total (r, p ∷ ps)
      → Accounts
          (IsDone fn d answers)
          (IsShut fn d answers)
          (IsShut fn d answers)
          total
          (record r { skipped = r.skipped ++ p ∷ [] }, ps)
  skip_first p ps r h f =
      let t = h f in
      record {
        finished = t.finished;
        length-finished = t.length-finished;
        all_done = t.all_done;
        all_shut =
            All-append (IsShut fn d answers) r.skipped (p ∷ []) t.all_shut (t.all_left.0, tt);
        all_left = t.all_left.1;
        each_once =
            λ q. unfold count in ground (arith, t.each_once q, count-append q r.skipped (p ∷ []));
      }

  settle-Accounts :
      (asked : Bytes) (s : VaultRun × List Bytes)
      → Accounts (IsDone fn d answers) (IsShut fn d answers) (IsShut fn d answers) total s
      → Accounts
          (IsDone fn d answers)
          (IsShut fn d answers)
          (IsShut fn d answers)
          total
          (settle asked s)
  unfolding settle skip is_abort
  settle-Accounts asked (r, []) h = h
  settle-Accounts asked (r, p ∷ ps) h = by_failed r.failed refl
    where
      same :
          (b : Bool)
          → str_eq p asked ≡ b
          → Accounts
              (IsDone fn d answers)
              (IsShut fn d answers)
              (IsShut fn d answers)
              total
              (if b then (record r { skipped = r.skipped ++ asked ∷ [] }, ps) else (r, p ∷ ps))
      same true y =
          subst
            (λ x.
              Accounts (IsDone fn d answers) (IsShut fn d answers) (IsShut fn d answers) total
                (record r { skipped = r.skipped ++ x ∷ [] }, ps))
            (str_eq_sound p asked y) (skip_first p ps r h)
      same false n = h

      by_failed :
          (o : Option Fail)
          → r.failed ≡ o
          → Accounts
              (IsDone fn d answers)
              (IsShut fn d answers)
              (IsShut fn d answers)
              total
              (elim o as (λ _. VaultRun × List Bytes) [
                | some e ↦ (r, p ∷ ps)
                | none ↦
                    if str_eq p asked
                    then (record r { skipped = r.skipped ++ asked ∷ [] }, ps)
                    else (r, p ∷ ps)
              ])
      by_failed (some e) q = h
      by_failed none q = same (str_eq p asked) refl

  skip_all-Accounts :
      (ps : List Bytes) (r : VaultRun)
      → Accounts (IsDone fn d answers) (IsShut fn d answers) (IsShut fn d answers) total (r, ps)
      → Accounts
          (IsDone fn d answers)
          (IsShut fn d answers)
          (IsShut fn d answers)
          total
          (skip_all ps r, [])
  unfolding skip_all skip is_abort
  skip_all-Accounts [] r h = h
  skip_all-Accounts (p ∷ ps) r h =
      skip_all-Accounts ps (record r { skipped = r.skipped ++ p ∷ [] }) (skip_first p ps r h)

  weakened :
      (s : VaultRun × List Bytes)
      → Accounts (IsDone fn d answers) (IsShut fn d answers) (IsShut fn d answers) total s
      → Accounts (IsDone fn d answers) (IsShut fn d answers) (IsClosed fn d answers) total s
  weakened (r, left) h f =
      let t = h f in
      record {
        finished = t.finished;
        length-finished = t.length-finished;
        all_done = t.all_done;
        all_shut = t.all_shut;
        all_left = closed left t.all_left;
        each_once = t.each_once;
      }
    where
      closed : (ps : List Bytes) → All (IsShut fn d answers) ps → All (IsClosed fn d answers) ps
      closed [] c = tt
      closed (p ∷ ps) ((c, e, w), cs) = (c, closed ps cs)

  pub by_source-Accounts :
      (r : VaultRun) (left : List Bytes)
      → d.has_source ≡ true
      → Accounts (IsDone fn d answers) (IsShut fn d answers) (IsClosed fn d answers) total (r, left)
      → Accounts
          (IsDone fn d answers)
          (IsShut fn d answers)
          (IsShut fn d answers)
          total
          (by_source fn d (r, left), [])
  unfolding by_source
  by_source-Accounts r left has h = by_failed s.0.failed refl
    where
      s : VaultRun × List Bytes
      s = pass fn left (from_source d) r

      known : Accounts (IsDone fn d answers) (IsShut fn d answers) (IsShut fn d answers) total s
      known =
          pass-Accounts fn (from_source d) (IsDone fn d answers) (IsShut fn d answers)
            (IsClosed fn d answers) (IsShut fn d answers) left r total
            (source-Learns fn d answers has) h

      by_failed :
          (o : Option Fail)
          → s.0.failed ≡ o
          → Accounts
              (IsDone fn d answers)
              (IsShut fn d answers)
              (IsShut fn d answers)
              total
              (elim o as (λ _. VaultRun) [ some e ↦ s.0 | none ↦ skip_all s.1 s.0 ], [])
      by_failed none q = skip_all-Accounts s.1 s.0 known
      by_failed (some e) q = λ f. absurd (ground (arith, q, f))

  pub ask_each-Accounts :
      (as' : Answers) (left : List Bytes) (r : VaultRun)
      → ((s : Bytes) → Typed s as' → Typed s answers)
      → Accounts (IsDone fn d answers) (IsShut fn d answers) (IsClosed fn d answers) total (r, left)
      → Accounts
          (IsDone fn d answers)
          (IsShut fn d answers)
          (IsClosed fn d answers)
          total
          ((ask_each fn d as' left r).0, [])
  unfolding ask_each
  ask_each-Accounts as' [] r into h = h
  ask_each-Accounts [] (asked ∷ left) r into h = λ f. elim (Option-cases r.failed) [
    | inl e ↦ absurd (ground (arith, e, f))
    | inr (x, e) ↦ absurd (ground (arith, e, f))
  ]
  ask_each-Accounts (err a ∷ as') (asked ∷ left) r into h = λ f. elim (Option-cases r.failed) [
    | inl e ↦ absurd (ground (arith, e, f))
    | inr (x, e) ↦ absurd (ground (arith, e, f))
  ]
  ask_each-Accounts (ok p ∷ as') (asked ∷ left) r into h =
      let next = ask_each-Accounts as' s.1 s.0 (λ x t. into x (inr t)) in
      by_failed next r.failed refl
    where
      s : VaultRun × List Bytes
      s = settle asked (pass fn (asked ∷ left) (λ q. d.open_vault q p) r)

      round : Accounts (IsDone fn d answers) (IsShut fn d answers) (IsClosed fn d answers) total s
      round = weakened s (
          settle-Accounts asked _ (
            pass-Accounts fn (λ q. d.open_vault q p) (IsDone fn d answers) (IsShut fn d answers)
              (IsClosed fn d answers) (IsShut fn d answers) (asked ∷ left) r total
              (answer-Learns fn d answers p (into p (inl refl))) h))

      by_failed :
          (Accounts (IsDone fn d answers) (IsShut fn d answers) (IsClosed fn d answers) total s
            → Accounts
                (IsDone fn d answers)
                (IsShut fn d answers)
                (IsClosed fn d answers)
                total
                ((ask_each fn d as' s.1 s.0).0, []))
          → (o : Option Fail) → r.failed ≡ o
          → Accounts (IsDone fn d answers) (IsShut fn d answers) (IsClosed fn d answers) total (
            (elim o as (λ _. VaultRun × Answers) [
              | some x ↦ (r, ok p ∷ as')
              | none ↦ ask_each fn d as' s.1 s.0
            ]).0,
            [],
          )
      by_failed next none q = next round
      by_failed next (some x) q = λ f. absurd (ground (arith, q, f))
