-- ===== src/Batch/Tally.antt =====
-- chain.go: what a state of eachVault's run accounts for, and that a pass keeps it.
use schain.Prelude.{
  ℕ, ◌+◌, ◌≡◌, refl, ◌∙◌, false, Option, none, some, inl, inr, List, [], ◌∷◌, ◌++◌, arith, length,
  length-append, map, All, All-append, Bool-cases, Option-cases,
}
use schain.Prelude.Text.{Bytes}
use schain.Prelude.Count.{count, count-append}
use schain.Fail.{Fail, Result, ok, err, Result-cases, is_abort, is_bad_passphrase}
use schain.Vault.{Vault}
use schain.Batch.{
  VaultRun, VaultResult, open_err, fn_err, fine, skip, count_result, count_results, visit, pass,
  keep_first,
}

-- A list of the vaults done, such that it, the vaults skipped and those left have each path as often
-- as `total` says. `Done`, `Shut` and `Left` are what is known of their members.
pub record Tally (Done Shut Left : Bytes → Type 0) (total : Bytes → ℕ) (r : VaultRun)
    (left : List Bytes) : Type 0 where
  pub finished : List Bytes
  pub length-finished : length finished ≡ r.done
  pub all_done : All Done finished
  pub all_shut : All Shut r.skipped
  pub all_left : All Left left
  pub each_once : (q : Bytes) → count q finished + count q r.skipped + count q left ≡ total q

-- A state of a pass accounts for all, as long as no error has ended the run.
abbrev pub Accounts :
    (Bytes → Type 0)
    → (Bytes → Type 0)
    → (Bytes → Type 0)
    → (Bytes → ℕ)
    → VaultRun × List Bytes
    → Type 0
Accounts Done Shut Left total s = s.0.failed ≡ none → Tally Done Shut Left total s.0 s.1

module _ (Done Shut Left : Bytes → Type 0) (total total' : Bytes → ℕ) (r : VaultRun)
    (left : List Bytes) where
  -- The same tally of the same totals, written in another way.
  Tally-total :
      ((q : Bytes) → total q ≡ total' q)
      → Tally Done Shut Left total r left
      → Tally Done Shut Left total' r left
  Tally-total same t = record {
    finished = t.finished;
    length-finished = t.length-finished;
    all_done = t.all_done;
    all_shut = t.all_shut;
    all_left = t.all_left;
    each_once = λ q. t.each_once q ∙ same q;
  }

module _ (Done Shut Left : Bytes → Type 0) where
  -- What is known of a path by its result.
  abbrev Fits : Bytes → VaultResult → Type 0
  Fits p (open_err e) = Left p × (is_bad_passphrase e ≡ false → Shut p)
  Fits p (fn_err e) = Unit
  Fits p fine = Done p

  skip-Accounts :
      (total : Bytes → ℕ) (p : Bytes) (e : Fail) (r : VaultRun) (left : List Bytes)
      → Shut p
      → Accounts Done Shut Left total (r, left)
      → Accounts Done Shut Left (λ q. total q + count q (p ∷ [])) (skip p e r, left)
  unfolding skip count
  skip-Accounts total p e r left s h = elim (Bool-cases (is_abort e)) [
    | inl y ↦ rw (skip, y) (λ f. absurd (stopped r.failed f))
    | inr n ↦
        rw (skip, n)
          (λ f.
            let t = h f in
            record {
              finished = t.finished;
              length-finished = t.length-finished;
              all_done = t.all_done;
              all_shut = All-append Shut r.skipped (p ∷ []) t.all_shut (s, tt);
              all_left = t.all_left;
              each_once = λ q. omega (arith, t.each_once q, count-append q r.skipped (p ∷ []));
            })
  ]
    where
      stopped : (o : Option Fail) → keep_first o e ≡ none → ⊥
      stopped none f = cc
      stopped (some x) f = cc

  count_result-Accounts :
      (total : Bytes → ℕ) (p : Bytes) (x : VaultResult) (r : VaultRun) (left : List Bytes)
      → Fits p x
      → Accounts Done Shut Left total (r, left)
      → Accounts Done Shut Left (λ q. total q + count q (p ∷ [])) (count_result p x (r, left))
  unfolding count_result count
  count_result-Accounts total p (open_err e) r left (l, s) h =
      elim (Bool-cases (is_bad_passphrase e)) [
        | inl y ↦ rw y (λ f.
            let t = h f in
            record {
              finished = t.finished;
              length-finished = t.length-finished;
              all_done = t.all_done;
              all_shut = t.all_shut;
              all_left = All-append Left left (p ∷ []) t.all_left (l, tt);
              each_once = λ q. omega (arith, t.each_once q, count-append q left (p ∷ []));
            })
        | inr n ↦ rw n (skip-Accounts total p e r left (s n) h)
      ]
  count_result-Accounts total p (fn_err e) r left u h = λ f. absurd (stopped r.failed f)
    where
      stopped : (o : Option Fail) → keep_first o e ≡ none → ⊥
      stopped none f = cc
      stopped (some x) f = cc
  count_result-Accounts total p fine r left d h = λ f.
      let t = h f in
      record {
        finished = t.finished ++ p ∷ [];
        length-finished = omega (arith, t.length-finished, length-append t.finished (p ∷ []));
        all_done = All-append Done t.finished (p ∷ []) t.all_done (d, tt);
        all_shut = t.all_shut;
        all_left = t.all_left;
        each_once = λ q. omega (arith, t.each_once q, count-append q t.finished (p ∷ []));
      }

  -- What is known of the paths of a pass, by what each one's result is.
  count_results-Accounts :
      (visit' : Bytes → VaultResult) (ps : List Bytes) (total : Bytes → ℕ)
      (s : VaultRun × List Bytes)
      → All (λ p. Fits p (visit' p)) ps
      → Accounts Done Shut Left total s
      → Accounts Done Shut Left
          (λ q. total q + count q ps)
          (count_results (map (λ p. (p, visit' p)) ps) s)
  unfolding count_results count
  count_results-Accounts visit' [] total s fits h f =
      Tally-total Done Shut Left total _ s.0 s.1 (λ q. omega arith) (h f)
  count_results-Accounts visit' (p ∷ ps) total (r, left) (fit, fits) h f =
      Tally-total Done Shut Left _ _ _ _ (λ q. ground arith)
        (count_results-Accounts visit' ps (λ q. total q + count q (p ∷ []))
          (count_result p (visit' p) (r, left)) fits
          (count_result-Accounts total p (visit' p) r left fit h) f)

-- What one pass knows of a path: whether its vault opens and `fn` succeeds, or why it stays shut.
pub record Learns (fn : Bytes → Vault → Option Fail) (open' : Bytes → Result Vault)
    (Done Shut Before After : Bytes → Type 0) : Type 0 where
  pub opens : (p : Bytes) (v : Vault) → Before p → open' p ≡ ok v → fn p v ≡ none → Done p
  pub refuses : (p : Bytes) (e : Fail) → Before p → open' p ≡ err e → After p
  pub gives_up :
      (p : Bytes) (e : Fail) → Before p → open' p ≡ err e → is_bad_passphrase e ≡ false → Shut p

module _ (fn : Bytes → Vault → Option Fail) (open' : Bytes → Result Vault)
    (Done Shut Before After : Bytes → Type 0) where
  visit-Fits :
      (p : Bytes)
      → Learns fn open' Done Shut Before After
      → Before p
      → Fits Done Shut After p (visit fn open' p)
  unfolding visit
  visit-Fits p l b = elim (Result-cases (open' p)) [
    | inl (e, q) ↦ rw (Fits, q) (l.refuses p e b q, l.gives_up p e b q)
    | inr (v, q) ↦ elim (Option-cases (fn p v)) [
      | inl n ↦ rw (Fits, q, n) (l.opens p v b q n)
      | inr (e, n) ↦ rw (Fits, q, n) tt
    ]
  ]

  -- A pass takes what was left, learns more of each, and still accounts for all.
  pub pass-Accounts :
      (paths : List Bytes) (r : VaultRun) (total : Bytes → ℕ)
      → Learns fn open' Done Shut Before After
      → Accounts Done Shut Before total (r, paths)
      → Accounts Done Shut After total (pass fn paths open' r)
  unfolding pass
  pass-Accounts paths r total l h = by_failed r.failed refl
    where
      all_fit :
          (ps : List Bytes)
          → All Before ps
          → All (λ p. Fits Done Shut After p (visit fn open' p)) ps
      all_fit [] b = tt
      all_fit (p ∷ ps) (b, bs) = (visit-Fits p l b, all_fit ps bs)

      go :
          r.failed ≡ none
          → Accounts Done Shut After total
              (count_results (map (λ p. (p, visit fn open' p)) paths) (r, []))
      go n f =
          let b = h n in
          Tally-total Done Shut After _ _ _ _ b.each_once (
            count_results-Accounts Done Shut After (visit fn open') paths
              (λ q. count q b.finished + count q r.skipped) (r, []) (all_fit paths b.all_left)
              (λ _. record {
                finished = b.finished;
                length-finished = b.length-finished;
                all_done = b.all_done;
                all_shut = b.all_shut;
                all_left = tt;
                each_once = λ q. unfold count in omega arith;
              })
              f)

      by_failed :
          (o : Option Fail)
          → r.failed ≡ o
          → Accounts Done Shut After total (elim o as (λ _. VaultRun × List Bytes) [
            | some e ↦ (r, paths)
            | none ↦ count_results (map (λ p. (p, visit fn open' p)) paths) (r, [])
          ])
      by_failed none q = go q
      by_failed (some e) q = λ f. absurd (ground (arith, q, f))
