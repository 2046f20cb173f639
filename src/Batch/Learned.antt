-- ===== src/Batch/Learned.antt =====
-- chain.go: how eachVault's run opens a vault or fails to, and what each of its passes learns.
use schain.Prelude.{◌≡◌, ◌⊎◌, true, Option, none, some, inl, inr, [], ◌∷◌, arith}
use schain.Prelude.Text.{Bytes}
use schain.Fail.{Fail, ok, err}
use schain.Vault.{Vault}
use schain.Unlock.{Doors, Answers, from_source}
use schain.Batch.{cached}
use schain.Batch.Tally.{Learns}

-- The text is one of those typed, before the prompts fail.
abbrev pub Typed : Bytes → Answers → Type 0
Typed s [] = ⊥
Typed s (err e ∷ as') = ⊥
Typed s (ok p ∷ as') = (s ≡ p) ⊎ Typed s as'

module _ (fn : Bytes → Vault → Option Fail) (d : Doors) (answers : Answers) where
  -- How the run has opened a vault.
  abbrev pub Opened : Bytes → Vault → Type 0
  Opened p v =
      (d.open_cached p ≡ some v)
      ⊎ (((d.has_source ≡ true) × (from_source d p ≡ ok v))
          ⊎ ((s : Bytes) × Typed s answers × (d.open_vault p s ≡ ok v)))

  abbrev pub IsDone : Bytes → Type 0
  IsDone p = (v : Vault) × Opened p v × (fn p v ≡ none)

  -- How it has failed to.
  abbrev pub Refused : Bytes → Fail → Type 0
  Refused p e =
      ((d.has_source ≡ true) × (from_source d p ≡ err e))
      ⊎ ((s : Bytes) × Typed s answers × (d.open_vault p s ≡ err e))

  abbrev pub IsShut : Bytes → Type 0
  IsShut p = (d.open_cached p ≡ none) × (e : Fail) × Refused p e

  abbrev pub IsClosed : Bytes → Type 0
  IsClosed p = d.open_cached p ≡ none

  pub cached-Learns : Learns fn (cached d) IsDone IsShut (λ p. Unit) IsClosed
  unfolding cached
  cached-Learns = record {
    opens = λ p v u e n. (v, inl (opened p v e), n);
    refuses = λ p e u q. closed p e q;
    gives_up = λ p e u q b. absurd (ground (arith, q, b));
  }
    where
      opened : (p : Bytes) (v : Vault) → cached d p ≡ ok v → d.open_cached p ≡ some v
      opened p v e = ground (arith, e)

      closed : (p : Bytes) (e : Fail) → cached d p ≡ err e → d.open_cached p ≡ none
      closed p e q = ground (arith, q)

  pub source-Learns : d.has_source ≡ true → Learns fn (from_source d) IsDone IsShut IsClosed IsShut
  source-Learns has = record {
    opens = λ p v c e n. (v, inr (inl (has, e)), n);
    refuses = λ p e c q. (c, e, inl (has, q));
    gives_up = λ p e c q b. (c, e, inl (has, q));
  }

  pub answer-Learns :
      (s : Bytes)
      → Typed s answers
      → Learns fn (λ p. d.open_vault p s) IsDone IsShut IsClosed IsShut
  answer-Learns s t = record {
    opens = λ p v c e n. (v, inr (inr (s, t, e)), n);
    refuses = λ p e c q. (c, e, inr (s, t, q));
    gives_up = λ p e c q b. (c, e, inr (s, t, q));
  }
