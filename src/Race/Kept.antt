-- ===== src/Race/Kept.antt =====
-- vault.go: no change is lost while no write falls between another writer's check and its write.
use mathlib.Core.Path.{subst}
use schain.Prelude.{
  ℕ, ◌≡◌, refl, sym, ap, ◌∙◌, ◌⊎◌, inl, inr, ◌==◌, true, false, Option, none, some, List, [], ◌∷◌,
  arith, All, Bool-cases,
}
use schain.Prelude.Text.{Bytes, str_eq_sound}
use schain.Fail.{ok}
use schain.Vault.{Vault}
use schain.Format.{Crypto, new_vault, check_unchanged, rekey, file_of}
use schain.History.{switch_to}
use schain.History.Reached.{Edit, puts, drops, expands, switches, purges_all, purges}
use schain.Format.Stamps.{
  sum_of, open_vault-stamp, open_vault_key-stamp, checked_blob, checked_none,
}
use schain.Vault.Stamps.{put-stamp, drop-stamp, set_expand-stamp}
use schain.Race.{
  Writer, away, holding, checked, Save, System, with_writer, disturb, Opens, by_passphrase, by_key,
  as_new, Step, opens, edits, rekeys, checks, writes, leaves, Reach, first, later,
}

-- The writes follow one another: each replaced what the one before it wrote, the first the start.
abbrev pub IsChain : Option Bytes → Option Bytes → List Save → Type 0
IsChain start file [] = file ≡ start
IsChain start file (s ∷ ss) = (file ≡ some s.written) × IsChain start s.replaced ss

-- A write that nobody disturbed replaced the very file that its writer had opened and edited.
abbrev pub IsKept : Save → Type 0
IsKept s = (s.undisturbed ≡ false) ⊎ (s.replaced ≡ s.opened)

module _ (x : Crypto) (unlike : (a b : Bytes) → x.sum a ≡ x.sum b → a ≡ b) where
  -- What a writer knows: the stamp is that of the file it opened, and after an undisturbed check that
  -- is the file that stands there.
  abbrev Knows : Option Bytes → Writer → Type 0
  Knows file away = Unit
  Knows file (holding b v) = v.stamp ≡ sum_of x b
  Knows file (checked b v u) = (u ≡ false) ⊎ (file ≡ b)

  Opens-stamp : (file : Option Bytes) (v : Vault) → Opens x file v → v.stamp ≡ sum_of x file
  unfolding new_vault
  Opens-stamp file v (by_passphrase pass h) = open_vault-stamp x file pass v h
  Opens-stamp file v (by_key salt key h) = open_vault_key-stamp x file salt key v h
  Opens-stamp file v (as_new salt pass e h) = sym (ap (λ u. u.stamp) h) ∙ ap (sum_of x) (sym e)

  Edit-stamp : {v w : Vault} → Edit v w → w.stamp ≡ v.stamp
  unfolding switch_to
  Edit-stamp {v} (puts m k val) = put-stamp m k val v
  Edit-stamp {v} (drops m k) = drop-stamp m k v
  Edit-stamp {v} (expands k on) = set_expand-stamp k on v
  Edit-stamp (switches n) = refl
  Edit-stamp purges_all = refl
  Edit-stamp (purges ks m e) = refl

  check_unchanged-same :
      (file b : Option Bytes) (v : Vault)
      → v.stamp ≡ sum_of x b
      → check_unchanged x false file v ≡ ok tt
      → file ≡ b
  check_unchanged-same none none v e h = refl
  check_unchanged-same none (some c) v e h = cc (e, checked_none x v h)
  check_unchanged-same (some blob) none v e h =
      let (s, q, same) = checked_blob x blob v h in cc (e, q)
  check_unchanged-same (some blob) (some c) v e h =
      let (s, q, same) = checked_blob x blob v h in
      let e₁ : x.sum blob ≡ s = str_eq_sound (x.sum blob) s same in
      ap some (unlike blob c (e₁ ∙ ground (arith, e, q)))

  pub record Sound (start : Option Bytes) (s : System) : Type 0 where
    pub known : (i : ℕ) → Knows s.file (s.writers i)
    pub chain : IsChain start s.file s.saves
    pub kept : All IsKept s.saves

  with_writer-Knows :
      (i : ℕ) (w : Writer) (file : Option Bytes) (ws : ℕ → Writer)
      → Knows file w
      → ((j : ℕ) → Knows file (ws j))
      → (j : ℕ) → Knows file (with_writer i w ws j)
  with_writer-Knows i w file ws h hs j = elim (Bool-cases (i == j)) [
    | inl y ↦ rw y h
    | inr n ↦ rw n (hs j)
  ]

  disturb-Knows : (file file' : Option Bytes) (w : Writer) → Knows file w → Knows file' (disturb w)
  disturb-Knows file file' away h = tt
  disturb-Knows file file' (holding b v) h = h
  disturb-Knows file file' (checked b v u) h = inl refl

  Step-Sound : {start : Option Bytes} {s t : System} → Step x s t → Sound start s → Sound start t
  Step-Sound {s} (opens i {v} o) h = record {
    known =
        with_writer-Knows i (holding s.file v) s.file s.writers (Opens-stamp s.file v o) h.known;
    chain = h.chain;
    kept = h.kept;
  }
  Step-Sound {s} (edits i w {b} {v} e d) h = record {
    known = with_writer-Knows i (holding b w) s.file s.writers (Edit-stamp d ∙ knows e) h.known;
    chain = h.chain;
    kept = h.kept;
  }
    where
      knows : s.writers i ≡ holding b v → v.stamp ≡ sum_of x b
      knows q = subst (Knows s.file) q (h.known i)
  Step-Sound {s} (rekeys i salt pass {b} {v} e) h = record {
    known =
        with_writer-Knows i (holding b (rekey x salt pass v)) s.file s.writers (knows e) h.known;
    chain = h.chain;
    kept = h.kept;
  }
    where
      knows : s.writers i ≡ holding b v → (rekey x salt pass v).stamp ≡ sum_of x b
      knows q = unfold rekey in subst (Knows s.file) q (h.known i)
  Step-Sound {s} (checks i {b} {v} e c) h = record {
    known =
        with_writer-Knows i (checked b v true) s.file s.writers
          (inr (check_unchanged-same s.file b v (subst (Knows s.file) e (h.known i)) c)) h.known;
    chain = h.chain;
    kept = h.kept;
  }
  Step-Sound {s} (writes i nonce {b} {v} {u} e) h = record {
    known =
        with_writer-Knows i away (some (file_of x nonce v)) (λ j. disturb (s.writers j)) tt
          (λ j. disturb-Knows s.file (some (file_of x nonce v)) (s.writers j) (h.known j));
    chain = (refl, h.chain);
    kept = (subst (Knows s.file) e (h.known i), h.kept);
  }
  Step-Sound {s} (leaves i) h = record {
    known = with_writer-Knows i away s.file s.writers tt h.known;
    chain = h.chain;
    kept = h.kept;
  }

  Reach-Sound : {start : Option Bytes} {s : System} → Reach x start s → Sound start s
  Reach-Sound first = record { known = λ i. tt; chain = refl; kept = tt }
  Reach-Sound (later r st) = Step-Sound st (Reach-Sound r)

  -- However several programs take turns at opening, editing, checking and writing one vault: the writes
  -- follow one another, each replacing what the one before it wrote, and each that no other write fell
  -- in between its check and itself replaced the very file that its writer had opened, so that no
  -- change is lost. The digest tells files apart, and no writer is forced.
  pub Reach-IsKept :
      {start : Option Bytes} {s : System}
      → Reach x start s
      → IsChain start s.file s.saves × All IsKept s.saves
  Reach-IsKept r = let h = Reach-Sound r in (h.chain, h.kept)
