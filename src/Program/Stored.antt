-- ===== src/Program/Stored.antt =====
-- main.go and vault.go: which file a command stores, and where.
use mathlib.Core.Path.{subst}
use schain.Prelude.{
  ◌≡◌, ◌≤◌, refl, ap, ◌∙◌, ◌⊎◌, Bool, true, false, ◌&&◌, ◌||◌, not, inl, inr, List, [], ◌∷◌, arith,
  length, if◌then◌else◌, Bool-cases,
}
use schain.Prelude.Text.{Bytes, str_eq, str_eq_refl, str_eq_sound}
use schain.Prelude.Paths.{join_path}
use schain.Fail.{Result, ok, err, ◌>>=◌, >>=-ok, Result-cases}
use schain.Vault.{Vault, vault_name}
use schain.Format.{save, file_of, check_unchanged, max_vault_size}
use schain.Format.Reopen.{save_inv}
use schain.Discover.{find_vault, work_dir}
use schain.Unlock.{Answers}
use schain.Session.{Host, must_find_vault}
use schain.Assign.{
  SetFlags, no_flags, set_flags, set_keys, set_target, set_at, set_in_place, set_with, cmd_set,
  vet_keys,
}
use schain.Program.Origins.{
  IsNew, Replaces, HasOrigin, HasOrigin-stamp, check_unchanged-Replaces, open_here-HasOrigin,
  create_vault-HasOrigin,
}
use schain.Program.Edited.{set_keys-stamp}
use schain.Program.{Supplies, is_forced, store_vault, site, set_here}

-- The result of a chain of two steps, the second of which does not fail.
pub then_ok :
    {A B : Type 0} {b : B} (r : Result A) (g : A → B)
    → (r >>= λ a. ok (g a)) ≡ ok b
    → (a : A) × (r ≡ ok a) × (g a ≡ b)
then_ok (err e) g h = cc
then_ok (ok a) g h = (a, refl, ground (arith, h))

module _ (h : Host) (s : Supplies) where
  -- The path is that of the nearest vault, or of a vault in the working directory.
  abbrev pub IsTarget : Bytes → Type 0
  IsTarget p =
      (find_vault h.sys ≡ ok p)
      ⊎ ((cwd : Bytes) × (work_dir h.sys ≡ ok cwd) × (p ≡ join_path cwd vault_name))

  -- The file is that of a vault, small enough to be read again, and stands in the place of the one that
  -- the command opened.
  abbrev pub IsStored : Bytes → Bytes → Type 0
  IsStored p file =
      ((w : Vault) × (file ≡ file_of h.crypto s.nonce w))
      × (length file ≤ max_vault_size)
      × Replaces h s p

  abbrev pub IsWritten : Bytes → Bytes → Type 0
  IsWritten p file = IsTarget p × IsStored p file

  pub moved :
      (q content p file : Bytes) → q ≡ p → content ≡ file → IsWritten q content → IsWritten p file
  moved q content p file at same w =
      subst (λ t. IsWritten p t) same (subst (λ t. IsWritten t content) at w)

  save-checked :
      (p : Bytes) (w saved : Vault) (file : Bytes)
      → save h.crypto (is_forced h s) s.nonce (s.later_at p) w ≡ ok (saved, file)
      → check_unchanged h.crypto (is_forced h s) (s.later_at p) w ≡ ok tt
  unfolding save
  save-checked p w saved file e =
      elim (Result-cases (check_unchanged h.crypto (is_forced h s) (s.later_at p) w)) [
        | inl (x, q) ↦ absurd (ground (arith, q, e))
        | inr (u, q) ↦ q
      ]

  pub save-IsStored :
      (p : Bytes) (w saved : Vault) (file : Bytes)
      → HasOrigin h s p w
      → save h.crypto (is_forced h s) s.nonce (s.later_at p) w ≡ ok (saved, file)
      → IsStored p file
  save-IsStored p w saved file o e =
      let (whole, same, fits) =
        save_inv h.crypto (is_forced h s) s.nonce (s.later_at p) w saved file e in
      (
        (w, whole),
        rw whole fits,
        check_unchanged-Replaces h s p w o (save-checked p w saved file e),
      )

  pub must_find_vault-found : (p : Bytes) → must_find_vault h ≡ ok p → find_vault h.sys ≡ ok p
  unfolding must_find_vault
  must_find_vault-found p e =
      let (q, found, rest) = >>=-ok (find_vault h.sys) _ e in ground (arith, found, rest)

  pub store_vault-IsStored :
      (p : Bytes) (w : Vault) (r : Vault × Bytes)
      → HasOrigin h s p w
      → store_vault h s p w ≡ ok r
      → IsStored p r.1
  unfolding store_vault
  store_vault-IsStored p w (saved, file) o e = save-IsStored p w saved file o e

  set_target-IsTarget :
      (here : Bool) (path cwd : Bytes)
      → find_vault h.sys ≡ ok path
      → work_dir h.sys ≡ ok cwd
      → IsTarget (set_target here path (join_path cwd vault_name)).0
  unfolding set_target
  set_target-IsTarget here path cwd found where_ =
      let local = join_path cwd vault_name in
      elim (Bool-cases ((here && not (str_eq path local)) || str_eq path [])) [
        | inl y ↦ rw (set_target, y) (inr (cwd, where_, refl))
        | inr n ↦ rw (set_target, n) (inl found)
      ]

  set_target-IsNew :
      (here : Bool) (path local : Bytes)
      → find_vault h.sys ≡ ok path
      → (set_target here path local).1 ≡ true
      → IsNew h s (set_target here path local).0
  unfolding set_target
  set_target-IsNew here path local found fresh = elim (Bool-cases (str_eq path [])) [
    | inl y ↦
        let none_found : find_vault h.sys ≡ ok [] = found ∙ ap ok (str_eq_sound path [] y) in
        inl none_found
    | inr n ↦ elim (Bool-cases (here && not (str_eq path local))) [
      | inl y ↦ rw (set_target, y) (inr (λ e. ground (arith, y, e, found, str_eq_refl path)))
      | inr m ↦ absurd (ground (arith, n, m, fresh))
    ]
  ]

  -- set, from the opening of the vault on.
  set_at-IsStored :
      (f : SetFlags) (args : List Bytes) (answers : Answers) (q : Bytes) (fresh : Bool)
      (saved : Vault) (file p : Bytes)
      → (fresh ≡ true → IsNew h s q)
      → set_at h.sys.getenv (site h s) s.mark f args answers (q, fresh) ≡ ok (saved, file, p)
      → (q ≡ p) × IsStored p file
  unfolding set_at
  set_at-IsStored f args answers q fresh saved file p new e =
      let (o, opened, e₁) =
        >>=-ok (if fresh then (site h s).create q answers else (site h s).unlock q answers) _ e in
      let (done, edited, e₂) = >>=-ok (set_keys h.sys.getenv s.mark f args o.1 o.0) _ e₁ in
      let (r, stored, same) = then_ok (store_vault h s q done.0) (λ r. (r.0, r.1, q)) e₂ in
      let path : q ≡ p = ap (λ (t : Vault × Bytes × Bytes). t.2) same in
      let content : r.1 ≡ file = ap (λ (t : Vault × Bytes × Bytes). t.1) same in
      let kept = set_keys-stamp s.mark h.sys.getenv f args o.1 o.0 done edited in
      let origin = HasOrigin-stamp h s q o.0 done.0 kept (from fresh new o opened) in
      (path, rw (← path, ← content) (store_vault-IsStored q done.0 r origin stored))
    where
      from :
          (b : Bool)
          → (b ≡ true → IsNew h s q)
          → (o : Vault × Answers)
          → (if b then (site h s).create q answers else (site h s).unlock q answers) ≡ ok o
          → HasOrigin h s q o.0
      from true new o e = create_vault-HasOrigin h s q answers o (new refl) e
      from false new o e = open_here-HasOrigin h s q answers o e

  set_in_place-IsWritten :
      (f : SetFlags) (args : List Bytes) (answers : Answers) (saved : Vault) (file p : Bytes)
      → set_in_place h.sys.getenv (site h s) s.mark f args answers ≡ ok (saved, file, p)
      → IsWritten p file
  unfolding set_in_place
  set_in_place-IsWritten f args answers saved file p e =
      let (path, found, e₁) = >>=-ok (find_vault h.sys) _ e in
      let (cwd, at, e₂) = >>=-ok (work_dir h.sys) _ e₁ in
      let t = set_target f.here path (join_path cwd vault_name) in
      let (same, stored) =
        set_at-IsStored f args answers t.0 t.1 saved file p
          (set_target-IsNew f.here path (join_path cwd vault_name) found) e₂ in
      (subst IsTarget same (set_target-IsTarget f.here path cwd found at), stored)

  set_with-IsWritten :
      (f : SetFlags) (args : List Bytes) (answers : Answers) (saved : Vault) (file p : Bytes)
      → set_with h.sys.getenv (site h s) s.mark f args answers ≡ ok (saved, file, p)
      → IsWritten p file
  unfolding set_with
  set_with-IsWritten f [] answers saved file p e = absurd (ground (arith, e))
  set_with-IsWritten f (a ∷ args) answers saved file p e =
      elim (Bool-cases (f.expand && f.literal)) [
        | inl y ↦ absurd (cc (rw y at e))
        | inr n ↦
            let (u, vetted, e₁) =
              >>=-ok (vet_keys h.sys.getenv f.expand (a ∷ args)) _ (rw n at e) in
            set_in_place-IsWritten f (a ∷ args) answers saved file p e₁
      ]

  pub set_here-IsWritten :
      (args : List Bytes) (answers : Answers) (w : Vault × Bytes × Bytes)
      → set_here h s args answers ≡ ok w
      → IsWritten w.2 w.1
  unfolding set_here cmd_set
  set_here-IsWritten args answers w e =
      let (f, flags, e₁) = >>=-ok (set_flags no_flags args) _ e in
      set_with-IsWritten f.0 f.1 answers w.0 w.1 w.2 e₁
