-- ===== src/Assign/Inline.antt =====
-- main.go: `schain set KEY=VALUE`.
use schain.Prelude.{
  ◌≡◌, ◌⊎◌, refl, ap, ◌∙◌, Bool, true, false, some, inl, inr, List, [], ◌∷◌, ◌++◌, arith,
  Bool-cases, Option-cases,
}
use schain.Prelude.Text.{Bytes, codes, has_prefix, contains, cut_byte-append}
use schain.Prelude.Paths.{join_path}
use schain.Fail.{ok, ◌>>=◌, >>=-ok}
use schain.Vault.{Vault, vault_name, Mark, put}
use schain.Unlock.{Answers}
use schain.Assign.{
  SetFlags, Site, no_flags, key_value, set_flag, set_flags, set_key, set_keys, set_target, set_at,
  set_in_place, set_with, cmd_set, vet_keys,
}

key_value-inline :
    (k val : Bytes) → contains k b'=' ≡ false → key_value (k ++ b'=' ∷ val) ≡ (k, some val)
unfolding key_value
key_value-inline k val h = rw (key_value, cut_byte-append k val b'=' h) refl

-- One argument is a flag, after which no key is left, or it is the key.
set_flags-one :
    (arg : Bytes) (s : SetFlags × List Bytes)
    → set_flags no_flags (arg ∷ []) ≡ ok s
    → (s ≡ (no_flags, arg ∷ [])) ⊎ (s.1 ≡ [])
unfolding set_flags
set_flags-one arg s h = elim (Bool-cases (has_prefix arg (codes "--"))) [
  | inr n ↦ inl (ground (arith, n, h))
  | inl y ↦ elim (Option-cases (set_flag arg no_flags)) [
    | inl q ↦ absurd (ground (arith, y, q, h))
    | inr (g, q) ↦ inr (ground (arith, y, q, h))
  ]
]

abbrev pub argument : Bytes → Bytes → Bytes
argument k val = k ++ b'=' ∷ val

module _ (getenv : Bytes → Bytes) (site : Site) (mark : Mark) (k val : Bytes) where
  set_with-none :
      (f : SetFlags) (answers : Answers) (r : Vault × Bytes × Bytes)
      → set_with getenv site mark f [] answers ≡ ok r
      → ⊥
  unfolding set_with
  set_with-none f answers r h = ground (arith, h)

  set_keys-inline :
      (answers : Answers) (v : Vault)
      → contains k b'=' ≡ false
      → set_keys getenv mark no_flags (argument k val ∷ []) answers v
        ≡ ok (put mark k val v, answers)
  unfolding set_keys set_key
  set_keys-inline answers v h =
      let e = key_value-inline k val h in rw (set_keys, ap (λ t. t.1) e, ap (λ t. t.0) e) refl

  -- What was opened, and what is then stored at the path.
  abbrev Stored : Answers → Vault → Bytes → Bytes → Type 0
  Stored answers saved file p =
      (o : Vault × Answers) × ((site.create p answers ≡ ok o) ⊎ (site.unlock p answers ≡ ok o))
      × (site.store p (put mark k val o.0) ≡ ok (saved, file))

  store-Stored :
      (answers : Answers) (q : Bytes) (saved : Vault) (file p : Bytes) (o : Vault × Answers)
      → ((site.create q answers ≡ ok o) ⊎ (site.unlock q answers ≡ ok o))
      → ◌>>=◌ {B = Vault × Bytes × Bytes}
          (site.store q (put mark k val o.0))
          (λ w. ok (w.0, w.1, q))
        ≡ ok (saved, file, p)
      → Stored answers saved file p
  store-Stored answers q saved file p o opened e =
      let (w, stored, e₁) = >>=-ok (site.store q (put mark k val o.0)) (λ w. ok (w.0, w.1, q)) e in
      let same : (w.0, w.1, q) ≡ (saved, file, p) = ground (arith, e₁) in
      let path : q ≡ p = ap (λ t. t.2) same in
      rw (← path) (o, opened, stored ∙ ap (λ (t : Vault × Bytes × Bytes). ok (t.0, t.1)) same)

  set_at-Stored :
      (answers : Answers) (q : Bytes) (fresh : Bool) (saved : Vault) (file p : Bytes)
      → contains k b'=' ≡ false
      → set_at getenv site mark no_flags (argument k val ∷ []) answers (q, fresh)
        ≡ ok (saved, file, p)
      → Stored answers saved file p
  unfolding set_at
  set_at-Stored answers q true saved file p h e =
      let (o, opened, e₁) = >>=-ok (site.create q answers) _ e in
      store-Stored answers q saved file p o (inl opened) (rw (set_keys-inline o.1 o.0 h) at e₁)
  set_at-Stored answers q false saved file p h e =
      let (o, opened, e₁) = >>=-ok (site.unlock q answers) _ e in
      store-Stored answers q saved file p o (inr opened) (rw (set_keys-inline o.1 o.0 h) at e₁)

  set_in_place-Stored :
      (answers : Answers) (saved : Vault) (file p : Bytes)
      → contains k b'=' ≡ false
      → set_in_place getenv site mark no_flags (argument k val ∷ []) answers ≡ ok (saved, file, p)
      → Stored answers saved file p
  unfolding set_in_place
  set_in_place-Stored answers saved file p h e =
      let (path, _, e₁) = >>=-ok site.found _ e in
      let (cwd, _, e₂) = >>=-ok site.work_dir _ e₁ in
      let t = set_target false path (join_path cwd vault_name) in
      set_at-Stored answers t.0 t.1 saved file p h e₂

  pub cmd_set-Stored :
      (answers : Answers) (saved : Vault) (file p : Bytes)
      → contains k b'=' ≡ false
      → cmd_set getenv site mark (argument k val ∷ []) answers ≡ ok (saved, file, p)
      → Stored answers saved file p
  unfolding cmd_set set_with
  cmd_set-Stored answers saved file p h e =
      let (s, flags, e₁) = >>=-ok (set_flags no_flags (argument k val ∷ [])) _ e in
      elim (set_flags-one (argument k val) s flags) [
        | inr n ↦ absurd (set_with-none s.0 answers (saved, file, p) (rw n at e₁))
        | inl y ↦
            let (u, vetted, e₂) =
              >>=-ok (vet_keys getenv false (argument k val ∷ [])) _ (rw y at e₁) in
            set_in_place-Stored answers saved file p h e₂
      ]
