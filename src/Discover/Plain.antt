-- ===== src/Discover/Plain.antt =====
-- chain.go: without a worktree, resolveVaults is vaultsFrom.
use schain.Prelude.{
  ℕ, zero, suc, ◌≡◌, refl, sym, ap, ◌∙◌, inl, inr, Bool, true, false, not, none, List, [], ◌∷◌,
  ◌++◌, if◌then◌else◌, Bool-cases,
}
use schain.Prelude.Text.{Bytes, codes, str_eq, member}
use schain.Prelude.Paths.{dir_of}
use schain.Prelude.Absolute.{Names}
use schain.Worktree.{find_worktree}
use schain.Chain.{merge_list, merge_paths}
use schain.Discover.{
  System, Found, vaults_from, take_path, stand_in, resolve_level, resolve_levels, resolve_from,
  worktree_at, levels_upward, level_fuel,
}
use schain.Discover.Ancestors.{
  dir_at, above, vault_in, join_path-dir_at, vaults_above, only, levels-above, vaults_from-above,
}

module _ (sys : System) where
  resolve_level_plain :
      (i : ℕ) (rs : List Bytes) (f : Found)
      → Names rs
      → resolve_level sys none i (dir_at rs) f
        ≡ (if sys.is_vault_file (vault_in rs) then take_path (vault_in rs) f else f)
  unfolding resolve_level stand_in
  resolve_level_plain i rs f h = rw (join_path-dir_at rs h) refl

  take_path_lem :
      (p : Bytes) (f : Found)
      → take_path p f ≡ record f { paths = if member p f.paths then f.paths else f.paths ++ p ∷ [] }
  unfolding take_path
  take_path_lem p f = elim (Bool-cases (member p f.paths)) [ inl y ↦ rw y refl | inr n ↦ rw n refl ]

  -- Taking the vault of a level is one step of a merge without repetitions.
  merge_step :
      (p : Bytes) (l : List Bytes) (f : Found)
      → record (if sys.is_vault_file p then take_path p f else f) {
        paths =
            merge_list
              (only sys.is_vault_file l)
              (if sys.is_vault_file p then take_path p f else f).paths;
      }
        ≡ record f { paths = merge_list (only sys.is_vault_file (p ∷ l)) f.paths }
  unfolding only merge_list
  merge_step p l f = elim (Bool-cases (sys.is_vault_file p)) [
    | inl y ↦ rw (y, take_path_lem p f) refl
    | inr n ↦ rw n refl
  ]

  merge_nil : (f : Found) → record f { paths = merge_list (only sys.is_vault_file []) f.paths } ≡ f
  unfolding only merge_list
  merge_nil f = refl

  -- Without a worktree the levels are taken one by one.
  resolve_levels-plain :
      (i : ℕ) (rs : List Bytes) (f : Found)
      → Names rs
      → resolve_levels sys none i (above rs) f
        ≡ record f { paths = merge_list (only sys.is_vault_file (vaults_above rs)) f.paths }
  unfolding resolve_levels
  resolve_levels-plain i [] f h =
      resolve_level_plain i [] f h
      ∙ sym (merge_nil (if sys.is_vault_file (vault_in []) then take_path (vault_in []) f else f))
      ∙ merge_step (vault_in []) [] f
  resolve_levels-plain i (r ∷ rs) f h =
      resolve_levels-plain (suc i) rs (resolve_level sys none i (dir_at (r ∷ rs)) f) h.1
      ∙ ap {A = Found}
          (λ g. record g { paths = merge_list (only sys.is_vault_file (vaults_above rs)) g.paths })
          (resolve_level_plain i (r ∷ rs) f h)
      ∙ merge_step (vault_in (r ∷ rs)) (vaults_above rs) f

  worktree_at-none :
      (i : ℕ) (dir : Bytes)
      → find_worktree sys.files dir ≡ none
      → (off : Bool) → worktree_at sys off i dir none ≡ none
  unfolding worktree_at
  worktree_at-none i dir e true = refl
  worktree_at-none i dir e false = rw e refl

  levels_upward-none :
      (off : Bool) (n i : ℕ) (dir : Bytes)
      → ((d : Bytes) → find_worktree sys.files d ≡ none)
      → (levels_upward sys off n i dir none).1 ≡ none
  unfolding levels_upward
  levels_upward-none off zero i dir e = refl
  levels_upward-none off (suc n) i dir e = elim (Bool-cases (str_eq (dir_of dir) dir)) [
    | inl y ↦ rw (levels_upward, y) (worktree_at-none i dir (e dir) off)
    | inr m ↦
        rw (levels_upward, m)
          (rw (worktree_at-none i dir (e dir) off)
            (levels_upward-none off n (suc i) (dir_of dir) e))
  ]

  -- Where no directory is a linked worktree, resolveVaults finds what vaultsFrom finds, the vault
  -- files of the directory and of every one above it, nearest first and each once, and marks none as
  -- borrowed.
  pub resolve_from-plain :
      (rs : List Bytes)
      → Names rs
      → ((d : Bytes) → find_worktree sys.files d ≡ none)
      → resolve_from sys (dir_at rs)
        ≡ record { paths = merge_paths (vaults_from sys (dir_at rs) ∷ []); borrowed = [] }
  unfolding resolve_from merge_paths
  resolve_from-plain rs h e =
      let off = not (str_eq (sys.getenv (codes "SCHAIN_NO_WORKTREE")) []) in
      let fuel = level_fuel (dir_at rs) in
      ap
        (λ w.
          resolve_levels sys w 0 (levels_upward sys off fuel 0 (dir_at rs) none).0
            (record { paths = []; borrowed = [] }))
        (levels_upward-none off fuel 0 (dir_at rs) e)
      ∙ ap (λ l. resolve_levels sys none 0 l (record { paths = []; borrowed = [] }))
          (levels-above sys off rs h)
      ∙ resolve_levels-plain 0 rs (record { paths = []; borrowed = [] }) h
      ∙ ap (λ l. record { paths = merge_list l []; borrowed = [] })
          (sym (vaults_from-above sys rs h))
