-- ===== src/Discover/Ancestors.antt =====
-- chain.go and worktree.go: a walk from a directory to the root ends there and passes every level.
use schain.Prelude.{
  ℕ, zero, suc, ◌<◌, ◌≡◌, refl, sym, ap, ◌∙◌, Bool, true, false, Option, none, inl, inr, List, [],
  ◌∷◌, ◌++◌, arith, if◌then◌else◌, length, All-append, Bool-cases,
}
use schain.Prelude.Text.{Bytes, contains, str_eq, str_eq_sound, str_eq_refl}
use schain.Prelude.Paths.{backwards, dir_of, join_path}
use schain.Prelude.Absolute.{
  IsName, Names, abs_path, dir_of-abs_path, dir_of-root, join_path-abs_path, length-abs_path-append,
}
use schain.Vault.{vault_name}
use schain.Worktree.{Worktree}
use schain.Discover.{System, level_fuel, vaults_upward, vaults_from, worktree_at, levels_upward}

-- The directory that the names lead to, the last name first.
abbrev pub dir_at : List Bytes → Bytes
dir_at rs = abs_path (backwards rs)

-- It and every directory above it, up to the root.
abbrev pub above : List Bytes → List Bytes
above [] = dir_at [] ∷ []
above (r ∷ rs) = dir_at (r ∷ rs) ∷ above rs

-- The place of a vault in a directory.
abbrev pub vault_in : List Bytes → Bytes
vault_in rs = abs_path (backwards rs ++ vault_name ∷ [])

abbrev pub vaults_above : List Bytes → List Bytes
vaults_above [] = vault_in [] ∷ []
vaults_above (r ∷ rs) = vault_in (r ∷ rs) ∷ vaults_above rs

-- The paths with a vault file.
unfoldable pub only : (Bytes → Bool) → List Bytes → List Bytes
only p [] = []
only p (x ∷ xs) = let rest = only p xs in if p x then x ∷ rest else rest

pub vault_name-IsName : IsName vault_name
unfolding contains str_eq
vault_name-IsName = record {
  lacks_slash = refl;
  some_byte = refl;
  no_dot = refl;
  no_dot_dot = refl;
}

pub Names-backwards : (rs : List Bytes) → Names rs → Names (backwards rs)
unfolding backwards
Names-backwards [] h = tt
Names-backwards (r ∷ rs) (h, hs) =
    All-append IsName (backwards rs) (r ∷ []) (Names-backwards rs hs) (h, tt)

backwards-cons : (r : Bytes) (rs : List Bytes) → backwards (r ∷ rs) ≡ backwards rs ++ r ∷ []
unfolding backwards
backwards-cons r rs = refl

dir_of-dir_at :
    (r : Bytes) (rs : List Bytes) → Names (r ∷ rs) → dir_of (dir_at (r ∷ rs)) ≡ dir_at rs
dir_of-dir_at r rs h = rw (backwards-cons r rs) (
    dir_of-abs_path (backwards rs) r (rw (← backwards-cons r rs) (Names-backwards (r ∷ rs) h))
      (Names-backwards rs h.1))

length-dir_at :
    (r : Bytes) (rs : List Bytes) → IsName r → length (dir_at rs) < length (dir_at (r ∷ rs))
length-dir_at r rs h = rw (backwards-cons r rs) (length-abs_path-append r (backwards rs) h)

-- A level below the root is another one than the next.
parent_differs :
    (r : Bytes) (rs : List Bytes)
    → Names (r ∷ rs)
    → str_eq (dir_of (dir_at (r ∷ rs))) (dir_at (r ∷ rs)) ≡ false
parent_differs r rs h = elim (Bool-cases (str_eq (dir_of (dir_at (r ∷ rs))) (dir_at (r ∷ rs)))) [
  | inr n ↦ n
  | inl y ↦
      let e =
        sym (dir_of-dir_at r rs h) ∙ str_eq_sound (dir_of (dir_at (r ∷ rs))) (dir_at (r ∷ rs)) y in
      absurd (omega (arith, ap length e, length-dir_at r rs h.0))
]

root_stops : str_eq (dir_of (dir_at [])) (dir_at []) ≡ true
unfolding backwards
root_stops = rw dir_of-root (str_eq_refl (abs_path []))

-- The fuel is enough.
pub length-level_fuel : (rs : List Bytes) → Names rs → length rs < level_fuel (dir_at rs)
length-level_fuel [] h = omega arith
length-level_fuel (r ∷ rs) h = omega (arith, length-level_fuel rs h.1, length-dir_at r rs h.0)

pub join_path-dir_at : (rs : List Bytes) → Names rs → join_path (dir_at rs) vault_name ≡ vault_in rs
join_path-dir_at rs h =
    join_path-abs_path (backwards rs) vault_name (Names-backwards rs h) vault_name-IsName

abbrev one_vault : System → Bytes → List Bytes → List Bytes
one_vault sys p more = if sys.is_vault_file p then p ∷ more else more

module _ (sys : System) (n : ℕ) (d : Bytes) where
  vaults_upward_stop :
      str_eq (dir_of d) d ≡ true
      → vaults_upward sys (suc n) d ≡ one_vault sys (join_path d vault_name) []
  unfolding vaults_upward
  vaults_upward_stop e = rw e refl

  vaults_upward_go :
      str_eq (dir_of d) d ≡ false
      → vaults_upward sys (suc n) d
        ≡ one_vault sys (join_path d vault_name) (vaults_upward sys n (dir_of d))
  unfolding vaults_upward
  vaults_upward_go e = rw e refl

  module _ (off : Bool) (i : ℕ) (w : Option (Worktree × ℕ)) where
    levels_upward_stop :
        str_eq (dir_of d) d ≡ true
        → levels_upward sys off (suc n) i d w ≡ (d ∷ [], worktree_at sys off i d w)
    unfolding levels_upward
    levels_upward_stop e = rw (levels_upward, e) refl

    levels_upward_go :
        str_eq (dir_of d) d ≡ false
        → (levels_upward sys off (suc n) i d w).0
          ≡ d ∷ (levels_upward sys off n (suc i) (dir_of d) (worktree_at sys off i d w)).0
    unfolding levels_upward
    levels_upward_go e = rw (levels_upward, e) refl

module _ (sys : System) where
  vaults_upward-above :
      (n : ℕ) (rs : List Bytes)
      → length rs < n
      → Names rs
      → vaults_upward sys n (dir_at rs) ≡ only sys.is_vault_file (vaults_above rs)
  unfolding only
  vaults_upward-above zero rs l h = absurd (omega arith)
  vaults_upward-above (suc n) [] l h =
      vaults_upward_stop sys n (dir_at []) root_stops
      ∙ ap (λ p. one_vault sys p []) (join_path-dir_at [] tt)
  vaults_upward-above (suc n) (r ∷ rs) l h =
      vaults_upward_go sys n (dir_at (r ∷ rs)) (parent_differs r rs h)
      ∙ ap (λ p. one_vault sys p (vaults_upward sys n (dir_of (dir_at (r ∷ rs)))))
          (join_path-dir_at (r ∷ rs) h)
      ∙ ap (λ d. one_vault sys (vault_in (r ∷ rs)) (vaults_upward sys n d)) (dir_of-dir_at r rs h)
      ∙ ap (one_vault sys (vault_in (r ∷ rs))) (vaults_upward-above n rs (omega arith) h.1)

  -- vaultsFrom of a directory given by its names ends, and lists the vault files of that directory
  -- and of every one above it, nearest first, the root's included.
  pub vaults_from-above :
      (rs : List Bytes)
      → Names rs
      → vaults_from sys (dir_at rs) ≡ only sys.is_vault_file (vaults_above rs)
  unfolding vaults_from
  vaults_from-above rs h =
      vaults_upward-above (level_fuel (dir_at rs)) rs (length-level_fuel rs h) h

  levels_upward-above :
      (off : Bool) (n i : ℕ) (rs : List Bytes) (w : Option (Worktree × ℕ))
      → length rs < n
      → Names rs
      → (levels_upward sys off n i (dir_at rs) w).0 ≡ above rs
  levels_upward-above off zero i rs w l h = absurd (omega arith)
  levels_upward-above off (suc n) i [] w l h =
      ap (λ r. r.0) (levels_upward_stop sys n (dir_at []) off i w root_stops)
  levels_upward-above off (suc n) i (r ∷ rs) w l h =
      levels_upward_go sys n (dir_at (r ∷ rs)) off i w (parent_differs r rs h)
      ∙ ap (λ t. dir_at (r ∷ rs) ∷ t)
          (ap
              (λ d.
                (levels_upward sys off n (suc i) d (worktree_at sys off i (dir_at (r ∷ rs)) w)).0)
              (dir_of-dir_at r rs h)
            ∙ levels_upward-above off n (suc i) rs (worktree_at sys off i (dir_at (r ∷ rs)) w)
                (omega arith) h.1)

  -- The levels that resolveVaults goes through.
  pub levels-above :
      (off : Bool) (rs : List Bytes)
      → Names rs
      → (levels_upward sys off (level_fuel (dir_at rs)) 0 (dir_at rs) none).0 ≡ above rs
  levels-above off rs h =
      levels_upward-above off (level_fuel (dir_at rs)) 0 rs none (length-level_fuel rs h) h
