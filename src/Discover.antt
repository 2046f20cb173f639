-- ===== src/Discover.antt =====
-- chain.go and worktree.go: the search for vaults from a directory up to the root, and which of them a
-- linked worktree borrows from its main checkout. The file system is an argument.
pub mod Ancestors
pub mod Resolved
pub mod Plain
use schain.Prelude.{
  ℕ, zero, suc, ◌+◌, Bool, true, false, ◌&&◌, ◌||◌, not, Option, none, some, List, [], ◌∷◌, ◌++◌,
  map, if◌then◌else◌, ltb, ◌==◌, length,
}
use schain.Prelude.Text.{Bytes, codes, str_eq, member}
use schain.Prelude.Dict.{Dict, lookup, insert}
use schain.Prelude.Paths.{join_path, join_path3, dir_of, rel_path}
use schain.Fail.{Fail, Result, ok, err, ◌>>=◌, no_vault}
use schain.Vault.{vault_name}
use schain.Worktree.{Files, Worktree, find_worktree}
use schain.Chain.{merge_paths, reversed}

-- os.Getwd, the files that worktree.go reads, whether a path is a regular file, and os.Getenv.
pub record System : Type 0 where
  pub getwd : Result Bytes
  pub files : Files
  pub is_vault_file : Bytes → Bool
  pub getenv : Bytes → Bytes

-- A directory has no more levels above it than its path has bytes.
abbrev pub level_fuel : Bytes → ℕ
level_fuel dir = suc (length dir)

module _ (sys : System) where
  unfoldable pub work_dir : Result Bytes
  work_dir = elim sys.getwd [
    | err e ↦ err e
    | ok dir ↦ elim (sys.files.eval_symlinks dir) [ none ↦ ok dir | some r ↦ ok r ]
  ]

  -- The loop of vaultsFrom.
  unfoldable pub vaults_upward : ℕ → Bytes → List Bytes
  vaults_upward zero dir = []
  vaults_upward (suc n) dir =
      let p = join_path dir vault_name in
      let more : List Bytes = elim (str_eq (dir_of dir) dir) [
        | true ↦ []
        | false ↦ vaults_upward n (dir_of dir)
      ] in
      if sys.is_vault_file p then p ∷ more else more

  unfoldable pub vaults_from : Bytes → List Bytes
  unfolding vaults_upward
  vaults_from dir = vaults_upward (level_fuel dir) dir

  -- The loop of findWorktreeFrom.
  unfoldable pub worktree_upward : ℕ → Bytes → Option Worktree
  worktree_upward zero dir = none
  worktree_upward (suc n) dir = elim (find_worktree sys.files dir) [
    | some w ↦ some w
    | none ↦ elim (str_eq (dir_of dir) dir) [ true ↦ none | false ↦ worktree_upward n (dir_of dir) ]
  ]

  unfoldable pub find_worktree_from : Bytes → Option Worktree
  unfolding worktree_upward
  find_worktree_from dir = worktree_upward (level_fuel dir) dir

  -- What the first loop of resolveVaults looks for at a level: a worktree, if there is none yet.
  unfoldable pub worktree_at : Bool → ℕ → Bytes → Option (Worktree × ℕ) → Option (Worktree × ℕ)
  worktree_at off i dir (some w) = some w
  worktree_at off i dir none =
      if off
      then none
      else elim (find_worktree sys.files dir) [ none ↦ none | some w ↦ some (w, i) ]

  -- That loop: the levels from `dir` on, and the worktree with its level; `i` levels came before.
  unfoldable pub levels_upward :
      Bool → ℕ → ℕ → Bytes → Option (Worktree × ℕ) → List Bytes × Option (Worktree × ℕ)
  unfolding worktree_at
  levels_upward off zero i dir w = ([], w)
  levels_upward off (suc n) i dir w =
      let w' = worktree_at off i dir w in
      elim (str_eq (dir_of dir) dir) [
        | true ↦ (dir ∷ [], w')
        | false ↦
            let (rest, found) = levels_upward off n (suc i) (dir_of dir) w' in (dir ∷ rest, found)
      ]

-- `paths`, which `seen` repeats, and `borrowed`.
pub record Found : Type 0 where
  pub paths : List Bytes
  pub borrowed : Dict Bytes

unfoldable pub take_path : Bytes → Found → Found
unfolding member
take_path p f = if member p f.paths then f else record f { paths = f.paths ++ p ∷ [] }

module _ (sys : System) where
  -- The vault that stands in for a level of the worktree without one of its own.
  unfoldable pub stand_in : Option (Worktree × ℕ) → ℕ → Bytes → Option Bytes
  stand_in none i dir = none
  stand_in (some (w, level)) i dir = if ltb level i then none else elim (rel_path w.root dir) [
    | none ↦ none
    | some rel ↦
        let q = join_path3 w.main rel vault_name in if sys.is_vault_file q then some q else none
  ]

  -- The body of the second loop.
  unfoldable pub resolve_level : Option (Worktree × ℕ) → ℕ → Bytes → Found → Found
  unfolding stand_in take_path
  resolve_level w i dir f =
      if sys.is_vault_file (join_path dir vault_name)
      then take_path (join_path dir vault_name) f
      else elim (stand_in w i dir) [
        | none ↦ f
        | some q ↦ take_path q (record f { borrowed = insert q dir f.borrowed })
      ]

  unfoldable pub resolve_levels : Option (Worktree × ℕ) → ℕ → List Bytes → Found → Found
  unfolding resolve_level
  resolve_levels w i [] f = f
  resolve_levels w i (dir ∷ dirs) f = resolve_levels w (suc i) dirs (resolve_level w i dir f)

  unfoldable pub resolve_from : Bytes → Found
  unfolding levels_upward resolve_levels
  resolve_from cwd =
      let off = not (str_eq (sys.getenv (codes "SCHAIN_NO_WORKTREE")) []) in
      let (levels, w) = levels_upward sys off (level_fuel cwd) 0 cwd none in
      resolve_levels w 0 levels (record { paths = []; borrowed = [] })

  unfoldable pub resolve_vaults : Result Found
  unfolding work_dir resolve_from
  resolve_vaults = work_dir sys >>= λ cwd. ok (resolve_from cwd)

  unfoldable pub find_vaults : Result (List Bytes)
  unfolding resolve_vaults
  find_vaults = resolve_vaults >>= λ f. ok f.paths

  -- The empty text where there is none.
  unfoldable pub find_vault : Result Bytes
  unfolding find_vaults
  find_vault = elim find_vaults [ err e ↦ err e | ok [] ↦ ok [] | ok (p ∷ ps) ↦ ok p ]

  unfoldable pub is_borrowed : Bytes → Bool
  unfolding resolve_vaults lookup
  is_borrowed path = elim resolve_vaults [
    | err e ↦ false
    | ok f ↦ elim (lookup path f.borrowed) [ none ↦ false | some d ↦ not (str_eq d []) ]
  ]

  -- The directory of one path, from `borrowed`.
  unfoldable pub dir_in : Dict Bytes → Bytes → Bytes
  unfolding lookup
  dir_in borrowed p = elim (lookup p borrowed) [
    | none ↦ dir_of p
    | some d ↦ if str_eq d [] then dir_of p else d
  ]

  unfoldable pub vault_dirs : List Bytes → List Bytes
  unfolding resolve_vaults dir_in
  vault_dirs paths = elim resolve_vaults [
    | err e ↦ map dir_of paths
    | ok f ↦ map (dir_in f.borrowed) paths
  ]

  unfoldable pub missing : List Bytes → List Bytes → List Bytes
  missing have [] = []
  missing have (p ∷ ps) = if member p have then missing have ps else p ∷ missing have ps

  -- What warnUnreachable reports, before it is shortened for the message.
  unfoldable pub unreachable : Worktree → List Bytes → List Bytes
  unfolding missing
  unreachable w have = missing have (vaults_from sys (dir_of w.main))
