-- ===== src/Walk.antt =====
-- chain.go: walkVaults, the vaults below a directory, and with it findVaultsUnder. What filepath.WalkDir
-- goes through is a tree, in which a directory's entries stand in lexical order, as ReadDir gives them;
-- one that cannot be read has none.
pub mod Reached
use schain.Prelude.{Bool, true, false, ◌&&◌, ◌||◌, not, List, [], ◌∷◌, ◌++◌, if◌then◌else◌}
use schain.Prelude.Text.{Bytes, str_eq}
use schain.Prelude.Paths.{join_path, base_of}
use schain.Vault.{vault_name}
use schain.Worktree.{dot_git}

mutual
  -- What is not a directory, symbolic links included, and a directory.
  pub data Node : Type 0 where
    leaf : Node
    folder : Children → Node

  pub data Children : Type 0 where
    childless : Children
    child : Bytes → Node → Children → Children

-- The tree at a path, and whether os.Lstat finds something there.
pub record Disk : Type 0 where
  pub tree : Bytes → Node
  pub lstat : Bytes → Bool

-- The files below: isVaultFile, and whether os.Lstat succeeds.
module _ (is_vault_file exists : Bytes → Bool) (skip_nested : Bool) (root : Bytes) where
  -- Whether the walk goes into a directory, by its path and its name.
  unfoldable pub enters : Bytes → Bytes → Bool
  enters path name =
      not (str_eq name dot_git)
      && not (skip_nested && not (str_eq path root) && exists (join_path path dot_git))

  unfoldable pub take_file : Bytes → Bytes → List Bytes
  take_file path name =
      if not (str_eq name vault_name) then [] else if is_vault_file path then path ∷ [] else []

  unfoldable mutual
    unfolding enters take_file

    pub walk : Bytes → Bytes → Node → List Bytes
    walk path name leaf = take_file path name
    walk path name (folder cs) =
        let inside = walk_all path cs in if enters path name then inside else []

    pub walk_all : Bytes → Children → List Bytes
    walk_all path childless = []
    walk_all path (child name t cs) = walk (join_path path name) name t ++ walk_all path cs

-- The walk from its root on; an error of WalkDir is none of this one.
unfoldable pub walk_vaults : (Bytes → Bool) → (Bytes → Bool) → Bool → Bytes → Node → List Bytes
unfolding walk
walk_vaults is_vault_file exists skip_nested root t =
    walk is_vault_file exists skip_nested root root (base_of root) t

unfoldable pub find_vaults_under : (Bytes → Bool) → Disk → Bytes → List Bytes
unfolding walk_vaults
find_vaults_under is_vault_file disk dir =
    walk_vaults is_vault_file disk.lstat false dir (disk.tree dir)
