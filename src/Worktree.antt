-- ===== src/Worktree.antt =====
-- worktree.go: whether a directory is a linked git worktree, and of which checkout. The files are an
-- argument.
pub mod Backlink
use schain.Prelude.{
  Bool, true, false, not, Option, none, some, List, [], ◌∷◌, if◌then◌else◌, length, drop,
}
use schain.Prelude.Text.{Bytes, codes, str_eq, has_prefix}
use schain.Prelude.Paths.{is_abs, join_path, dir_of, base_of, trim_space}

-- filepath.Abs, filepath.EvalSymlinks and os.ReadFile, none where they fail.
pub record Files : Type 0 where
  pub abs : Bytes → Option Bytes
  pub eval_symlinks : Bytes → Option Bytes
  pub read_file : Bytes → Option Bytes

pub record Worktree : Type 0 where
  pub root : Bytes
  pub main : Bytes

infixl 5 ◌>->◌
abbrev pub ◌>->◌ {ℓ κ} : {A : Type ℓ} {B : Type κ} → Option A → (A → Option B) → Option B
none >-> f = none
some a >-> f = f a

abbrev pub dot_git : Bytes
dot_git = codes ".git"

-- strings.CutPrefix
unfoldable pub cut_prefix : Bytes → Bytes → Option Bytes
cut_prefix s p = if has_prefix s p then some (drop (length p) s) else none

module _ (fs : Files) where
  -- A path that a file holds, read from the directory of that file, without symbolic links.
  unfoldable pub physical : Bytes → Bytes → Option Bytes
  physical dir text = fs.eval_symlinks (if is_abs text then text else join_path dir text)

  -- From the backlink on: `dir` is the checkout, `git_dir` its metadata, `c` the common directory.
  unfoldable pub check_back : Bytes → Bytes → Bytes → Bytes → Option Worktree
  unfolding physical
  check_back dir git_dir c back =
      if str_eq back []
      then none
      else physical git_dir back >-> λ b.
          if not (str_eq b (join_path dir dot_git))
          then none
          else if str_eq (dir_of c) dir
          then none
          else some (record { root = dir; main = dir_of c })

  unfoldable pub check_common : Bytes → Bytes → Bytes → Option Worktree
  unfolding check_back
  check_common dir git_dir c =
      if not (str_eq (base_of c) dot_git)
      then none
      else if not (str_eq (dir_of git_dir) (join_path c (codes "worktrees")))
      then none
      else fs.read_file (join_path git_dir (codes "gitdir")) >-> λ backlink.
          check_back dir git_dir c (trim_space backlink)

  unfoldable pub find_worktree : Bytes → Option Worktree
  unfolding physical check_common cut_prefix
  find_worktree given = fs.abs given >-> λ full. fs.eval_symlinks full >-> λ dir.
      fs.read_file (join_path dir dot_git) >-> λ blob.
      cut_prefix (trim_space blob) (codes "gitdir:") >-> λ rest.
      physical dir (trim_space rest) >-> λ git_dir.
      fs.read_file (join_path git_dir (codes "commondir")) >-> λ common.
      physical git_dir (trim_space common) >-> λ c. check_common dir git_dir c
