-- ===== src/Report.antt =====
-- worktree.go: `schain worktree`, the vaults of both checkouts by their place in them.
pub mod Shadows
use schain.Prelude.{
  Bool, true, false, ◌||◌, Option, none, some, List, [], ◌∷◌, ◌==◌, if◌then◌else◌, length,
}
use schain.Prelude.Text.{Bytes}
use schain.Prelude.Dict.{Dict, lookup, insert, keys_of}
use schain.Prelude.Sort.{sort_strings}
use schain.Prelude.Paths.{rel_path}
use schain.Fail.{Result, ok, err, ◌>>=◌, usage, no_worktree}
use schain.Worktree.{Worktree}
use schain.Discover.{System, work_dir, find_worktree_from}
use schain.Walk.{Disk, walk_vaults}

-- An entry of `rels`.
pub record Sides : Type 0 where
  pub in_main : Bool
  pub in_worktree : Bool

pub data Side : Type 0 where
  main_side worktree_side : Side

unfoldable pub mark_side : Side → Option Sides → Sides
mark_side main_side none = record { in_main = true; in_worktree = false }
mark_side worktree_side none = record { in_main = false; in_worktree = true }
mark_side main_side (some e) = record { in_main = true; in_worktree = e.in_worktree }
mark_side worktree_side (some e) = record { in_main = e.in_main; in_worktree = true }

-- The closure `mark`.
unfoldable pub mark_paths : Side → Bytes → List Bytes → Dict Sides → Dict Sides
unfolding mark_side lookup insert
mark_paths i root [] rels = rels
mark_paths i root (p ∷ ps) rels = elim (rel_path root p) [
  | none ↦ mark_paths i root ps rels
  | some rel ↦ mark_paths i root ps (insert rel (mark_side i (lookup rel rels)) rels)
]

pub data Place : Type 0 where
  shadows_main only_local only_main : Place

unfoldable pub place_of : Option Sides → Place
place_of none = only_main
place_of (some e) =
    if e.in_main
    then (if e.in_worktree then shadows_main else only_main)
    else if e.in_worktree
    then only_local
    else only_main

unfoldable pub rows : Dict Sides → List Bytes → List (Bytes × Place)
unfolding place_of lookup
rows rels [] = []
rows rels (k ∷ ks) = (k, place_of (lookup k rels)) ∷ rows rels ks

-- The lines for the vaults that the walks have found.
unfoldable pub vault_report : Worktree → List Bytes → List Bytes → List (Bytes × Place)
unfolding mark_paths rows
vault_report w from_main from_worktree =
    let rels =
      mark_paths worktree_side w.root from_worktree (mark_paths main_side w.main from_main []) in
    rows rels (sort_strings (keys_of rels))

-- cmdWorktree: the worktree, and the lines, none where neither checkout has a vault.
unfoldable pub cmd_worktree : System → Disk → List Bytes → Result (Worktree × List (Bytes × Place))
unfolding vault_report
cmd_worktree sys disk args =
    if length args == 0
    then (work_dir sys >>= λ cwd. elim (find_worktree_from sys cwd) [
      | none ↦ err no_worktree
      | some w ↦
          let walked =
            λ (root : Bytes). walk_vaults sys.is_vault_file disk.lstat true root (disk.tree root) in
          ok (w, vault_report w (walked w.main) (walked w.root))
    ])
    else err usage
