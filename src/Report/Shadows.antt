-- ===== src/Report/Shadows.antt =====
-- worktree.go: what the report says of a vault.
use schain.Prelude.{
  ◌≡◌, refl, ap, ◌∙◌, Bool, true, false, ◌||◌, Option, none, some, inl, inr, List, [], ◌∷◌, map,
  arith, if◌then◌else◌, Bool-cases, Option-cases,
}
use schain.Prelude.Text.{Bytes, str_eq, str_eq_sound, member}
use schain.Prelude.Dict.{
  Dict, lookup, insert, has_key, keys_of, lookup-insert, member-keys_of, lookup-nil, IsMap,
  insert-IsMap,
}
use schain.Prelude.Count.{count, count-sort_by, count-keys_of}
use schain.Prelude.Sort.{sort_strings, IsSorted, sort_by-IsSorted, member-sort_by}
use schain.Prelude.Paths.{rel_path}
use schain.Worktree.{Worktree}
use schain.Report.{
  Sides, Side, main_side, worktree_side, mark_side, mark_paths, Place, shadows_main, only_local,
  only_main, place_of, rows, vault_report,
}

-- The places of the paths below a root.
unfoldable pub places : Bytes → List Bytes → List Bytes
places root [] = []
places root (p ∷ ps) = elim (rel_path root p) [
  | none ↦ places root ps
  | some rel ↦ rel ∷ places root ps
]

mark_side_twice : (i : Side) (o : Option Sides) → mark_side i (some (mark_side i o)) ≡ mark_side i o
unfolding mark_side
mark_side_twice main_side none = refl
mark_side_twice main_side (some e) = refl
mark_side_twice worktree_side none = refl
mark_side_twice worktree_side (some e) = refl

-- A mark on one place, and on those that are in the rest.
lookup-marked :
    (i : Side) (rel k : Bytes) (rels : Dict Sides) (in_rest : Bool) (found : Option Sides)
    → found ≡ (
        if in_rest
        then some (mark_side i (lookup k (insert rel (mark_side i (lookup rel rels)) rels)))
        else lookup k (insert rel (mark_side i (lookup rel rels)) rels))
    → found
      ≡ (if str_eq rel k || in_rest then some (mark_side i (lookup k rels)) else lookup k rels)
lookup-marked i rel k rels in_rest found h =
    let put = lookup-insert rel k (mark_side i (lookup rel rels)) rels in
    elim (Bool-cases (str_eq rel k)) [
      | inr n ↦ ground (arith, n, put, h)
      | inl y ↦
          let same = ap (λ j. lookup j rels) (str_eq_sound rel k y) in
          ground (arith, y, put, h, same, mark_side_twice i (lookup k rels))
    ]

lookup-mark_paths :
    (i : Side) (root : Bytes) (ps : List Bytes) (rels : Dict Sides) (k : Bytes)
    → lookup k (mark_paths i root ps rels)
      ≡ (if member k (places root ps) then some (mark_side i (lookup k rels)) else lookup k rels)
unfolding mark_paths member places
lookup-mark_paths i root [] rels k = refl
lookup-mark_paths i root (p ∷ ps) rels k = elim (Option-cases (rel_path root p)) [
  | inl n ↦ rw (mark_paths, places, n) (lookup-mark_paths i root ps rels k)
  | inr (rel, e) ↦
      rw (mark_paths, places, e)
        (lookup-marked i rel k rels (member k (places root ps)) _
          (lookup-mark_paths i root ps (insert rel (mark_side i (lookup rel rels)) rels) k))
]

lookup-rows :
    (rels : Dict Sides) (k : Bytes) (ks : List Bytes)
    → lookup k (rows rels ks) ≡ (if member k ks then some (place_of (lookup k rels)) else none)
unfolding rows lookup member
lookup-rows rels k [] = refl
lookup-rows rels k (j ∷ ks) = elim (Bool-cases (str_eq j k)) [
  | inr n ↦ ground (arith, n, lookup-rows rels k ks)
  | inl y ↦ rw y (ap (λ i. some (place_of (lookup i rels))) (str_eq_sound j k y))
]

map-rows : (rels : Dict Sides) (ks : List Bytes) → map (λ r. r.0) (rows rels ks) ≡ ks
unfolding rows
map-rows rels [] = refl
map-rows rels (k ∷ ks) = ap (λ l. k ∷ l) (map-rows rels ks)

mark_paths-IsMap :
    (i : Side) (root : Bytes) (ps : List Bytes) (rels : Dict Sides)
    → IsMap rels
    → IsMap (mark_paths i root ps rels)
unfolding mark_paths
mark_paths-IsMap i root [] rels h = h
mark_paths-IsMap i root (p ∷ ps) rels h = elim (Option-cases (rel_path root p)) [
  | inl n ↦ rw (mark_paths, n) (mark_paths-IsMap i root ps rels h)
  | inr (rel, e) ↦
      rw (mark_paths, e)
        (mark_paths-IsMap i root ps (insert rel (mark_side i (lookup rel rels)) rels)
          (insert-IsMap rel (mark_side i (lookup rel rels)) rels h))
]

-- Both walks together have marked the places of either.
has_key-marked :
    (k : Bytes) (w : Worktree) (from_main from_worktree : List Bytes)
    → has_key k
        (mark_paths worktree_side w.root from_worktree (mark_paths main_side w.main from_main []))
      ≡ (member k (places w.main from_main) || member k (places w.root from_worktree))
unfolding has_key
has_key-marked k w from_main from_worktree =
    let main = mark_paths main_side w.main from_main [] in
    ground (
      arith,
      lookup-mark_paths main_side w.main from_main [] k,
      lookup-mark_paths worktree_side w.root from_worktree main k,
      lookup-nil {V = Sides} k,
    )

-- What a place in one checkout, in the other or in both is told to be.
abbrev pub told : Bool → Bool → Option Place
told true true = some shadows_main
told true false = some only_main
told false true = some only_local
told false false = none

told-place_of :
    (main here : Bool) (o u : Option Sides)
    → o ≡ (if main then some (mark_side main_side none) else none)
    → u ≡ (if here then some (mark_side worktree_side o) else o)
    → (if (elim u [ none ↦ false | some e ↦ true ]) then some (place_of u) else none)
      ≡ told main here
unfolding mark_side place_of
told-place_of true true o u h g = rw (g, h) refl
told-place_of true false o u h g = rw (g, h) refl
told-place_of false true o u h g = rw (g, h) refl
told-place_of false false o u h g = rw (g, h) refl

-- `schain worktree` has, in order, exactly one line for each place where one of the checkouts has a
-- vault, and none for another place. The line tells, where both have one, that the worktree's shadows
-- the other, and else in which of the two it is.
pub vault_report-told :
    (w : Worktree) (from_main from_worktree : List Bytes) (k : Bytes)
    → IsSorted (map (λ r. r.0) (vault_report w from_main from_worktree))
      × (count k (map (λ r. r.0) (vault_report w from_main from_worktree)) ≡ (
          if member k (places w.main from_main) || member k (places w.root from_worktree)
          then 1
          else 0))
      × (lookup k (vault_report w from_main from_worktree)
          ≡ told (member k (places w.main from_main)) (member k (places w.root from_worktree)))
unfolding vault_report has_key
vault_report-told w from_main from_worktree k =
    let main = mark_paths main_side w.main from_main [] in
    let rels = mark_paths worktree_side w.root from_worktree main in
    let listed = member-sort_by k (keys_of rels) ∙ member-keys_of k rels in
    (
      rw (map-rows rels (sort_strings (keys_of rels))) (sort_by-IsSorted (keys_of rels)),
      rw (map-rows rels (sort_strings (keys_of rels))) (
          count-sort_by k (keys_of rels)
          ∙ count-keys_of k rels (
              mark_paths-IsMap worktree_side w.root from_worktree main
                (mark_paths-IsMap main_side w.main from_main [] tt))
          ∙ ap (λ b. if b then 1 else 0) (has_key-marked k w from_main from_worktree)),
      lookup-rows rels k (sort_strings (keys_of rels))
          ∙ ap (λ b. if b then some (place_of (lookup k rels)) else none) listed
          ∙ told-place_of _ _ (lookup k main) (lookup k rels)
              (lookup-mark_paths main_side w.main from_main [] k)
              (lookup-mark_paths worktree_side w.root from_worktree main k),
    )
