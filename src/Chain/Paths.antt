-- ===== src/Chain/Paths.antt =====
-- `mergePaths` and what `sourceOf` names.
use schain.Prelude.{
  ◌≡◌, refl, ◌∙◌, Bool, false, ◌||◌, inl, inr, List, [], ◌∷◌, ◌++◌, arith, Bool-cases,
}
use schain.Prelude.Text.{Bytes, str_eq_iff, member, member-append}
use schain.Chain.{merge_list, merge_lists, merge_paths}

abbrev pub NoRepeat : List Bytes → Type 0
NoRepeat [] = Unit
NoRepeat (p ∷ ps) = (member p ps ≡ false) × NoRepeat ps

unfoldable pub in_some : Bytes → List (List Bytes) → Bool
in_some p [] = false
in_some p (l ∷ ls) = member p l || in_some p ls

NoRepeat-append :
    (ps : List Bytes) (p : Bytes) → member p ps ≡ false → NoRepeat ps → NoRepeat (ps ++ p ∷ [])
NoRepeat-append [] p n h = (unfold member in refl, tt)
NoRepeat-append (q ∷ ps) p n h = (still, NoRepeat-append ps p (tail_free n) h.1)
  where
    tail_free : member p (q ∷ ps) ≡ false → member p ps ≡ false
    tail_free m = unfold member in ground (arith, m)

    still : member q (ps ++ p ∷ []) ≡ false
    still =
        unfold member in
        ground (arith, n, h.0, member-append q ps (p ∷ []), str_eq_iff p q, str_eq_iff q p)

merge_list-NoRepeat : (l out : List Bytes) → NoRepeat out → NoRepeat (merge_list l out)
unfolding merge_list
merge_list-NoRepeat [] out h = h
merge_list-NoRepeat (p ∷ l) out h = elim (Bool-cases (member p out)) [
  | inl y ↦ rw y (merge_list-NoRepeat l out h)
  | inr n ↦ rw n (merge_list-NoRepeat l (out ++ p ∷ []) (NoRepeat-append out p n h))
]

member-merge_list :
    (q : Bytes) (l out : List Bytes) → member q (merge_list l out) ≡ (member q out || member q l)
unfolding merge_list member
member-merge_list q [] out = ground arith
member-merge_list q (p ∷ l) out = ground (
  arith,
  member-merge_list q l out,
  member-merge_list q l (out ++ p ∷ []),
  member-append q out (p ∷ []),
  str_eq_iff p q,
)

merge_lists-NoRepeat :
    (ls : List (List Bytes)) (out : List Bytes) → NoRepeat out → NoRepeat (merge_lists ls out)
unfolding merge_lists
merge_lists-NoRepeat [] out h = h
merge_lists-NoRepeat (l ∷ ls) out h =
    merge_lists-NoRepeat ls (merge_list l out) (merge_list-NoRepeat l out h)

member-merge_lists :
    (q : Bytes) (ls : List (List Bytes)) (out : List Bytes)
    → member q (merge_lists ls out) ≡ (member q out || in_some q ls)
unfolding merge_lists in_some
member-merge_lists q [] out = ground arith
member-merge_lists q (l ∷ ls) out =
    ground (arith, member-merge_lists q ls (merge_list l out), member-merge_list q l out)

-- mergePaths puts out every path of every list, nothing else, and no path twice.
pub merge_paths_lem :
    (ls : List (List Bytes))
    → NoRepeat (merge_paths ls) × ((q : Bytes) → member q (merge_paths ls) ≡ in_some q ls)
unfolding merge_paths
merge_paths_lem ls =
    (merge_lists-NoRepeat ls [] tt, λ q. member-merge_lists q ls [] ∙ unfold member in refl)
