-- ===== src/Discover/Resolved.antt =====
-- chain.go: what resolveVaults finds, and the directories that its vaults apply to.
use schain.Prelude.{
  ℕ, zero, suc, ◌≤◌, ◌<◌, ◌==◌, ◌≡◌, refl, sym, ap, ◌∙◌, inl, inr, Bool, true, false, not, Option,
  none, some, List, [], ◌∷◌, arith, All, All-append, Bool-cases, Option-cases,
}
use schain.Prelude.Text.{Bytes, codes, str_eq, str_eq_sound, member}
use schain.Prelude.Dict.{Dict, lookup, insert, lookup-insert}
use schain.Prelude.Paths.{join_path, join_path3, rel_path, dir_of}
use schain.Vault.{vault_name}
use schain.Worktree.{Worktree, find_worktree}
use schain.Discover.{
  System, Found, take_path, stand_in, resolve_level, resolve_levels, resolve_from, worktree_at,
  levels_upward, level_fuel,
}

-- The directory so many levels above one.
unfoldable pub ancestor : ℕ → Bytes → Bytes
ancestor zero dir = dir
ancestor (suc n) dir = dir_of (ancestor n dir)

-- SCHAIN_NO_WORKTREE is not set.
abbrev pub is_wanted : System → Bool
is_wanted sys = str_eq (sys.getenv (codes "SCHAIN_NO_WORKTREE")) []

module _ (sys : System) (cwd : Bytes) where
  -- findWorktree answers with nothing at the levels below one.
  abbrev pub NoneBelow : ℕ → Type 0
  NoneBelow n = (j : ℕ) → j < n → find_worktree sys.files (ancestor j cwd) ≡ none

  -- The worktree that a search has found, if there is one, was asked for, and is what findWorktree
  -- answers with at its level, which is the lowest where it answers.
  abbrev pub Answered : Option (Worktree × ℕ) → Type 0
  Answered none = Unit
  Answered (some (w, level)) =
      (is_wanted sys ≡ true)
      × (find_worktree sys.files (ancestor level cwd) ≡ some w)
      × NoneBelow level

  abbrev Searched : ℕ → Option (Worktree × ℕ) → Type 0
  Searched i none = is_wanted sys ≡ true → NoneBelow i
  Searched i (some found) = Answered (some found)

  Searched-Answered : (i : ℕ) (w : Option (Worktree × ℕ)) → Searched i w → Answered w
  Searched-Answered i none h = tt
  Searched-Answered i (some (w, level)) h = h

  NoneBelow-suc :
      (i : ℕ) → NoneBelow i → find_worktree sys.files (ancestor i cwd) ≡ none → NoneBelow (suc i)
  NoneBelow-suc i h e j less = elim (Bool-cases (j == i)) [
    | inl y ↦
        let same : j ≡ i = ground (arith, y) in
        ap (λ n. find_worktree sys.files (ancestor n cwd)) same ∙ e
    | inr n ↦ h j (ground (arith, n, less))
  ]

  worktree_at-Searched :
      (i : ℕ) (dir : Bytes) (w : Option (Worktree × ℕ))
      → dir ≡ ancestor i cwd
      → Searched i w
      → Searched (suc i) (worktree_at sys (not (is_wanted sys)) i dir w)
  unfolding worktree_at
  worktree_at-Searched i dir (some (w, level)) d h = h
  worktree_at-Searched i dir none d h = elim (Bool-cases (is_wanted sys)) [
    | inr off ↦ rw off (λ on. absurd (ground (arith, off, on)))
    | inl on ↦
        let at = sym (ap (find_worktree sys.files) d) in
        elim (Option-cases (find_worktree sys.files dir)) [
          | inl n ↦ rw (on, n) (λ _. NoneBelow-suc i (h on) (at ∙ n))
          | inr (w, e) ↦ rw (on, e) (on, at ∙ e, h on)
        ]
  ]

  -- The directories are those upward from a level.
  abbrev AreLevels : ℕ → List Bytes → Type 0
  AreLevels i [] = Unit
  AreLevels i (dir ∷ dirs) = (dir ≡ ancestor i cwd) × AreLevels (suc i) dirs

  levels_upward-AreLevels :
      (n i : ℕ) (dir : Bytes) (w : Option (Worktree × ℕ))
      → dir ≡ ancestor i cwd
      → Searched i w
      → AreLevels i (levels_upward sys (not (is_wanted sys)) n i dir w).0
        × Answered (levels_upward sys (not (is_wanted sys)) n i dir w).1
  unfolding levels_upward
  levels_upward-AreLevels zero i dir w d h = (tt, Searched-Answered i w h)
  levels_upward-AreLevels (suc n) i dir w d h =
      let h' = worktree_at-Searched i dir w d h in
      let w' = worktree_at sys (not (is_wanted sys)) i dir w in
      let above : dir_of dir ≡ ancestor (suc i) cwd = unfold ancestor in ap dir_of d in
      elim (Bool-cases (str_eq (dir_of dir) dir)) [
        | inl y ↦ rw (levels_upward, y) ((d, tt), Searched-Answered (suc i) w' h')
        | inr m ↦
            let (a, b) = levels_upward-AreLevels n (suc i) (dir_of dir) w' above h' in
            rw (levels_upward, m) ((d, a), b)
      ]

  -- One level's vault: where it stands, that the directory it stands in for has none of its own, and
  -- that this directory is at the worktree's level or below.
  pub record StandsIn (w : Worktree) (level : ℕ) (q dir : Bytes) : Type 0 where
    pub inside : (i : ℕ) × (i ≤ level) × (dir ≡ ancestor i cwd)
    pub is_there : sys.is_vault_file q ≡ true
    pub none_here : sys.is_vault_file (join_path dir vault_name) ≡ false
    pub place :
        (rel : Bytes) × (rel_path w.root dir ≡ some rel) × (q ≡ join_path3 w.main rel vault_name)

  abbrev pub Borrowed : Option (Worktree × ℕ) → Dict Bytes → Type 0
  Borrowed none m = (q : Bytes) → lookup q m ≡ none
  Borrowed (some (w, level)) m = (q dir : Bytes) → lookup q m ≡ some dir → StandsIn w level q dir

  abbrev pub AllThere : List Bytes → Type 0
  AllThere = All (λ p. sys.is_vault_file p ≡ true)

  pub record IsSound (w : Option (Worktree × ℕ)) (f : Found) : Type 0 where
    pub there : AllThere f.paths
    pub borrowing : Borrowed w f.borrowed

  take_path-AllThere :
      (p : Bytes) (f : Found)
      → sys.is_vault_file p ≡ true
      → AllThere f.paths
      → AllThere (take_path p f).paths
  unfolding take_path
  take_path-AllThere p f h v = elim (Bool-cases (member p f.paths)) [
    | inl y ↦ rw y v
    | inr n ↦ rw n (All-append (λ q. sys.is_vault_file q ≡ true) f.paths (p ∷ []) v (h, tt))
  ]

  borrowed-take_path : (p : Bytes) (f : Found) → (take_path p f).borrowed ≡ f.borrowed
  unfolding take_path
  borrowed-take_path p f = ground arith

  stand_in-StandsIn :
      (w : Worktree) (level i : ℕ) (dir q : Bytes)
      → dir ≡ ancestor i cwd
      → sys.is_vault_file (join_path dir vault_name) ≡ false
      → stand_in sys (some (w, level)) i dir ≡ some q
      → StandsIn w level q dir
  unfolding stand_in
  stand_in-StandsIn w level i dir q d n e = elim (Option-cases (rel_path w.root dir)) [
    | inl m ↦ absurd (ground (arith, m, e))
    | inr (rel, m) ↦
        let (a, b) = at rel m in
        record { inside = (i, near, d); is_there = a; none_here = n; place = (rel, m, b) }
  ]
    where
      near : i ≤ level
      near = ground (arith, e)

      at :
          (rel : Bytes)
          → rel_path w.root dir ≡ some rel
          → (sys.is_vault_file q ≡ true) × (q ≡ join_path3 w.main rel vault_name)
      at rel m = ground (arith, m, e)

  insert-Borrowed :
      (w : Worktree) (level : ℕ) (m : Dict Bytes) (q dir : Bytes)
      → StandsIn w level q dir
      → Borrowed (some (w, level)) m
      → Borrowed (some (w, level)) (insert q dir m)
  insert-Borrowed w level m q dir s v p d e = elim (Bool-cases (str_eq q p)) [
    | inl y ↦
        let same : d ≡ dir = ground (arith, y, e, lookup-insert q p dir m) in
        rw (sym (str_eq_sound q p y)) (rw same s)
    | inr n ↦ v p d (ground (arith, n, e, lookup-insert q p dir m))
  ]

  abbrev borrow : Option (Worktree × ℕ) → ℕ → Bytes → Found → Found
  borrow w i dir f = elim (stand_in sys w i dir) [
    | none ↦ f
    | some q ↦ take_path q (record f { borrowed = insert q dir f.borrowed })
  ]

  borrow-IsSound :
      (w : Option (Worktree × ℕ)) (i : ℕ) (dir : Bytes) (f : Found)
      → dir ≡ ancestor i cwd
      → sys.is_vault_file (join_path dir vault_name) ≡ false
      → IsSound w f
      → IsSound w (borrow w i dir f)
  borrow-IsSound none i dir f d n v = unfold stand_in in v
  borrow-IsSound (some (w, level)) i dir f d n v =
      elim (Option-cases (stand_in sys (some (w, level)) i dir)) [
        | inl e ↦ rw (borrow, e) v
        | inr (q, e) ↦
            let s = stand_in-StandsIn w level i dir q d n e in
            let f' = record f { borrowed = insert q dir f.borrowed } in
            rw (borrow, e)
              (record {
                there = take_path-AllThere q f' s.is_there v.there;
                borrowing =
                    rw (borrowed-take_path q f')
                      (insert-Borrowed w level f.borrowed q dir s v.borrowing);
              })
      ]

  resolve_level-IsSound :
      (w : Option (Worktree × ℕ)) (i : ℕ) (dir : Bytes) (f : Found)
      → dir ≡ ancestor i cwd
      → IsSound w f
      → IsSound w (resolve_level sys w i dir f)
  unfolding resolve_level
  resolve_level-IsSound w i dir f d v =
      elim (Bool-cases (sys.is_vault_file (join_path dir vault_name))) [
        | inl y ↦ rw y (record {
          there = take_path-AllThere (join_path dir vault_name) f y v.there;
          borrowing = rw (borrowed-take_path (join_path dir vault_name) f) v.borrowing;
        })
        | inr n ↦ rw n (borrow-IsSound w i dir f d n v)
      ]

  resolve_levels-IsSound :
      (w : Option (Worktree × ℕ)) (i : ℕ) (dirs : List Bytes) (f : Found)
      → AreLevels i dirs
      → IsSound w f
      → IsSound w (resolve_levels sys w i dirs f)
  unfolding resolve_levels
  resolve_levels-IsSound w i [] f l v = v
  resolve_levels-IsSound w i (dir ∷ dirs) f (d, l) v =
      resolve_levels-IsSound w (suc i) dirs (resolve_level sys w i dir f) l
        (resolve_level-IsSound w i dir f d v)

  empty-IsSound : (w : Option (Worktree × ℕ)) → IsSound w (record { paths = []; borrowed = [] })
  empty-IsSound none = record { there = tt; borrowing = λ q. unfold lookup in refl }
  empty-IsSound (some (w, level)) = record {
    there = tt;
    borrowing = λ q dir e. absurd (none_there q dir e);
  }
    where
      none_there : (q dir : Bytes) → lookup {V = Bytes} q [] ≡ some dir → ⊥
      none_there q dir e = unfold lookup in cc e

  -- Every path that resolveVaults returns is that of a vault file. A path is marked as borrowed only
  -- if SCHAIN_NO_WORKTREE is not set and findWorktree answers with a linked worktree at a level, the
  -- lowest where it answers. The directory that the path is marked with is then that level's or one
  -- of those below it, down to the directory asked about, and has no vault of its own, and the path is
  -- that of the vault at the same place, relative to the worktree's root, in the main checkout.
  pub resolve_from-IsSound :
      (w : Option (Worktree × ℕ)) × Answered w × IsSound w (resolve_from sys cwd)
  unfolding resolve_from
  resolve_from-IsSound =
      let l = levels_upward sys (not (is_wanted sys)) (level_fuel cwd) 0 cwd none in
      let (levels, answered) =
        levels_upward-AreLevels (level_fuel cwd) 0 cwd none (unfold ancestor in refl) none_yet in
      (
        l.1,
        answered,
        resolve_levels-IsSound l.1 0 l.0 (record { paths = []; borrowed = [] }) levels
            (empty-IsSound l.1),
      )
    where
      none_yet : is_wanted sys ≡ true → NoneBelow 0
      none_yet on j less = absurd (omega arith)
