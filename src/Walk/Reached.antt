-- ===== src/Walk/Reached.antt =====
-- chain.go: which files walkVaults finds.
use schain.Prelude.{
  ◌≡◌, refl, sym, ap, ◌∙◌, ◌↔◌, ◌⊎◌, Bool, true, false, inl, inr, List, [], ◌∷◌, ◌++◌, arith,
  Bool-cases,
}
use schain.Prelude.Text.{Bytes, str_eq, str_eq_sound, str_eq_refl, member, member-append}
use schain.Prelude.Paths.{join_path, base_of}
use schain.Vault.{vault_name}
use schain.Worktree.{dot_git}
use schain.Walk.{
  Node, leaf, folder, Children, childless, child, enters, take_file, walk, walk_all, walk_vaults,
}

-- A child of a directory, by its name.
pub data HasChild : Bytes → Node → Children → Type 0 where
  first_child : {name : Bytes} {t : Node} {cs : Children} → HasChild name t (child name t cs)
  later_child :
      {name other : Bytes} {t u : Node} {cs : Children}
      → HasChild name t cs
      → HasChild name t (child other u cs)

-- The names that lead from a node down to what is not a directory.
pub data LeadsTo : Node → List Bytes → Type 0 where
  arrived : LeadsTo leaf []
  down :
      {name : Bytes} {names : List Bytes} {t : Node} {cs : Children}
      → HasChild name t cs
      → LeadsTo t names
      → LeadsTo (folder cs) (name ∷ names)

-- The path at the end of the names.
abbrev pub path_along : Bytes → List Bytes → Bytes
path_along path [] = path
path_along path (name ∷ names) = path_along (join_path path name) names

member-either :
    (q : Bytes) (xs ys : List Bytes)
    → member q (xs ++ ys) ≡ true
    → (member q xs ≡ true) ⊎ (member q ys ≡ true)
member-either q xs ys h = ground (arith, h, member-append q xs ys)

member-join_right :
    (q : Bytes) (xs ys : List Bytes) → member q ys ≡ true → member q (xs ++ ys) ≡ true
member-join_right q xs ys h = ground (arith, h, member-append q xs ys)

member-join_left :
    (q : Bytes) (xs ys : List Bytes) → member q xs ≡ true → member q (xs ++ ys) ≡ true
member-join_left q xs ys h = ground (arith, h, member-append q xs ys)

module _ (is_vault_file exists : Bytes → Bool) (skip_nested : Bool) (root : Bytes) where
  -- A directory that is not `.git` and, where other checkouts are skipped, is the root or no checkout.
  pub record IsEntered (path name : Bytes) : Type 0 where
    pub not_git : str_eq name dot_git ≡ false
    pub not_nested :
        (skip_nested ≡ false) ⊎ ((path ≡ root) ⊎ (exists (join_path path dot_git) ≡ false))

  -- Every directory on the way is one, and at its end is a vault file of the right name.
  abbrev pub IsOpen : Bytes → Bytes → List Bytes → Type 0
  IsOpen path name [] = (name ≡ vault_name) × (is_vault_file path ≡ true)
  IsOpen path name (next_name ∷ names) =
      IsEntered path name × IsOpen (join_path path next_name) next_name names

  enters-IsEntered :
      (path name : Bytes)
      → enters is_vault_file exists skip_nested root path name ≡ true
      → IsEntered path name
  unfolding enters
  enters-IsEntered path name h = record {
    not_git = ground (arith, h);
    not_nested = elim (Bool-cases (str_eq path root)) [
      | inl y ↦ inr (inl (str_eq_sound path root y))
      | inr n ↦ ground (arith, h, n)
    ];
  }

  enters-eq-true :
      (path name : Bytes)
      → IsEntered path name
      → enters is_vault_file exists skip_nested root path name ≡ true
  unfolding enters
  enters-eq-true path name h = elim h.not_nested [
    | inl off ↦ ground (arith, h.not_git, off)
    | inr (inl same) ↦ ground (arith, h.not_git, ap (λ p. str_eq p root) same ∙ str_eq_refl root)
    | inr (inr plain) ↦ ground (arith, h.not_git, plain)
  ]

  -- The file is at the end of such a way.
  abbrev pub IsReached : Bytes → Bytes → Node → Bytes → Type 0
  IsReached path name t q =
      (names : List Bytes) × LeadsTo t names × IsOpen path name names × (q ≡ path_along path names)

  abbrev IsReachedIn : Bytes → Children → Bytes → Type 0
  IsReachedIn path cs q =
      (name : Bytes) × (t : Node) × HasChild name t cs × IsReached (join_path path name) name t q

  take_file-parts :
      (path name q : Bytes)
      → member q (take_file is_vault_file exists skip_nested root path name) ≡ true
      → (str_eq name vault_name ≡ true) × (is_vault_file path ≡ true) × (str_eq path q ≡ true)
  unfolding take_file member
  take_file-parts path name q h = ground (arith, h)

  take_file-IsReached :
      (path name q : Bytes)
      → member q (take_file is_vault_file exists skip_nested root path name) ≡ true
      → IsReached path name leaf q
  take_file-IsReached path name q h =
      let (a, b, c) = take_file-parts path name q h in
      ([], arrived, (str_eq_sound name vault_name a, b), sym (str_eq_sound path q c))

  member-take_file :
      (path name : Bytes)
      → name ≡ vault_name
      → is_vault_file path ≡ true
      → member path (take_file is_vault_file exists skip_nested root path name) ≡ true
  unfolding take_file member
  member-take_file path name e v =
      rw (ap (λ n. str_eq n vault_name) e ∙ str_eq_refl vault_name, v, str_eq_refl path) refl

  mutual
    unfolding walk member

    walk-IsReached :
        (path name : Bytes) (t : Node) (q : Bytes)
        → member q (walk is_vault_file exists skip_nested root path name t) ≡ true
        → IsReached path name t q
    walk-IsReached path name leaf q h = take_file-IsReached path name q h
    walk-IsReached path name (folder cs) q h =
        elim (Bool-cases (enters is_vault_file exists skip_nested root path name)) [
          | inr n ↦ cc (rw n at h)
          | inl y ↦
              let (sub, t, has, (names, leads, is_open, e)) =
                walk_all-IsReached path cs q (rw y at h) in
              (sub ∷ names, down has leads, (enters-IsEntered path name y, is_open), e)
        ]

    walk_all-IsReached :
        (path : Bytes) (cs : Children) (q : Bytes)
        → member q (walk_all is_vault_file exists skip_nested root path cs) ≡ true
        → IsReachedIn path cs q
    walk_all-IsReached path childless q h = cc
    walk_all-IsReached path (child name t cs) q h =
        elim (member-either q _ (walk_all is_vault_file exists skip_nested root path cs) h) [
          | inl y ↦ (name, t, first_child, walk-IsReached (join_path path name) name t q y)
          | inr y ↦
              let (sub, u, has, r) = walk_all-IsReached path cs q y in (sub, u, later_child has, r)
        ]

  mutual
    unfolding walk member

    member-walk :
        (path name : Bytes) (t : Node) (names : List Bytes)
        → LeadsTo t names
        → IsOpen path name names
        → member (path_along path names) (walk is_vault_file exists skip_nested root path name t)
          ≡ true
    member-walk path name leaf [] arrived (a, b) = member-take_file path name a b
    member-walk path name leaf (sub ∷ names) leads is_open = elim leads [ ]
    member-walk path name (folder cs) [] leads is_open = elim leads [ ]
    member-walk path name (folder cs) (sub ∷ names) (down {t} has leads) (y, is_open) =
        rw (enters-eq-true path name y) (member-walk_all path sub t cs names has leads is_open)

    member-walk_all :
        (path sub : Bytes) (t : Node) (cs : Children) (names : List Bytes)
        → HasChild sub t cs
        → LeadsTo t names
        → IsOpen (join_path path sub) sub names
        → member
            (path_along (join_path path sub) names)
            (walk_all is_vault_file exists skip_nested root path cs)
          ≡ true
    member-walk_all path sub t childless names has leads is_open = elim has [ ]
    member-walk_all path _ _ (child sub t cs) names first_child leads is_open =
        member-join_left _ _ (walk_all is_vault_file exists skip_nested root path cs)
          (member-walk (join_path path sub) sub t names leads is_open)
    member-walk_all path sub t (child other u cs) names (later_child has) leads is_open =
        member-join_right _
          (walk is_vault_file exists skip_nested root (join_path path other) other u) _
          (member-walk_all path sub t cs names has leads is_open)

  -- walkVaults finds a file exactly when names lead to it from the root through directories none of
  -- which is `.git` and, where other checkouts are skipped, none below the root is one, and it is a
  -- vault file of the name `.schain`; the file may be the root itself.
  pub walk_vaults_iff :
      (t : Node) (q : Bytes)
      → (member q (walk_vaults is_vault_file exists skip_nested root t) ≡ true)
        ↔ IsReached root (base_of root) t q
  unfolding walk_vaults
  walk_vaults_iff t q = (
    walk-IsReached root (base_of root) t q,
    λ (names, leads, is_open, e).
        ap (λ p. member p (walk is_vault_file exists skip_nested root root (base_of root) t)) e
        ∙ member-walk root (base_of root) t names leads is_open,
  )
