-- ===== src/Worktree/Backlink.antt =====
-- worktree.go: what a checkout must show before it is taken for a linked worktree.
use schain.Prelude.{
  ◌≡◌, ◌≢◌, refl, sym, ap, ◌∙◌, false, Option, none, some, inl, inr, arith, Option-cases,
}
use schain.Prelude.Text.{Bytes, codes, str_eq, str_eq_refl, str_eq_sound}
use schain.Prelude.Paths.{join_path, dir_of, base_of, trim_space}
use schain.Worktree.{
  Files, Worktree, ◌>->◌, dot_git, cut_prefix, physical, check_back, check_common, find_worktree,
}

-- The metadata directory `git_dir` is an entry of the main repository `c`, and names the checkout
-- `dir` itself.
pub record IsBacked (fs : Files) (dir git_dir c : Bytes) (w : Worktree) : Type 0 where
  pub backlink : Bytes
  pub common_base : base_of c ≡ dot_git
  pub git_dir_place : dir_of git_dir ≡ join_path c (codes "worktrees")
  pub backlink_read : fs.read_file (join_path git_dir (codes "gitdir")) ≡ some backlink
  pub backlink_target : physical fs git_dir (trim_space backlink) ≡ some (join_path dir dot_git)
  pub root_eq : w.root ≡ dir
  pub main_eq : w.main ≡ dir_of c
  pub main_ne : w.main ≢ w.root

-- The checkout, its metadata and the main repository are all physical paths, and the metadata backs
-- the checkout.
pub record IsLinked (fs : Files) (w : Worktree) : Type 0 where
  pub full : Bytes
  pub git_text : Bytes
  pub common_text : Bytes
  pub git_dir : Bytes
  pub common : Bytes
  pub root_physical : fs.eval_symlinks full ≡ some w.root
  pub git_dir_physical : physical fs w.root git_text ≡ some git_dir
  pub common_read : fs.read_file (join_path git_dir (codes "commondir")) ≡ some common_text
  pub common_physical : physical fs git_dir (trim_space common_text) ≡ some common
  pub backed : IsBacked fs w.root git_dir common w

>->-some {ℓ κ} :
    {A : Type ℓ} {B : Type κ} (o : Option A) (f : A → Option B) (b : B)
    → (o >-> f) ≡ some b
    → (a : A) × (o ≡ some a) × (f a ≡ some b)
>->-some none f b e = ground (arith, e)
>->-some (some a) f b e = (a, refl, e)

str_eq_ne : (s t : Bytes) → str_eq s t ≡ false → s ≢ t
str_eq_ne s t e q = ground (arith, e, str_eq_refl t, q)

module _ (fs : Files) (dir git_dir c : Bytes) (w : Worktree) where
  -- The end of the search, once the backlink's target is known.
  check_back-target :
      (back b : Bytes)
      → physical fs git_dir back ≡ some b
      → check_back fs dir git_dir c back ≡ some w
      → (b ≡ join_path dir dot_git)
        × (w ≡ record { root = dir; main = dir_of c })
        × (str_eq (dir_of c) dir ≡ false)
  unfolding check_back
  check_back-target back b p e = ground (arith, p, str_eq_sound b (join_path dir dot_git))

  check_back-some :
      (back : Bytes)
      → check_back fs dir git_dir c back ≡ some w
      → (b : Bytes) × (physical fs git_dir back ≡ some b)
  unfolding check_back
  check_back-some back e = elim (Option-cases (physical fs git_dir back)) [
    | inl n ↦ ground (arith, n, e)
    | inr q ↦ q
  ]

  check_common-guards :
      check_common fs dir git_dir c ≡ some w
      → (base_of c ≡ dot_git)
        × (dir_of git_dir ≡ join_path c (codes "worktrees"))
        × ((fs.read_file (join_path git_dir (codes "gitdir")) >-> λ backlink.
              check_back fs dir git_dir c (trim_space backlink))
            ≡ some w)
  unfolding check_common
  check_common-guards e = ground (
    arith,
    e,
    str_eq_sound (base_of c) dot_git,
    str_eq_sound (dir_of git_dir) (join_path c (codes "worktrees")),
  )

  check_common-IsBacked : check_common fs dir git_dir c ≡ some w → IsBacked fs dir git_dir c w
  check_common-IsBacked e =
      let (base, place, rest) = check_common-guards e in
      let (back, read, found) =
        >->-some (fs.read_file (join_path git_dir (codes "gitdir")))
          (λ t. check_back fs dir git_dir c (trim_space t)) w rest in
      let (b, target) = check_back-some (trim_space back) found in
      let (same, made, ne) = check_back-target (trim_space back) b target found in
      record {
        backlink = back;
        common_base = base;
        git_dir_place = place;
        backlink_read = read;
        backlink_target = target ∙ ap some same;
        root_eq = ap (λ x. x.root) made;
        main_eq = ap (λ x. x.main) made;
        main_ne = rw made (str_eq_ne (dir_of c) dir ne);
      }

module _ (fs : Files) where
  IsLinked-intro :
      (full dir text common git_dir c : Bytes) (w : Worktree)
      → fs.eval_symlinks full ≡ some dir
      → physical fs dir text ≡ some git_dir
      → fs.read_file (join_path git_dir (codes "commondir")) ≡ some common
      → physical fs git_dir (trim_space common) ≡ some c
      → IsBacked fs dir git_dir c w
      → IsLinked fs w
  IsLinked-intro full dir text common git_dir c w e1 e4 e5 e6 b = record {
    full = full;
    git_text = text;
    common_text = common;
    git_dir = git_dir;
    common = c;
    root_physical = rw b.root_eq e1;
    git_dir_physical = rw b.root_eq e4;
    common_read = e5;
    common_physical = e6;
    backed = at_root dir w.root (sym b.root_eq) b;
  }
    where
      at_root : (d r : Bytes) → d ≡ r → IsBacked fs d git_dir c w → IsBacked fs r git_dir c w
      at_root d r e q = rw (← e) q

  -- A directory is taken for a linked worktree only if its metadata directory stands, as a physical
  -- path, among the worktrees of a repository whose directory is called .git, and the backlink of that
  -- metadata leads to the checkout itself. The main checkout is then the directory that holds this
  -- repository, and another one than the worktree.
  pub find_worktree-IsLinked :
      (given : Bytes) (w : Worktree) → find_worktree fs given ≡ some w → IsLinked fs w
  unfolding find_worktree
  find_worktree-IsLinked given w e =
      let (full, e0, r0) = >->-some (fs.abs given) _ w e in
      let (dir, e1, r1) = >->-some (fs.eval_symlinks full) _ w r0 in
      let (blob, e2, r2) = >->-some (fs.read_file (join_path dir dot_git)) _ w r1 in
      let (text, e3, r3) = >->-some (cut_prefix (trim_space blob) (codes "gitdir:")) _ w r2 in
      let (git_dir, e4, r4) = >->-some (physical fs dir (trim_space text)) _ w r3 in
      let (common, e5, r5) =
        >->-some (fs.read_file (join_path git_dir (codes "commondir"))) _ w r4 in
      let (c, e6, r6) = >->-some (physical fs git_dir (trim_space common)) _ w r5 in
      IsLinked-intro full dir (trim_space text) common git_dir c w e1 e4 e5 e6
        (check_common-IsBacked fs dir git_dir c w r6)
