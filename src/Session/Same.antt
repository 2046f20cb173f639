-- ===== src/Session/Same.antt =====
-- main.go and subshell.go: a subshell gives the same environment as `schain exec`.
use schain.Prelude.{
  ◌≡◌, refl, sym, ap, ◌∙◌, Bool, true, false, Option, none, some, inl, inr, List, [], ◌∷◌, ◌++◌,
  arith, if◌then◌else◌, Bool-cases, Option-cases,
}
use schain.Prelude.Text.{Bytes, codes, contains, str_eq, cut_byte-append}
use schain.Prelude.Paths.{base_of}
use schain.Prelude.Dict.{Dict}
use schain.Fail.{ok, >>=-ok}
use schain.Chain.{Chain, env, merge, nearest}
use schain.Environ.{find_env, previous_keys, is_marker, secret_environ}
use schain.Environ.Lookup.{find_env-secret_environ, find_env-append, or_next}
use schain.Subshell.{Temp, File, subshell_launch, marker_of, bash_init, write_temp, zsh_dot_dir}
use schain.Session.{Host, Launch, exec_with, enter_shell, current_shell, display}
use schain.Session.Child.{exec_with-ok, env-merge}

or_next-none : (o : Option Bytes) → or_next o none ≡ o
or_next-none none = refl
or_next-none (some v) = refl

-- What a shell is given beside the environment is the directory of its start files.
find_env-subshell_launch :
    (t : Temp) (mac : Bool) (marker shell : Bytes) (es : List Bytes) (k : Bytes)
    → str_eq (codes "ZDOTDIR") k ≡ false
    → find_env k (subshell_launch t mac marker shell es).environment ≡ find_env k es
unfolding subshell_launch find_env
find_env-subshell_launch t mac marker shell es k other =
    elim (Bool-cases (str_eq (base_of shell) (codes "bash"))) [
      | inl b ↦ elim (Option-cases (write_temp t (codes "bashrc") (bash_init mac marker))) [
        | inl n ↦ rw (subshell_launch, b, n) refl
        | inr (w, q) ↦ rw (subshell_launch, b, q) refl
      ]
      | inr b ↦ elim (Bool-cases (str_eq (base_of shell) (codes "zsh"))) [
        | inl z ↦ elim (Option-cases (zsh_dot_dir t marker)) [
          | inl n ↦ rw (subshell_launch, b, z, n) refl
          | inr (w, q) ↦ rw (subshell_launch, b, z, q) (without w.0)
        ]
        | inr z ↦ elim (Bool-cases (str_eq (base_of shell) (codes "fish"))) [
          | inl f ↦ rw (subshell_launch, b, z, f) refl
          | inr f ↦ rw (subshell_launch, b, z, f) refl
        ]
      ]
    ]
  where
    without : (dir : Bytes) → find_env k (es ++ (codes "ZDOTDIR=" ++ dir) ∷ []) ≡ find_env k es
    without dir =
        let last : find_env k ((codes "ZDOTDIR=" ++ dir) ∷ []) ≡ none =
          rw (find_env, cut_byte-append (codes "ZDOTDIR") dir b'=' (unfold contains in refl), other)
            refl in
        find_env-append k es ((codes "ZDOTDIR=" ++ dir) ∷ [])
        ∙ rw last (or_next-none (find_env k es))

module _ (h : Host) (c : Chain) where
  -- The environment that a subshell is given, for the names that find_env-subshell_launch keeps.
  abbrev IsGiven : List Bytes → Type 0
  IsGiven es =
      (m : Dict Bytes) × (shell : Bytes) × (found : List Bytes) × (merge h.sys.getenv true c ≡ ok m)
      × (secret_environ h.json h.sys.getenv h.environ m c.paths shell ≡ ok found)
      × ((k : Bytes) → str_eq (codes "ZDOTDIR") k ≡ false → find_env k es ≡ find_env k found)

  enter_shell-IsGiven :
      (l : Launch) (files : List File) → enter_shell h c ≡ ok (l, files) → IsGiven l.environment
  unfolding enter_shell
  enter_shell-IsGiven l files e =
      let named = h.sys.getenv (codes "SCHAIN_SHELL") in
      let shell = if str_eq named [] then current_shell h else named in
      let (near, _, e₁) = >>=-ok (nearest c) _ e in
      let (m, merged, e₂) = >>=-ok (env h.sys.getenv c) _ e₁ in
      let (es, made, e₃) =
        >>=-ok (secret_environ h.json h.sys.getenv h.environ m c.paths shell) _ e₂ in
      let start = subshell_launch h.temp h.mac (marker_of (display h.home near.1)) shell es in
      let same : start.environment ≡ l.environment = ground (arith, e₃) in
      (
        m,
        shell,
        es,
        sym (env-merge h.sys.getenv c) ∙ merged,
        made,
        λ k other.
            sym (ap (find_env k) same)
            ∙ find_env-subshell_launch h.temp h.mac (marker_of (display h.home near.1)) shell es k
                other,
      )

  -- A subshell and `schain exec` on one chain give their programs the same environment: under every name
  -- but the three markers and ZDOTDIR they find the same. The names that an outer shell had put in can
  -- be read.
  pub find_env-enter_shell :
      (name : Bytes) (args previous : List Bytes) (l l' : Launch) (files : List File) (k : Bytes)
      → previous_keys h.json h.sys.getenv ≡ ok previous
      → exec_with h c name args ≡ ok l
      → enter_shell h c ≡ ok (l', files)
      → is_marker k ≡ false
      → str_eq (codes "ZDOTDIR") k ≡ false
      → find_env k l'.environment ≡ find_env k l.environment
  find_env-enter_shell name args previous l l' files k prev run enter marker other =
      let (m, merged, made) = exec_with-ok h c name args l run in
      let (n, shell, found, merged', made', given) = enter_shell-IsGiven l' files enter in
      let same : n ≡ m = cc (merged, merged') in
      given k other
      ∙ find_env-secret_environ h.json h.sys.getenv h.environ n c.paths shell previous found k prev
          made' marker
      ∙ rw same refl
      ∙ sym (
          find_env-secret_environ h.json h.sys.getenv h.environ m c.paths [] previous l.environment
            k prev made marker)
