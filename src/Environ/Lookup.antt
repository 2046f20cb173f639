-- ===== src/Environ/Lookup.antt =====
-- What a child finds in its environment.
use schain.Prelude.{
  ◌≡◌, refl, true, false, Option, none, some, inl, inr, List, [], ◌∷◌, ◌++◌, arith, if◌then◌else◌,
  Bool-cases, Option-cases, All,
}
use schain.Prelude.Text.{
  Bytes, str_eq, str_eq_iff, contains, cut_byte, cut_byte-append, member, member-append,
}
use schain.Prelude.Split.{join}
use schain.Prelude.Dict.{Dict, keys_of, has_key, member-keys_of}
use schain.Prelude.Sort.{sort_strings, str_lt, member-sort_by, All-sort_by}
use schain.Fail.{ok}
use schain.Vault.{text_at}
use schain.Environ.{
  equals, colon, active_name, shell_name, keys_name, Json, is_marker, entries_valid, kept, entry,
  injected, unmarked, shell_entry, previous_keys, build_env, secret_environ, find_env,
}

abbrev pub or_next : Option Bytes → Option Bytes → Option Bytes
or_next none o = o
or_next (some v) o = some v

pub find_env-append :
    (k : Bytes) (a b : List Bytes) → find_env k (a ++ b) ≡ or_next (find_env k a) (find_env k b)
unfolding find_env
find_env-append k [] b = refl
find_env-append k (kv ∷ a) b = ground (arith, find_env-append k a b)

find_env-kept :
    (k : Bytes) (skip es : List Bytes)
    → is_marker k ≡ false
    → find_env k (kept skip es) ≡ (if member k skip then none else find_env k es)
unfolding find_env kept
find_env-kept k skip [] n = ground arith
find_env-kept k skip (kv ∷ es) n = elim (Option-cases (cut_byte kv equals)) [
  | inl e ↦ ground (arith, e, find_env-kept k skip es n)
  | inr (q, e) ↦ ground (arith, e, find_env-kept k skip es n, str_eq_iff q.0 k)
]

cut_byte-entry :
    (k val : Bytes) → contains k equals ≡ false → cut_byte (entry k val) equals ≡ some (k, val)
unfolding entry
cut_byte-entry k val h = cut_byte-append k val equals h

find_env-entry :
    (k j val : Bytes) (es : List Bytes)
    → contains j equals ≡ false
    → find_env k (entry j val ∷ es) ≡ (if str_eq j k then some val else find_env k es)
unfolding find_env
find_env-entry k j val es h = ground (arith, cut_byte-entry j val h)

abbrev NameFree : Bytes → Type 0
NameFree k = contains k equals ≡ false

find_env-injected :
    (k : Bytes) (m : Dict Bytes) (ks : List Bytes)
    → is_marker k ≡ false
    → All NameFree ks
    → find_env k (injected m ks) ≡ (if member k ks then some (text_at k m) else none)
unfolding injected member
find_env-injected k m [] n h = unfold find_env in refl
find_env-injected k m (j ∷ ks) n h = ground (
  arith,
  find_env-injected k m ks n h.1,
  find_env-entry k j (text_at j m) (injected m ks) h.0,
  str_eq_iff j k,
)

keys_of-NameFree : (m : Dict Bytes) → entries_valid m ≡ true → All NameFree (keys_of m)
unfolding entries_valid keys_of
keys_of-NameFree [] h = tt
keys_of-NameFree ((k, val) ∷ m) h = ground (arith, keys_of-NameFree m)

-- The markers at the end answer to no other name.
find_env_markers :
    (k inventory active shell : Bytes)
    → is_marker k ≡ false
    → find_env k (entry keys_name inventory ∷ (entry active_name active ∷ shell_entry shell)) ≡ none
unfolding is_marker
find_env_markers k inventory active shell n = ground (
  arith,
  find_env-entry k keys_name inventory (entry active_name active ∷ shell_entry shell) free₁,
  find_env-entry k active_name active (shell_entry shell) free₂,
  find_shell shell,
  str_eq_iff keys_name k,
  str_eq_iff k keys_name,
  str_eq_iff active_name k,
  str_eq_iff k active_name,
)
  where
    free₁ : contains keys_name equals ≡ false
    free₁ = unfold contains in refl

    free₂ : contains active_name equals ≡ false
    free₂ = unfold contains in refl

    free₃ : contains shell_name equals ≡ false
    free₃ = unfold contains in refl

    find_shell : (s : Bytes) → find_env k (shell_entry s) ≡ none
    find_shell [] = unfold find_env shell_entry in refl
    find_shell (c ∷ s) =
        unfold find_env shell_entry in
        ground (
          arith,
          find_env-entry k shell_name (c ∷ s) [] free₃,
          str_eq_iff shell_name k,
          str_eq_iff k shell_name,
          n,
        )

module _ (json : Json) where
  find_env-build_env :
      (k : Bytes) (environ previous : List Bytes) (m : Dict Bytes) (paths : List Bytes)
      (shell : Bytes)
      → is_marker k ≡ false
      → entries_valid m ≡ true
      → find_env k (build_env json environ previous m paths shell) ≡ (
          if member k (keys_of m)
          then some (text_at k m)
          else if member k previous
          then none
          else find_env k environ)
  unfolding build_env
  find_env-build_env k environ previous m paths shell n h =
      let ks = sort_strings (keys_of m) in
      let inventory = json.encode (unmarked ks) in
      let markers =
        entry keys_name inventory ∷ (entry active_name (join colon paths) ∷ shell_entry shell) in
      ground (
        arith,
        find_env-append k (kept (previous ++ keys_of m) environ) (injected m ks ++ markers),
        find_env-append k (injected m ks) markers,
        find_env-kept k (previous ++ keys_of m) environ n,
        find_env-injected k m ks n (All-sort_by str_lt NameFree (keys_of m) (keys_of-NameFree m h)),
        find_env_markers k inventory (join colon paths) shell n,
        member-append k previous (keys_of m),
        member-sort_by k (keys_of m),
      )

  -- What a child of a schain shell or of `exec` finds under a name that is no marker: the value of the
  -- chain if the chain has the name; nothing if an outer schain shell had put it in and the chain no
  -- longer has it; and else what was in the environment before.
  pub find_env-secret_environ :
      (getenv : Bytes → Bytes) (environ : List Bytes) (m : Dict Bytes) (paths : List Bytes)
      (shell : Bytes)
      → (previous env : List Bytes) (k : Bytes) → previous_keys json getenv ≡ ok previous
      → secret_environ json getenv environ m paths shell ≡ ok env
      → is_marker k ≡ false
      → find_env k env ≡ (
          if has_key k m
          then some (text_at k m)
          else if member k previous
          then none
          else find_env k environ)
  unfolding secret_environ
  find_env-secret_environ getenv environ m paths shell previous env k p h n =
      elim (Bool-cases (entries_valid m)) [
        | inl y ↦
            rw (← member-keys_of k m)
              (ground (arith, p, h, y, find_env-build_env k environ previous m paths shell n y))
        | inr y ↦ absurd (ground (arith, p, h, y))
      ]
