-- ===== src/Expand.antt =====
-- expand.go: the references `${...}` of a value, and the list of expanded keys of a vault.
-- A walk over the bytes at `i`, `val[i:]`, is a walk over the rest of the text with the index kept;
-- its fuel is the length of the text, and each round takes at least one byte.
pub mod Segments
pub mod Scan
pub mod Values
pub mod Vetting
use schain.Prelude.{
  ℕ, zero, suc, ◌+◌, ◌-◌, Bool, true, false, ◌&&◌, ◌||◌, not, Option, none, some, List, [], ◌∷◌,
  ◌++◌, if◌then◌else◌, ◌==◌, length, take, drop, map,
}
use schain.Prelude.Text.{Bytes, codes, str_eq, cut_byte, member}
use schain.Fail.{Result, ok, err, not_set, no_expand, needs_ref}

abbrev pub dollar : ℕ
dollar = 36

abbrev pub open_brace : ℕ
open_brace = 123

abbrev pub close_brace : ℕ
close_brace = 125

-- What `scanRefs` hands to its callback: the name inside the braces and the bounds.
module _ {ℓ} {S : Type ℓ} (fn : Bytes → ℕ → ℕ → S → S) where
  unfoldable pub scan_from : ℕ → ℕ → Bytes → S → S
  scan_from zero i rest s = s
  scan_from (suc f) i [] s = s
  scan_from (suc f) i (a ∷ []) s = s
  scan_from (suc f) i (a ∷ b ∷ t) s = elim (a == dollar && b == open_brace) [
    | false ↦ scan_from f (i + 1) (b ∷ t) s
    | true ↦ elim (cut_byte t close_brace) [
      | none ↦ s
      | some (name, after) ↦
          scan_from f (i + 3 + length name) after (fn name i (i + 3 + length name) s)
    ]
  ]

unfoldable pub scan_refs {ℓ} : {S : Type ℓ} → Bytes → (Bytes → ℕ → ℕ → S → S) → S → S
unfolding scan_from
scan_refs val fn s = scan_from fn (length val) 0 val s

abbrev pub dir_name : Bytes
dir_name = codes "SCHAIN_DIR"

abbrev pub home_name : Bytes
home_name = codes "HOME"

abbrev pub user_name : Bytes
user_name = codes "USER"

abbrev pub expand_names : List Bytes
expand_names = dir_name ∷ home_name ∷ user_name ∷ []

-- `val[a:b]`
unfoldable pub slice : Bytes → ℕ → ℕ → Bytes
slice val a b = take (b - a) (drop a val)

-- The variables of `expandValue` that its callback changes.
pub record Expansion : Type 0 where
  pub b : Bytes
  pub unset : Option Bytes
  pub last : ℕ

abbrev pub start_expansion : Expansion
start_expansion = record { b = []; unset = none; last = 0 }

-- `"${" + name + "}"`
abbrev pub ref_text : Bytes → Bytes
ref_text name = dollar ∷ open_brace ∷ name ++ close_brace ∷ []

-- The first error is kept.
unfoldable pub note_unset : Bytes → Bytes → Option Bytes → Option Bytes
note_unset name got none = if str_eq got [] then some name else none
note_unset name got (some e) = some e

unfoldable pub finish : Bytes → Expansion → Result Bytes
unfolding slice
finish val s = elim s.unset [
  | some name ↦ err (not_set name)
  | none ↦ if s.last == 0 then ok val else ok (s.b ++ slice val s.last (length val))
]

unfoldable pub verdict : Bytes → Bool × List Bytes → Result (Unit {0})
verdict key (found, b ∷ bad) = err (no_expand key (b ∷ bad))
verdict key (false, []) = err (needs_ref key)
verdict key (true, []) = ok tt

-- `getenv` is os.Getenv: the empty text for a variable that is not set.
module _ (getenv : Bytes → Bytes) where
  unfoldable pub expand_one : Bytes → Bytes → Option Bytes
  expand_one name dir =
      if str_eq name dir_name
      then some dir
      else if str_eq name home_name || str_eq name user_name
      then some (getenv name)
      else none

  unfoldable pub substitute : Bytes → Bytes → Bytes → ℕ → ℕ → Expansion → Expansion
  unfolding note_unset slice
  substitute val dir name start end s = elim (expand_one name dir) [
    | none ↦ s
    | some got ↦ record {
      b = s.b ++ slice val s.last start ++ got;
      unset = note_unset name got s.unset;
      last = end;
    }
  ]

  unfoldable pub expand_value : Bytes → Bytes → Result Bytes
  unfolding finish scan_refs substitute
  expand_value val dir = finish val (scan_refs val (substitute val dir) start_expansion)

  unfoldable pub is_known : Bytes → Bool
  is_known name = elim (expand_one name []) [ none ↦ false | some got ↦ true ]

  -- The slice `refs` and the set `seen`, which holds the names of the same references.
  unfoldable pub collect_ref : Bytes → ℕ → ℕ → List Bytes × List Bytes → List Bytes × List Bytes
  unfolding is_known
  collect_ref name start end (refs, seen) =
      if not (is_known name) || member name seen
      then (refs, seen)
      else (refs ++ ref_text name ∷ [], name ∷ seen)

  unfoldable pub expand_refs : Bytes → List Bytes
  unfolding scan_refs collect_ref
  expand_refs val = (scan_refs val collect_ref ([], [])).0

  -- `found` and `bad`
  unfoldable pub vet_ref : Bytes → ℕ → ℕ → Bool × List Bytes → Bool × List Bytes
  unfolding is_known
  vet_ref name start end (found, bad) =
      if is_known name then (true, bad) else (found, bad ++ ref_text name ∷ [])

  unfoldable pub check_expand : Bytes → Bytes → Result (Unit {0})
  unfolding scan_refs vet_ref verdict
  check_expand key val = verdict key (scan_refs val vet_ref (false, []))
