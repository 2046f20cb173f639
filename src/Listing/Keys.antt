-- ===== src/Listing/Keys.antt =====
-- main.go: the keys that `schain ls` prints.
use schain.Prelude.{
  ◌≡◌, refl, ◌∙◌, Bool, ◌&&◌, ◌||◌, not, Option, List, [], ◌∷◌, map, arith, if◌then◌else◌, ltb,
  length,
}
use schain.Prelude.Text.{Bytes}
use schain.Prelude.Dict.{Dict, has_key, keys_of}
use schain.Prelude.Count.{count, count-sort_by, count-keys_of}
use schain.Chain.Distinct.{secrets-IsMap}
use schain.Prelude.Sort.{sort_strings, IsSorted, sort_by-IsSorted}
use schain.Fail.{Result, ok, >>=-ok}
use schain.Chain.{Chain, secrets}
use schain.Listing.{LsFlags, Row, key_of, row_of, print_keys, source_label, ls_chain}

key_of-row_of :
    (label : Bytes → Result (Bytes × Bytes)) (verbose plain : Bool) (k : Bytes) (r : Row)
    → row_of label verbose plain k ≡ ok r
    → key_of r ≡ k
unfolding row_of
key_of-row_of label verbose plain k r e = ground (arith, e)

map-print_keys :
    (ks : List Bytes) (label : Bytes → Result (Bytes × Bytes)) (verbose plain : Bool)
    (rows : List Row)
    → print_keys ks label verbose plain ≡ ok rows
    → map key_of rows ≡ ks
unfolding print_keys
map-print_keys [] label verbose plain rows e = ground (arith, e)
map-print_keys (k ∷ ks) label verbose plain rows e =
    let (r, e₁, r₁) = >>=-ok (row_of label verbose plain k) _ e in
    let (rs, e₂, r₂) = >>=-ok (print_keys ks label verbose plain) _ r₁ in
    let same = key_of-row_of label verbose plain k r e₁ in
    let more = map-print_keys ks label verbose plain rs e₂ in joined r rs same more r₂
  where
    rows_are : (r : Row) (rs : List Row) → ok (r ∷ rs) ≡ ok rows → r ∷ rs ≡ rows
    rows_are r rs c = ground (arith, c)

    joined :
        (r : Row) (rs : List Row)
        → key_of r ≡ k
        → map key_of rs ≡ ks
        → ok (r ∷ rs) ≡ ok rows
        → map key_of rows ≡ k ∷ ks
    joined r rs a b c = rw (← rows_are r rs c) (rw (a, b) refl)

-- Where `schain ls` of a chain succeeds, it prints, in order, each key that the merge of the chain
-- holds on exactly one line, and no other key, whatever is printed beside them.
pub map-ls_chain :
    (getenv : Bytes → Bytes) (home : Option Bytes) (borrowed : Dict Bytes) (tty : Bool)
    (f : LsFlags) (c : Chain) (rows : List Row) (k : Bytes)
    → ls_chain getenv home borrowed tty f c ≡ ok rows
    → IsSorted (map key_of rows)
      × (count k (map key_of rows) ≡ (if has_key k (secrets getenv c) then 1 else 0))
unfolding ls_chain
map-ls_chain getenv home borrowed tty f c rows k e =
    let ks = sort_strings (keys_of (secrets getenv c)) in
    let verbose = if ltb 1 (length c.vaults) && not f.plain then f.verbose || tty else f.verbose in
    let all : map key_of rows ≡ ks =
      map-print_keys ks (source_label getenv home borrowed c) verbose f.plain rows e in
    (
      rw all (sort_by-IsSorted (keys_of (secrets getenv c))),
      rw all (
          count-sort_by k (keys_of (secrets getenv c))
          ∙ count-keys_of k (secrets getenv c) (secrets-IsMap getenv c)),
    )
