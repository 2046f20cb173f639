-- ===== src/Tests/Vaults.antt =====
-- One vault: its edits and its history (vault.go, history.go).
use schain.Prelude.{◌≡◌, ◌<◌, refl, false, none, some, [], ◌∷◌, arith}
use schain.Prelude.Text.{Bytes, codes, str_eq}
use schain.Prelude.Dict.{lookup, insert, has_key}
use schain.Prelude.Number.{pos}
use schain.Fail.{ok}
use schain.Vault.{Vault, Mark, reserved, keep, expand_key, holds, put, log}
use schain.History.{revert_at, revert_to}
use schain.History.Undo.{SameSecrets, put-revert_at, revert_at-revert_at}
use schain.History.Limit.{IsTrimmed, put-IsTrimmed}

abbrev key_a : Bytes
key_a = codes "A"

abbrev mark : Mark
mark = record { now = pos 7; by = codes "me@host" }

abbrev old : Vault
old = record {
  iters = 600000;
  salt = [];
  key = [];
  secrets = (key_a, codes "1") ∷ (expand_key, codes "A,B") ∷ [];
  history = [];
  rev = 0;
  stamp = none;
}

keep-old : keep old ≡ 3
unfolding keep lookup str_eq
keep-old = refl

free_a : reserved key_a ≡ false
unfolding reserved str_eq
free_a = refl

differs : holds key_a (codes "2") old.secrets ≡ false
unfolding lookup str_eq
differs = refl

on_old : 0 < keep old
unfolding keep lookup str_eq
on_old = omega arith

no_history_yet : IsTrimmed old
unfolding lookup keep str_eq
no_history_yet j = refl

put-revert_at_example :
    (w : Vault) × (revert_at mark key_a 1 (put mark key_a (codes "2") old) ≡ ok (some w))
    × SameSecrets w old
put-revert_at_example = put-revert_at mark key_a old on_old free_a mark (codes "2") differs

abbrev changed : Vault
changed = record old {
  secrets = (key_a, codes "2") ∷ (expand_key, codes "A,B") ∷ [];
  history =
      (key_a, (record { at = pos 7; val = codes "1"; by = codes "me@host"; gone = false }) ∷ [])
      ∷ [];
}

put_runs : put mark key_a (codes "2") old ≡ changed
unfolding put log reserved keep lookup insert str_eq
put_runs = refl

reverted_runs : revert_at mark key_a 1 changed ≡ ok (some (put mark key_a (codes "1") changed))
unfolding revert_at revert_to lookup str_eq has_key
reverted_runs = refl

on_changed : 0 < keep changed
unfolding keep lookup str_eq
on_changed = omega arith

revert_at-revert_at_example :
    (u : Vault) × (revert_at mark key_a 1 (put mark key_a (codes "1") changed) ≡ ok (some u))
    × SameSecrets u changed
revert_at-revert_at_example =
    revert_at-revert_at mark mark key_a 1 changed (put mark key_a (codes "1") changed) on_changed
      free_a reverted_runs

put-IsTrimmed_example : IsTrimmed (put mark key_a (codes "2") old)
put-IsTrimmed_example =
    put-IsTrimmed mark key_a (codes "2") old (unfold str_eq in refl) no_history_yet
