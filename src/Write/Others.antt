-- ===== src/Write/Others.antt =====
-- vault.go: save leaves the other files of the disk as they are.
use schain.Prelude.{
  ◌≡◌, refl, sym, ap, ◌∙◌, inl, inr, Bool, true, false, Option, none, some, List, [], ◌∷◌, ◌++◌,
  if◌then◌else◌, ltb, length, take, Bool-cases,
}
use schain.Prelude.Text.{Bytes, str_eq, str_eq_sound}
use schain.Fail.{Result, ok, err, Result-cases, io_error}
use schain.Vault.{Vault}
use schain.Format.{Crypto, save}
use schain.Write.{
  Volume, Event, create, sync, rename, remove, happen, replay, Calls, temp_path, appends,
  finish_file, fill_file, write_out, bytes_of, save_file,
}
use schain.Write.Filled.{appends-path, replay-append}

module _ (tmp path q : Bytes) (not_tmp : str_eq tmp q ≡ false)
    (not_path : str_eq path q ≡ false) where
  finish_file-q : (o : Calls) (d : Volume) → replay (finish_file o tmp path).1 d q ≡ d q
  unfolding finish_file replay happen
  finish_file-q o d = by_calls o.syncs o.closes o.renames
    where
      by_calls :
          (a b c : Bool)
          → let r : Result (Unit {0}) × List Event =
              if a
              then if b
                then if c
                  then (ok tt, sync tmp ∷ rename tmp path ∷ [])
                  else (err io_error, sync tmp ∷ [])
                else (err io_error, sync tmp ∷ [])
              else (err io_error, []) in
            replay r.1 d q ≡ d q
      by_calls true true true = rw (not_tmp, not_path) refl
      by_calls true true false = rw not_tmp refl
      by_calls true false c = rw not_tmp refl
      by_calls false b c = refl

  fill_file-q :
      (o : Calls) (out : Bytes) (d : Volume) → replay (fill_file o tmp path out).1 d q ≡ d q
  unfolding fill_file
  fill_file-q o out d = elim (Bool-cases (ltb o.takes (length out))) [
    | inl y ↦ rw (fill_file, y) (appends-path q tmp out (d q) not_tmp (take o.takes out) d)
    | inr n ↦
        rw (fill_file, n)
          (rw (replay-append (appends tmp out) (finish_file o tmp path).1 d) (
            finish_file-q o (replay (appends tmp out) d)
            ∙ appends-path q tmp out (d q) not_tmp out d))
  ]

-- The name that CreateTemp chooses is that of no file.
abbrev pub IsFresh : Volume → Bytes → Option Bytes → Type 0
IsFresh d path none = Unit
IsFresh d path (some random) = d (temp_path path random) ≡ none

created_q :
    (tmp path q out : Bytes) (o : Calls) (d : Volume)
    → str_eq path q ≡ false
    → d tmp ≡ none
    → replay (create tmp ∷ (fill_file o tmp path out).1 ++ remove tmp ∷ []) d q ≡ d q
unfolding replay happen
created_q tmp path q out o d not_path fresh =
    let es = (fill_file o tmp path out).1 in
    let d' = happen (create tmp) d in
    rw (replay-append es (remove tmp ∷ []) d') (elim (Bool-cases (str_eq tmp q)) [
      | inl y ↦ rw y (sym fresh ∙ ap d (str_eq_sound tmp q y))
      | inr n ↦ rw n (fill_file-q tmp path q n not_path o out d' ∙ rw n refl)
    ])

write_out-q :
    (o : Calls) (path q out : Bytes) (d : Volume)
    → str_eq path q ≡ false
    → o.removes ≡ true
    → IsFresh d path o.temp
    → replay (write_out o path out).1 d q ≡ d q
unfolding write_out
write_out-q o path q out d not_path removes fresh = by_calls o.makes_dir o.temp fresh
  where
    by_calls :
        (makes : Bool) (temp : Option Bytes)
        → IsFresh d path temp
        → let r : Result (Unit {0}) × List Event =
            if makes
            then (elim temp [
              | none ↦ (err io_error, [])
              | some random ↦
                  let tmp = temp_path path random in
                  let (r, es) = fill_file o tmp path out in
                  (r, create tmp ∷ es ++ (if o.removes then remove tmp ∷ [] else []))
            ])
            else (err io_error, []) in
          replay r.1 d q ≡ d q
    by_calls false temp f = unfold replay in refl
    by_calls true none f = unfold replay in refl
    by_calls true (some random) f =
        rw removes (created_q (temp_path path random) path q out o d not_path f)

-- save changes no other file of the disk, whether it returns the vault or an error, and its temporary
-- file is gone: every other path has what it had. CreateTemp chose a name of no file, and the
-- deferred removal succeeds.
pub replay-save_file :
    (x : Crypto) (o : Calls) (forced : Bool) (nonce path q : Bytes) (d : Volume) (v : Vault)
    → str_eq path q ≡ false
    → o.removes ≡ true
    → IsFresh d path o.temp
    → replay (save_file x o forced nonce path d v).1 d q ≡ d q
unfolding save_file
replay-save_file x o forced nonce path q d v not_path removes fresh =
    elim (Result-cases (save x forced nonce (bytes_of (d path)) v)) [
      | inl (e, s) ↦ rw (save_file, s) (unfold replay in refl)
      | inr (w, s) ↦ rw (save_file, s) (write_out-q o path q w.1 d not_path removes fresh)
    ]
