-- ===== src/Write/Atomic.antt =====
-- vault.go: what save leaves on the disk, whenever it is stopped.
use mathlib.Core.Path.{subst}
use schain.Prelude.{
  ◌≡◌, refl, inl, inr, Bool, true, false, Option, none, some, List, [], ◌∷◌, ◌++◌, if◌then◌else◌,
}
use schain.Prelude.Text.{Bytes, str_eq, str_eq_refl}
use schain.Fail.{Result, ok, err, ◌>>=◌, Result-cases, io_error}
use schain.Vault.{Vault}
use schain.Format.{Crypto, save, file_of}
use schain.Format.Reopen.{save_inv}
use schain.Write.{
  StoredFile, Volume, Event, create, remove, happen, replay, Calls, temp_path, fill_file, write_out,
  bytes_of, save_file,
}
use schain.Write.Filled.{Runs, fill_file-Runs, removed-Runs}

created-Runs :
    (tmp path out : Bytes)
    → str_eq tmp path ≡ false
    → (o : Calls) (d : Volume)
    → Runs path
        (d path)
        out
        (
          (fill_file o tmp path out).0,
          (fill_file o tmp path out).1 ++ (if o.removes then remove tmp ∷ [] else []),
        )
        (happen (create tmp) d)
unfolding happen
created-Runs tmp path out apart o d =
    let d' = happen (create tmp) d in
    let kept : d' path ≡ d path = rw apart refl in
    removed-Runs path tmp out (d path) apart o.removes (fill_file o tmp path out).0
      (fill_file o tmp path out).1 d'
      (fill_file-Runs path tmp out (d path) apart o d' (rw (str_eq_refl tmp) refl) kept)

-- The name that CreateTemp chooses is not that of the vault.
abbrev pub IsApart : Bytes → Option Bytes → Type 0
IsApart path none = Unit
IsApart path (some random) = str_eq (temp_path path random) path ≡ false

write_out-Runs :
    (o : Calls) (path out : Bytes) (d : Volume)
    → IsApart path o.temp
    → Runs path (d path) out (write_out o path out) d
unfolding write_out replay
write_out-Runs o path out d h = by_calls o.makes_dir o.temp h
  where
    by_calls :
        (makes : Bool) (temp : Option Bytes)
        → IsApart path temp
        → Runs {A = Unit {0}} path
            (d path)
            out
            (if makes
              then (elim temp [
                | none ↦ (err io_error, [])
                | some random ↦
                    let tmp = temp_path path random in
                    let (r, es) = fill_file o tmp path out in
                    (r, create tmp ∷ es ++ (if o.removes then remove tmp ∷ [] else []))
              ])
              else (err io_error, []))
            d
    by_calls false temp a = (inl refl, refl)
    by_calls true none a = (inl refl, refl)
    by_calls true (some random) a =
        let (always, ended) = created-Runs (temp_path path random) path out a o d in
        ((inl refl, always), ended)

-- The vault is kept in memory only once the file is written.
kept-Runs :
    (path out : Bytes) (old : Option StoredFile) (v : Vault) (r : Result (Unit {0}))
    (es : List Event) (d : Volume)
    → Runs path old out (r, es) d
    → Runs path old out (r >>= (λ u. ok v), es) d
kept-Runs path out old v (ok u) es d h = h
kept-Runs path out old v (err e) es d h = h

-- save, stopped at any moment: the file at the path is the old one, as it was, or all of the new one,
-- with every byte on the disk itself. It is the new one where save returns the vault, and the old one
-- where save returns an error. The temporary file has another name than the vault.
pub save_file-IsAtomic :
    (x : Crypto) (o : Calls) (forced : Bool) (nonce path : Bytes) (d : Volume) (v : Vault)
    → IsApart path o.temp
    → Runs path (d path) (file_of x nonce v) (save_file x o forced nonce path d v) d
unfolding save_file replay
save_file-IsAtomic x o forced nonce path d v h =
    elim (Result-cases (save x forced nonce (bytes_of (d path)) v)) [
      | inl (e, q) ↦ rw (save_file, q) (inl refl, refl)
      | inr ((v', out), q) ↦
          let (e, same, l) = save_inv x forced nonce (bytes_of (d path)) v v' out q in
          rw (save_file, q)
            (subst
              (λ b.
                Runs path (d path) b
                  ((write_out o path out).0 >>= (λ u. ok v'), (write_out o path out).1) d)
              e
              (kept-Runs path out (d path) v' (write_out o path out).0 (write_out o path out).1 d
                (write_out-Runs o path out d h)))
    ]
