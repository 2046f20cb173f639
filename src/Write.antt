-- ===== src/Write.antt =====
-- vault.go: how save writes its file, as the system calls that change the disk. What each call does is
-- an argument. A byte that is written is an event of its own, so that a stop between two events is a
-- stop at any moment. Directories are not followed.
pub mod Atomic
pub mod Others
pub mod Filled
use schain.Prelude.{
  ℕ, Bool, true, false, Option, none, some, List, [], ◌∷◌, ◌++◌, if◌then◌else◌, ltb, length, take,
}
use schain.Prelude.Text.{Bytes, codes, str_eq}
use schain.Prelude.Paths.{dir_of, join_path}
use schain.Fail.{Fail, Result, ok, err, ◌>>=◌, io_error}
use schain.Vault.{Vault}
use schain.Format.{Crypto, save}

-- A file, and whether all of it is on the disk itself.
pub record StoredFile : Type 0 where
  pub content : Bytes
  pub is_synced : Bool

abbrev pub Volume : Type 0
Volume = Bytes → Option StoredFile

abbrev pub at_path : Volume → Bytes → Option StoredFile → Volume
at_path d p f q = if str_eq p q then f else d q

pub data Event : Type 0 where
  create : Bytes → Event
  append : Bytes → ℕ → Event
  sync : Bytes → Event
  rename : Bytes → Bytes → Event
  remove : Bytes → Event

unfoldable pub longer : ℕ → Option StoredFile → Option StoredFile
longer c none = none
longer c (some f) = some (record { content = f.content ++ c ∷ []; is_synced = false })

unfoldable pub synced : Option StoredFile → Option StoredFile
synced none = none
synced (some f) = some (record f { is_synced = true })

unfoldable pub happen : Event → Volume → Volume
unfolding longer synced
happen (create p) d = at_path d p (some (record { content = []; is_synced = false }))
happen (append p c) d = at_path d p (longer c (d p))
happen (sync p) d = at_path d p (synced (d p))
happen (rename p q) d = at_path (at_path d q (d p)) p none
happen (remove p) d = at_path d p none

unfoldable pub replay : List Event → Volume → Volume
unfolding happen
replay [] d = d
replay (e ∷ es) d = replay es (happen e d)

-- What the calls do: whether MkdirAll succeeds, the part of the name that CreateTemp chooses, how many
-- bytes Write takes, and whether Sync, Close, Rename and the deferred Remove succeed.
pub record Calls : Type 0 where
  pub makes_dir : Bool
  pub temp : Option Bytes
  pub takes : ℕ
  pub syncs : Bool
  pub closes : Bool
  pub renames : Bool
  pub removes : Bool

unfoldable pub temp_path : Bytes → Bytes → Bytes
temp_path path random = join_path (dir_of path) (codes ".schain-tmp-" ++ random)

unfoldable pub appends : Bytes → Bytes → List Event
appends tmp [] = []
appends tmp (c ∷ s) = append tmp c ∷ appends tmp s

-- From Sync on: the result, and the events before the deferred Remove.
unfoldable pub finish_file : Calls → Bytes → Bytes → Result (Unit {0}) × List Event
finish_file o tmp path =
    if o.syncs
    then if o.closes
      then if o.renames
        then (ok tt, sync tmp ∷ rename tmp path ∷ [])
        else (err io_error, sync tmp ∷ [])
      else (err io_error, sync tmp ∷ [])
    else (err io_error, [])

-- Once the temporary file is there.
unfoldable pub fill_file : Calls → Bytes → Bytes → Bytes → Result (Unit {0}) × List Event
unfolding appends finish_file
fill_file o tmp path out =
    if ltb o.takes (length out)
    then (err io_error, appends tmp (take o.takes out))
    else let (r, es) = finish_file o tmp path in (r, appends tmp out ++ es)

unfoldable pub write_out : Calls → Bytes → Bytes → Result (Unit {0}) × List Event
unfolding temp_path fill_file
write_out o path out =
    if o.makes_dir
    then (elim o.temp [
      | none ↦ (err io_error, [])
      | some random ↦
          let tmp = temp_path path random in
          let (r, es) = fill_file o tmp path out in
          (r, create tmp ∷ es ++ (if o.removes then remove tmp ∷ [] else []))
    ])
    else (err io_error, [])

-- The bytes at a path.
abbrev pub bytes_of : Option StoredFile → Option Bytes
bytes_of none = none
bytes_of (some f) = some f.content

-- save on a disk: the vault as it is kept in memory on success, and what has happened to the disk.
unfoldable pub save_file :
    Crypto → Calls → Bool → Bytes → Bytes → Volume → Vault → Result Vault × List Event
unfolding write_out
save_file x o forced nonce path d v = elim (save x forced nonce (bytes_of (d path)) v) [
  | err e ↦ (err e, [])
  | ok (v', out) ↦ let (r, es) = write_out o path out in (r >>= λ u. ok v', es)
]
