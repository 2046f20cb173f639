-- ===== src/Write/Filled.antt =====
-- vault.go: what save does to the disk once its temporary file is there.
use schain.Prelude.{
  ℕ, ◌≡◌, refl, ap, ◌∙◌, ◌⊎◌, inl, inr, Bool, true, false, Option, some, List, [], ◌∷◌, ◌++◌,
  if◌then◌else◌, ltb, length, take, append-nil, append_assoc, Bool-cases,
}
use schain.Prelude.Text.{Bytes, str_eq, str_eq_refl}
use schain.Fail.{Result, ok, err, io_error}
use schain.Write.{
  StoredFile, Volume, Event, append, sync, rename, remove, longer, synced, happen, replay, Calls,
  appends, finish_file, fill_file,
}

-- A property of the disk before each event and at the end.
abbrev pub Always : (Volume → Type 0) → List Event → Volume → Type 0
Always P [] d = P d
Always P (e ∷ es) d = P d × Always P es (happen e d)

Always-append :
    (P : Volume → Type 0) (es fs : List Event) (d : Volume)
    → Always P es d
    → Always P fs (replay es d)
    → Always P (es ++ fs) d
unfolding replay
Always-append P [] fs d h g = g
Always-append P (e ∷ es) fs d (h, hs) g = (h, Always-append P es fs (happen e d) hs g)

pub replay-append :
    (es fs : List Event) (d : Volume) → replay (es ++ fs) d ≡ replay fs (replay es d)
unfolding replay
replay-append [] fs d = refl
replay-append (e ∷ es) fs d = replay-append es fs (happen e d)

-- All of the new file, on the disk itself.
abbrev pub whole : Bytes → Option StoredFile
whole out = some (record { content = out; is_synced = true })

abbrev pub partial : Bytes → Option StoredFile
partial out = some (record { content = out; is_synced = false })

-- The file at the path is the old one, as it was, or all of the new one.
abbrev pub IsSafe : Bytes → Option StoredFile → Bytes → Volume → Type 0
IsSafe path old out d = (d path ≡ old) ⊎ (d path ≡ whole out)

-- How a write ends, by its result and the file that is then at the path.
abbrev pub Ended : {A : Type 0} → Option StoredFile → Bytes → Result A → Option StoredFile → Type 0
Ended old out (ok a) f = f ≡ whole out
Ended old out (err e) f = f ≡ old

abbrev pub Runs :
    {A : Type 0} → Bytes → Option StoredFile → Bytes → Result A × List Event → Volume → Type 0
Runs path old out (r, es) d = Always (IsSafe path old out) es d × Ended old out r (replay es d path)

module _ (path tmp out : Bytes) (old : Option StoredFile) (apart : str_eq tmp path ≡ false) where
  abbrev pub Safe : Volume → Type 0
  Safe = IsSafe path old out

  happen-append :
      (c : ℕ) (t : Bytes) (d : Volume)
      → d tmp ≡ partial t
      → happen (append tmp c) d tmp ≡ partial (t ++ c ∷ [])
  unfolding happen longer
  happen-append c t d h = rw (str_eq_refl tmp, h) refl

  replay-appends :
      (s t : Bytes) (d : Volume)
      → d tmp ≡ partial t
      → replay (appends tmp s) d tmp ≡ partial (t ++ s)
  unfolding replay appends
  replay-appends [] t d h = rw (append-nil t) h
  replay-appends (c ∷ s) t d h =
      replay-appends s (t ++ c ∷ []) (happen (append tmp c) d) (happen-append c t d h)
      ∙ ap partial (append_assoc t (c ∷ []) s)

  pub appends-path : (s : Bytes) (d : Volume) → replay (appends tmp s) d path ≡ d path
  unfolding replay appends happen
  appends-path [] d = refl
  appends-path (c ∷ s) d = appends-path s (happen (append tmp c) d) ∙ rw apart refl

  Always-appends : (s : Bytes) (d : Volume) → d path ≡ old → Always Safe (appends tmp s) d
  unfolding appends happen
  Always-appends [] d h = inl h
  Always-appends (c ∷ s) d h = (inl h, Always-appends s (happen (append tmp c) d) (rw apart h))

  -- The temporary file once it is synced.
  happen-sync : (d : Volume) → d tmp ≡ partial out → happen (sync tmp) d tmp ≡ whole out
  unfolding happen synced
  happen-sync d h = rw (str_eq_refl tmp, h) refl

  sync-path : (d : Volume) → happen (sync tmp) d path ≡ d path
  unfolding happen
  sync-path d = rw apart refl

  rename-path : (d : Volume) → happen (rename tmp path) d path ≡ d tmp
  unfolding happen
  rename-path d = rw (apart, str_eq_refl path) refl

  finish_file-Runs :
      (o : Calls) (d : Volume)
      → d tmp ≡ partial out
      → d path ≡ old
      → Runs path old out (finish_file o tmp path) d
  unfolding finish_file replay
  finish_file-Runs o d t h =
      let d' = happen (sync tmp) d in
      let kept : d' path ≡ old = sync-path d ∙ h in
      let moved : happen (rename tmp path) d' path ≡ whole out = rename-path d' ∙ happen-sync d t in
      by_calls o.syncs o.closes o.renames kept moved
    where
      by_calls :
          (a b c : Bool)
          → happen (sync tmp) d path ≡ old
          → happen (rename tmp path) (happen (sync tmp) d) path ≡ whole out
          → Runs {A = Unit {0}} path old out
              (if a
                then if b
                  then if c
                    then (ok tt, sync tmp ∷ rename tmp path ∷ [])
                    else (err io_error, sync tmp ∷ [])
                  else (err io_error, sync tmp ∷ [])
                else (err io_error, []))
              d
      by_calls true true true k m = ((inl h, (inl k, inr m)), m)
      by_calls true true false k m = ((inl h, inl k), k)
      by_calls true false c k m = ((inl h, inl k), k)
      by_calls false b c k m = (inl h, h)

  pub fill_file-Runs :
      (o : Calls) (d : Volume)
      → d tmp ≡ partial []
      → d path ≡ old
      → Runs path old out (fill_file o tmp path out) d
  unfolding fill_file
  fill_file-Runs o d t h = elim (Bool-cases (ltb o.takes (length out))) [
    | inl y ↦
        rw (fill_file, y)
          (Always-appends (take o.takes out) d h, appends-path (take o.takes out) d ∙ h)
    | inr n ↦
        let d' = replay (appends tmp out) d in
        let (a, e) = finish_file-Runs o d' (replay-appends out [] d t) (appends-path out d ∙ h) in
        rw (fill_file, n)
          (
            Always-append Safe (appends tmp out) _ d (Always-appends out d h) a,
            rw (replay-append (appends tmp out) (finish_file o tmp path).1 d) e,
          )
  ]

  Ended-Safe :
      (r : Result (Unit {0})) (f : Option StoredFile)
      → Ended old out r f
      → (f ≡ old) ⊎ (f ≡ whole out)
  Ended-Safe (ok u) f h = inr h
  Ended-Safe (err e) f h = inl h

  remove-path : (d : Volume) → happen (remove tmp) d path ≡ d path
  unfolding happen
  remove-path d = rw apart refl

  -- What the deferred removal leaves.
  pub removed-Runs :
      (removes : Bool) (r : Result (Unit {0})) (es : List Event) (d : Volume)
      → Runs path old out (r, es) d
      → Runs path old out (r, es ++ (if removes then remove tmp ∷ [] else [])) d
  unfolding replay
  removed-Runs false r es d h = rw (append-nil es) h
  removed-Runs true r es d (a, e) =
      let d' = replay es d in
      let kept = remove-path d' in
      let last = replay-append es (remove tmp ∷ []) d in
      (
        Always-append Safe es (remove tmp ∷ []) d a
            (Ended-Safe r (d' path) e, Ended-Safe r (happen (remove tmp) d' path) (rw kept e)),
        rw last (rw kept e),
      )
