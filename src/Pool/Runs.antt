-- ===== src/Pool/Runs.antt =====
-- chain.go: what forEach returns, in whatever order its goroutines take their steps.
use schain.Prelude.{
  ℕ, zero, suc, ◌+◌, ◌*◌, ◌<◌, ◌≤◌, ◌≡◌, refl, ap, ◌∙◌, ◌⊎◌, inl, inr, some, List, [], ◌∷◌, map,
  length, arith, Option-cases,
}
use schain.Pool.{
  Step, Slot, waiting, running, finished, spawn, held, Move, acquire, release, other, Run, stop,
  next, results,
}

module _ {A R : Type 0} where
  -- The steps that the slots still have in front of them.
  abbrev work : List (Slot A R) → ℕ
  work [] = 0
  work (waiting a ∷ s) = 2 + work s
  work (running a ∷ s) = 1 + work s
  work (finished r ∷ s) = work s

  module _ (fn : A → R) where
    work-Move : {room : Type 0} {s t : List (Slot A R)} → Move fn room s t → work s ≡ suc (work t)
    work-Move (acquire h) = omega arith
    work-Move release = omega arith
    work-Move (other {x = waiting a} m) = omega (arith, work-Move m)
    work-Move (other {x = running a} m) = omega (arith, work-Move m)
    work-Move (other {x = finished r} m) = omega (arith, work-Move m)

    -- A step takes the semaphore where there is room, or gives it back.
    held-Move :
        {room : Type 0} {s t : List (Slot A R)}
        → Move fn room s t
        → (room × (held t ≡ suc (held s))) ⊎ (held t ≤ held s)
    held-Move (acquire h) = inl (h, refl)
    held-Move release = inr (omega arith)
    held-Move (other {x = waiting a} m) = held-Move m
    held-Move (other {x = running a} m) = elim (held-Move m) [
      | inl (h, e) ↦ inl (h, ap (λ n. suc n) e)
      | inr l ↦ inr (omega arith)
    ]
    held-Move (other {x = finished r} m) = held-Move m

    -- Each slot belongs to its item.
    Matches : List A → List (Slot A R) → Type 0
    Matches [] [] = Unit
    Matches [] (x ∷ s) = ⊥
    Matches (a ∷ items) [] = ⊥
    Matches (a ∷ items) (waiting b ∷ s) = (b ≡ a) × Matches items s
    Matches (a ∷ items) (running b ∷ s) = (b ≡ a) × Matches items s
    Matches (a ∷ items) (finished r ∷ s) = (r ≡ fn a) × Matches items s

    Matches-spawn : (items : List A) → Matches items (spawn items)
    unfolding Matches spawn
    Matches-spawn [] = tt
    Matches-spawn (a ∷ items) = (refl, Matches-spawn items)

    Matches-Move :
        {room : Type 0} {s t : List (Slot A R)}
        → Move fn room s t
        → (items : List A) → Matches items s
        → Matches items t
    unfolding Matches
    Matches-Move (acquire h) (a ∷ items) (e, m) = (e, m)
    Matches-Move release (a ∷ items) (e, m) = (ap fn e, m)
    Matches-Move (other {x = waiting b} v) (a ∷ items) (e, m) = (e, Matches-Move v items m)
    Matches-Move (other {x = running b} v) (a ∷ items) (e, m) = (e, Matches-Move v items m)
    Matches-Move (other {x = finished r} v) (a ∷ items) (e, m) = (e, Matches-Move v items m)
    Matches-Move (acquire h) [] m = absurd m
    Matches-Move release [] m = absurd m
    Matches-Move (other v) [] m = absurd m

    results-Matches :
        (items : List A) (s : List (Slot A R)) (rs : List R)
        → Matches items s
        → results s ≡ some rs
        → rs ≡ map fn items
    unfolding Matches results
    results-Matches [] [] rs m e = cc
    results-Matches [] (x ∷ s) rs m e = absurd m
    results-Matches (a ∷ items) [] rs m e = absurd m
    results-Matches (a ∷ items) (waiting b ∷ s) rs m e = cc
    results-Matches (a ∷ items) (running b ∷ s) rs m e = cc
    results-Matches (a ∷ items) (finished r ∷ s) rs (h, m) e = elim (Option-cases (results s)) [
      | inl n ↦ absurd (ground (arith, n, e))
      | inr (qs, q) ↦ ground (arith, q, e, h, results-Matches items s qs m q)
    ]

    -- While one holds the semaphore, it can go on; where none holds it, one that waits can take it.
    running_moves :
        (room : Type 0) (s : List (Slot A R))
        → 0 < held s
        → (t : List (Slot A R)) × Move fn room s t
    running_moves room [] h = absurd (omega arith)
    running_moves room (waiting a ∷ s) h =
        let (t, m) = running_moves room s h in (waiting a ∷ t, other m)
    running_moves room (running a ∷ s) h = (finished (fn a) ∷ s, release)
    running_moves room (finished r ∷ s) h =
        let (t, m) = running_moves room s h in (finished r ∷ t, other m)

    waiting_moves :
        (room : Type 0) (s : List (Slot A R))
        → room
        → held s ≡ 0
        → ((t : List (Slot A R)) × Move fn room s t) ⊎ ((rs : List R) × (results s ≡ some rs))
    unfolding results
    waiting_moves room [] r h = inr ([], refl)
    waiting_moves room (waiting a ∷ s) r h = inl (running a ∷ s, acquire r)
    waiting_moves room (running a ∷ s) r h = absurd (omega arith)
    waiting_moves room (finished x ∷ s) r h = elim (waiting_moves room s r h) [
      | inl (t, m) ↦ inl (finished x ∷ t, other m)
      | inr (rs, e) ↦ inr (x ∷ rs, rw e refl)
    ]

    -- What a run has done so far, against the items.
    record IsOnWay (width n : ℕ) (items : List A) (s : List (Slot A R)) : Type 0 where
      steps : n + work s ≡ 2 * length items
      bounded : held s ≤ width
      matching : Matches items s

    Step-IsOnWay :
        {width n : ℕ} (items : List A) {s t : List (Slot A R)}
        → Step fn width s t
        → IsOnWay width n items s
        → IsOnWay width (suc n) items t
    Step-IsOnWay {width} {n} items m v = record {
      steps = omega (arith, work-Move m, v.steps);
      bounded = elim (held-Move m) [ inl (h, e) ↦ omega arith | inr l ↦ omega (arith, v.bounded) ];
      matching = Matches-Move m items v.matching;
    }

    Run-IsOnWay :
        {width n m : ℕ} (items : List A) {s t : List (Slot A R)}
        → Run fn width n s t
        → IsOnWay width m items s
        → IsOnWay width (n + m) items t
    Run-IsOnWay {m = m} items stop v = let e : 0 + m ≡ m = omega arith in rw e v
    Run-IsOnWay {m = m} items (next {n = n} st r) v =
        let e : suc n + m ≡ n + suc m = omega arith in
        rw e (Run-IsOnWay items r (Step-IsOnWay items st v))

module _ {A R : Type 0} (fn : A → R) where
  work-spawn : (items : List A) → work {A = A} {R = R} (spawn items) ≡ 2 * length items
  unfolding spawn
  work-spawn [] = refl
  work-spawn (a ∷ items) = omega (arith, work-spawn items)

  held-spawn : (items : List A) → held {A = A} {R = R} (spawn items) ≡ 0
  unfolding spawn
  held-spawn [] = refl
  held-spawn (a ∷ items) = held-spawn items

  spawn-IsOnWay : (width : ℕ) (items : List A) → IsOnWay fn width 0 items (spawn items)
  spawn-IsOnWay width items = record {
    steps = omega (arith, work-spawn items);
    bounded = omega (arith, held-spawn items);
    matching = Matches-spawn fn items;
  }

  progress :
      {width : ℕ} {items : List A} {s : List (Slot A R)} {n : ℕ}
      → 0 < width
      → IsOnWay fn width n items s
      → ((t : List (Slot A R)) × Step fn width s t) ⊎ (results s ≡ some (map fn items))
  progress {width} {items} {s} w v = elim (zero_or_more (held s)) [
    | inr h ↦ inl (running_moves fn (held s < width) s h)
    | inl z ↦ elim (waiting_moves fn (held s < width) s (omega arith) z) [
      | inl m ↦ inl m
      | inr (rs, e) ↦ inr (e ∙ ap some (results-Matches fn items s rs v.matching e))
    ]
  ]
    where
      zero_or_more : (n : ℕ) → (n ≡ 0) ⊎ (0 < n)
      zero_or_more zero = inl refl
      zero_or_more (suc n) = inr (omega arith)

  -- However the goroutines of forEach take turns on a semaphore with a place at least, no more of them
  -- hold it than it has places, they take two steps for each item at most, and while they are not all
  -- finished one of them can go on; once none can, the results are those of the function on the items,
  -- in their order.
  pub for_each_lem :
      (width n : ℕ) (items : List A) (s : List (Slot A R))
      → 0 < width
      → Run fn width n (spawn items) s
      → (held s ≤ width)
        × (n ≤ 2 * length items)
        × (((t : List (Slot A R)) × Step fn width s t) ⊎ (results s ≡ some (map fn items)))
  for_each_lem width n items s w r =
      let v = Run-IsOnWay fn items r (spawn-IsOnWay width items) in
      (v.bounded, omega (arith, v.steps), progress w v)
