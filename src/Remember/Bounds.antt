-- ===== src/Remember/Bounds.antt =====
-- main.go and cache.go: the times to live that `schain remember` accepts.
use schain.Prelude.{ℕ, ◌+◌, ◌≤◌, ◌≡◌, Option, none, some, inl, inr, ◌∷◌, ◌++◌, arith, Option-cases}
use schain.Prelude.Text.{Bytes}
use schain.Prelude.Number.{ℤ, pos, negsuc, atoi}
use schain.Fail.{ok}
use schain.Cache.{max_ttl, payload_with_expiry, int64_text}
use schain.Remember.{ttl_of_minutes, ttl_of_duration, or_bad, parse_ttl}

ttl_of_minutes_bounds : (n : ℤ) (t : ℕ) → ttl_of_minutes n ≡ some t → (1 ≤ t) × (t ≤ max_ttl)
unfolding ttl_of_minutes
ttl_of_minutes_bounds (negsuc n) t e = cc
ttl_of_minutes_bounds (pos n) t e = ground (arith, e)

ttl_of_duration_bounds : (n : ℤ) (t : ℕ) → ttl_of_duration n ≡ some t → (1 ≤ t) × (t ≤ max_ttl)
unfolding ttl_of_duration
ttl_of_duration_bounds (negsuc n) t e = cc
ttl_of_duration_bounds (pos n) t e = ground (arith, e)

or_bad-some : (s : Bytes) (o : Option ℕ) (t : ℕ) → or_bad s o ≡ ok t → o ≡ some t
or_bad-some s none t e = cc
or_bad-some s (some n) t e = ground (arith, e)

parse_ttl_bounds :
    (parse_duration : Bytes → Option ℤ) (s : Bytes) (t : ℕ)
    → parse_ttl parse_duration s ≡ ok t
    → (1 ≤ t) × (t ≤ max_ttl)
unfolding parse_ttl
parse_ttl_bounds parse_duration s t e = elim (Option-cases (atoi s)) [
  | inr (n, a) ↦
      ttl_of_minutes_bounds n t (or_bad-some s (ttl_of_minutes n) t (rw (parse_ttl, a) at e))
  | inl a ↦ elim (Option-cases (parse_duration s)) [
    | inl m ↦ cc (rw (parse_ttl, a, m) at e)
    | inr (d, m) ↦
        ttl_of_duration_bounds d t (or_bad-some s (ttl_of_duration d) t (rw (parse_ttl, a, m) at e))
  ]
]

-- A time to live that is accepted is a second at least and fits the 31 bits that the kernel keeps,
-- so the store never refuses it: the payload gets its deadline.
pub payload_with_expiry-parse_ttl :
    (parse_duration : Bytes → Option ℤ) (s : Bytes) (t now : ℕ) (payload : Bytes)
    → parse_ttl parse_duration s ≡ ok t
    → (1 ≤ t)
      × (t ≤ max_ttl)
      × (payload_with_expiry now payload (pos t) ≡ ok (payload ++ b':' ∷ int64_text (now + t)))
unfolding payload_with_expiry
payload_with_expiry-parse_ttl parse_duration s t now payload e =
    let (low, high) = parse_ttl_bounds parse_duration s t e in
    (low, high, ground (arith, low, high))
