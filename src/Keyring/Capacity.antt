-- ===== src/Keyring/Capacity.antt =====
-- cache_linux.go: what is stored fits the buffer that it is read into.
use schain.Prelude.{
  ℕ, zero, suc, ◌+◌, ◌*◌, ◌/◌, ◌%◌, ◌≤◌, ◌<◌, ◌≡◌, refl, false, [], ◌∷◌, ◌++◌, arith, ltb, length,
  length-append, Bool-cases, inl, inr, ◌⊎◌, ◌==◌, some,
}
use schain.Prelude.Text.{Bytes, contains}
use schain.Prelude.Number.{pos, digits, itoa, max_int}
use schain.Prelude.Hex.{hex_encode}
use schain.Fail.{ok}
use schain.Cache.{payload_with_expiry, cache_payload, int64_text}
use schain.Keyring.{Kernel, key_desc, search_key, cache_load}

pow10 : ℕ → ℕ
pow10 zero = 1
pow10 (suc k) = 10 * pow10 k

length-digits : (f n k : ℕ) → n ≤ f → n < pow10 (suc k) → length (digits f n) ≤ suc k
unfolding digits pow10
length-digits zero n k h l = omega arith
length-digits (suc f) n zero h l = ground arith
length-digits (suc f) n (suc k) h l = elim (Bool-cases (ltb n 10)) [
  | inl y ↦ rw y (omega arith)
  | inr m ↦
      let less = length-digits f (n / 10) k (ground (arith, m)) (omega arith) in
      rw m (omega (arith, less, length-append (digits f (n / 10)) ((b'0' + n % 10) ∷ [])))
]

length-itoa : (n : ℕ) → n ≤ max_int → length (itoa n) ≤ 19
unfolding itoa pow10
length-itoa n h = length-digits n n 18 (omega arith) (omega arith)

length-hex_encode : (s : Bytes) → length (hex_encode s) ≡ 2 * length s
unfolding hex_encode
length-hex_encode [] = refl
length-hex_encode (b ∷ s) = omega (arith, length-hex_encode s)

-- The forms of a payload with a deadline in the range of an int64.
payload_forms :
    (payload p : Bytes) (now ttl : ℕ)
    → now + ttl ≤ max_int
    → payload_with_expiry now payload (pos ttl) ≡ ok p
    → (p ≡ payload) ⊎ (p ≡ payload ++ b':' ∷ itoa (now + ttl))
unfolding payload_with_expiry int64_text
payload_forms payload p now ttl m h = elim (Bool-cases (ttl == 0)) [
  | inl y ↦ inl (ground (arith, h, y))
  | inr n ↦ inr (ground (arith, h, n))
]

length-cache_payload :
    (salt key : Bytes) → length salt ≡ 16 → length key ≡ 32 → length (cache_payload salt key) ≡ 97
unfolding cache_payload
length-cache_payload salt key s k = omega (
  arith,
  length-append (hex_encode salt) (b':' ∷ hex_encode key),
  length-hex_encode salt,
  length-hex_encode key,
)

pub length-payload_with_expiry :
    (salt key p : Bytes) (now ttl : ℕ)
    → length salt ≡ 16
    → length key ≡ 32
    → now + ttl ≤ max_int
    → payload_with_expiry now (cache_payload salt key) (pos ttl) ≡ ok p
    → length p ≤ 256
length-payload_with_expiry salt key p now ttl s k m h =
    let c = length-cache_payload salt key s k in
    elim (payload_forms (cache_payload salt key) p now ttl m h) [
      | inl e ↦ rw e (omega (arith, c))
      | inr e ↦ rw e (
          omega (
            arith,
            c,
            length-itoa (now + ttl) m,
            length-append (cache_payload salt key) (b':' ∷ itoa (now + ttl)),
          ))
    ]

-- The kernel gives back what was stored.
pub cache_load-stored :
    (k : Kernel) (path p : Bytes) (id : ℕ)
    → length p ≤ 256
    → contains (key_desc path) 0 ≡ false
    → k.search (key_desc path) ≡ some id
    → k.read id ≡ ok p
    → cache_load k path ≡ ok p
unfolding cache_load
cache_load-stored k path p id l c s r =
    rw (c, search_key, cache_load) (rw (s, cache_load) (rw (r, cache_load) (ground (arith, l))))
