-- ===== src/Crypto/Random.antt =====
-- `native_random` of src/crypto.rs answers no more than the largest request.
use openworkers_runtime_nova.Prelude.{
  ℕ, ◌^◌, ◌≤◌, ◌<◌, ◌≡◌, refl, ◌⊎◌, List, returns, ok, arith, length,
}
use openworkers_runtime_nova.Value.{array_buffer, Arg}
use openworkers_runtime_nova.Crypto.Natives.{max_bytes, clamp, native_random}

clamp-cases :
    (n : ℕ)
    → ((n ≤ max_bytes) × (clamp n ≡ n))
      ⊎ ((max_bytes < n) × (n < 2 ^ 31) × (clamp n ≡ max_bytes))
      ⊎ ((2 ^ 31 ≤ n) × (clamp n ≡ 0))
unfolding clamp
clamp-cases n = ground arith

-- How many bytes a request for a number of them is answered with: the number is a bit pattern of 32 bits, negative
-- from 2 ^ 31 on.
abbrev pub Sized : ℕ → ℕ → Type 0
Sized n len =
    ((n ≤ max_bytes) × (len ≡ n))
    ⊎ ((max_bytes < n) × (n < 2 ^ 31) × (len ≡ max_bytes))
    ⊎ ((2 ^ 31 ≤ n) × (len ≡ 0))

-- `native_random` answers an `ArrayBuffer` of as many bytes as were asked for, of 65536 where that is less, and of none
-- for a negative number. The random source is taken to fill the buffer that it is given.
pub native_random-Sized :
    {F : Type 0} (fill : ℕ → List ℕ) (count : Arg F) (n : ℕ)
    → ((k : ℕ) → length (fill k) ≡ k)
    → count.to_int32 ≡ ok n
    → (out : List ℕ) × (native_random fill count ≡ returns (ok (array_buffer out)))
      × Sized n (length out)
unfolding native_random
native_random-Sized fill count n fills e =
    (fill (clamp n), rw e refl, rw (fills (clamp n)) (clamp-cases n))
