-- ===== src/Crypto/Natives.antt =====
-- src/crypto.rs: the functions that the guest calls, which convert their arguments from left to right: `native_random`,
-- `native_digest`, `native_hmac`, `native_aes_gcm`. The random source is a parameter: the bytes that a call of it
-- fills a buffer of a given size with.
use openworkers_runtime_nova.Prelude.{ℕ, ◌^◌, List, ltb, if◌then◌else◌, returns, ok}
use openworkers_runtime_nova.Value.{array_buffer, Arg, Native, given, replies, to_optional_string}
use openworkers_runtime_nova.Crypto.{Crypto, digest, hmac, aes_gcm}

abbrev pub max_bytes : ℕ
max_bytes = 65_536

-- `count.clamp(0, MAX_BYTES)` of an `i32`.
unfoldable pub clamp : ℕ → ℕ
clamp count = if ltb count (2 ^ 31) then (if ltb max_bytes count then max_bytes else count) else 0

module _ {F : Type 0} where
  -- The allocation in `buffer_of` is taken to succeed.
  unfoldable pub native_random : (ℕ → List ℕ) → Arg F → Native F
  unfolding clamp
  native_random fill count =
      given count.to_int32 (λ n. returns (ok (array_buffer (fill (clamp n)))))

  module _ (crypto : Crypto) where
    unfoldable pub native_digest : Arg F → Arg F → Native F
    native_digest algorithm input =
        given algorithm.to_string
          (λ algorithm. given input.to_string (λ input. replies (digest crypto algorithm input)))

    unfoldable pub native_hmac : Arg F → Arg F → Arg F → Arg F → Native F
    native_hmac hash key message tag = given hash.to_string (λ hash. given key.to_string (λ key.
        given message.to_string (λ message.
          given (to_optional_string tag) (λ tag. replies (hmac crypto hash key message tag)))))

    unfoldable pub native_aes_gcm : Arg F → Arg F → Arg F → Arg F → Native F
    native_aes_gcm op key iv message = given op.to_string (λ op. given key.to_string (λ key.
        given iv.to_string
          (λ iv. given message.to_string (λ message. replies (aes_gcm crypto op key iv message)))))
