-- ===== src/Crypto/Tests.antt =====
-- Tests of src/crypto.rs over small functions, and examples of the theorems on it.
use openworkers_runtime_nova.Prelude.{
  ℕ, zero, suc, ◌+◌, ◌<◌, ◌%◌, ◌≡◌, refl, Bool, true, false, not, Option, none, some, List, [], ◌∷◌,
  ◌++◌, ok, returns, bytes, text_eq, arith, length, ◌==◌, if◌then◌else◌,
}
use openworkers_runtime_nova.Value.{null, string, array_buffer}
use openworkers_runtime_nova.Examples.{number_arg}
use openworkers_runtime_nova.Crypto.Natives.{native_random}
use openworkers_runtime_nova.Crypto.Random.{Sized, native_random-Sized}
use openworkers_runtime_nova.Crypto.Ecdsa.{text, flag, Curve, Source, ecdsa_curve}
use openworkers_runtime_nova.Crypto.Ecdsa.RoundTrip.{IsSound, Draws, ecdsa-ecdsa}
use openworkers_runtime_nova.Hex.{to_hex}
use openworkers_runtime_nova.Hex.RoundTrip.{IsBytes}
use openworkers_runtime_nova.Crypto.{Crypto, Hash, hash_of, digest, aes_gcm}
use openworkers_runtime_nova.Crypto.Cipher.{Deciphers, aes_gcm-aes_gcm}

-- The MAC is the lengths, and the cipher copies.
abbrev tag_of : Hash → List ℕ → List ℕ → List ℕ
tag_of hash key message = (length key % 256) ∷ (length message % 256) ∷ []

abbrev copies : ℕ → ℕ → List ℕ
copies b zero = []
copies b (suc n) = b ∷ copies b n

length-copies : (b n : ℕ) → length (copies b n) ≡ n
length-copies b zero = refl
length-copies b (suc n) = omega (arith, length-copies b n)

copies-IsBytes : (b n : ℕ) → b < 256 → IsBytes (copies b n)
copies-IsBytes b zero small = tt
copies-IsBytes b (suc n) small = (small, copies-IsBytes b n small)

abbrev crypto : Crypto
crypto = record {
  digest = λ hash input. (length input % 256) ∷ [];
  finalize = tag_of;
  verify_slice = λ hash key message tag. text_eq tag (tag_of hash key message);
  encrypt = λ key iv message. some message;
  decrypt = λ key iv out. some out;
}

crypto-Deciphers : Deciphers crypto
crypto-Deciphers key iv message out plain e =
    let same : out ≡ message = cc in (rw same plain, rw same refl)

digest_md5 : digest {F = ℕ} crypto (bytes "MD5") (bytes "00") ≡ returns null
unfolding digest openworkers_runtime_nova.Hex.from_hex openworkers_runtime_nova.Hex.from_pairs
    openworkers_runtime_nova.Hex.from_str_radix openworkers_runtime_nova.Hex.to_digit hash_of
    text_eq
digest_md5 = refl

abbrev key : List ℕ
key = copies 1 32

abbrev iv : List ℕ
iv = copies 2 12

aes_gcm-aes_gcm_example :
    (aes_gcm {F = ℕ} crypto (bytes "encrypt") (to_hex key) (to_hex iv) (to_hex (5 ∷ []))
      ≡ returns (string (to_hex (5 ∷ []))))
    × (aes_gcm {F = ℕ} crypto (bytes "decrypt") (to_hex key) (to_hex iv) (to_hex (5 ∷ []))
        ≡ returns (string (to_hex (5 ∷ []))))
aes_gcm-aes_gcm_example =
    aes_gcm-aes_gcm crypto key iv (5 ∷ []) (5 ∷ []) crypto-Deciphers
      (copies-IsBytes 1 32 (omega arith)) (copies-IsBytes 2 12 (omega arith)) (omega arith, tt) refl
      refl refl

native_random-Sized_example :
    (out : List ℕ) × (native_random (copies 0) (number_arg 3) ≡ returns (ok (array_buffer out)))
    × Sized 3 (length out)
native_random-Sized_example = native_random-Sized (copies 0) (number_arg 3) 3 (length-copies 0) refl

-- A curve of two keys. A signature is the key, and a scalar that begins with zero is no key.
abbrev key_of : List ℕ → Option Bool
key_of [] = none
key_of (c ∷ cs) = if c == 0 then none else some (c == 1)

abbrev byte_of : Bool → List ℕ
byte_of true = 1 ∷ []
byte_of false = 2 ∷ []

abbrev same : Bool → Bool → Bool
same true b = b
same false b = not b

abbrev curve : Curve Bool Bool Bool
curve = record {
  size = 2;
  signing_from_slice = key_of;
  verifying_key = λ k. k;
  to_sec1_point = byte_of;
  sign_prehash = λ k digest. some k;
  to_bytes = byte_of;
  from_sec1_bytes = key_of;
  signature_from_slice = key_of;
  verify_prehash = λ v digest s. same v s;
}

byte_of-IsBytes : (b : Bool) → IsBytes (byte_of b)
byte_of-IsBytes true = (omega arith, tt)
byte_of-IsBytes false = (omega arith, tt)

key_of-byte_of : (b : Bool) → key_of (byte_of b) ≡ some b
key_of-byte_of true = refl
key_of-byte_of false = refl

same_refl : (b : Bool) → same b b ≡ true
same_refl true = refl
same_refl false = refl

curve-IsSound : IsSound curve
curve-IsSound = record {
  point_bytes = byte_of-IsBytes;
  point_back = key_of-byte_of;
  signature_bytes = byte_of-IsBytes;
  signature_back = key_of-byte_of;
  signed_holds = λ k digest s e. let same_key : k ≡ s = cc in rw same_key (same_refl s);
}

-- The first draw is no key.
abbrev source : Source
source call size = call ∷ 7 ∷ []

key_of-zero : (i : ℕ) → i < 1 → key_of (source (0 + i) 2) ≡ none
key_of-zero i lt = ground arith

source-Draws : Draws curve source 0 1 true
source-Draws = record { refused = key_of-zero; taken = refl }

ecdsa-ecdsa_example :
    (ecdsa_curve curve source 2 (bytes "generate") [] [] []
      ≡ some (returns (text (to_hex (1 ∷ 7 ∷ []) ++ (b':' ∷ to_hex (1 ∷ []))))))
    × (ecdsa_curve curve source 2 (bytes "sign") (to_hex (1 ∷ 7 ∷ [])) (to_hex (9 ∷ [])) []
        ≡ some (returns (text (to_hex (1 ∷ [])))))
    × (ecdsa_curve curve source 2
          (bytes "verify")
          (to_hex (1 ∷ []))
          (to_hex (9 ∷ []))
          (to_hex (1 ∷ []))
        ≡ some (returns (flag true)))
    × (ecdsa_curve curve source 2 (bytes "check") (to_hex (1 ∷ [])) [] []
        ≡ some (returns (flag true)))
ecdsa-ecdsa_example =
    ecdsa-ecdsa curve source 2 1 true (9 ∷ []) true curve-IsSound source-Draws (omega arith)
      (omega arith, (omega arith, tt)) (omega arith, tt) refl
