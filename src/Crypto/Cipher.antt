-- ===== src/Crypto/Cipher.antt =====
-- `native_aes_gcm` of src/crypto.rs decrypts what it encrypted.
use openworkers_runtime_nova.Prelude.{
  ℕ, ◌≡◌, refl, some, List, returns, bytes, text_eq, length, Text,
}
use openworkers_runtime_nova.Value.{string}
use openworkers_runtime_nova.Hex.{to_hex}
use openworkers_runtime_nova.Hex.RoundTrip.{IsBytes, from_hex-to_hex}
use openworkers_runtime_nova.Crypto.{Crypto, hex_or_false, ciphered, aes_gcm_bytes, aes_gcm}

-- What the cipher makes of a message of bytes under a key and a nonce is bytes, and it gets the message back from them.
abbrev pub Deciphers : Crypto → Type 0
Deciphers crypto =
    (key iv message out : List ℕ)
    → IsBytes message
    → crypto.encrypt key iv message ≡ some out
    → IsBytes out × (crypto.decrypt key iv out ≡ some message)

module _ {F : Type 0} (crypto : Crypto) (key iv : List ℕ) where
  aes_gcm-to_hex :
      (op : Text) (message : List ℕ)
      → IsBytes key
      → IsBytes iv
      → IsBytes message
      → length key ≡ 32
      → length iv ≡ 12
      → aes_gcm {F = F} crypto op (to_hex key) (to_hex iv) (to_hex message)
        ≡ returns (ciphered crypto op key iv message)
  unfolding aes_gcm aes_gcm_bytes
  aes_gcm-to_hex op message k i d lk li =
      rw (from_hex-to_hex key k, from_hex-to_hex iv i, from_hex-to_hex message d) (rw (lk, li) refl)

  ciphered-encrypt :
      (message out : List ℕ)
      → crypto.encrypt key iv message ≡ some out
      → ciphered {F = F} crypto (bytes "encrypt") key iv message ≡ string (to_hex out)
  unfolding ciphered text_eq hex_or_false
  ciphered-encrypt message out e = rw e refl

  ciphered-decrypt :
      (out message : List ℕ)
      → crypto.decrypt key iv out ≡ some message
      → ciphered {F = F} crypto (bytes "decrypt") key iv out ≡ string (to_hex message)
  unfolding ciphered text_eq hex_or_false
  ciphered-decrypt out message e = rw e refl

  -- With a key of 32 bytes and a nonce of 12, a message of bytes that the cipher encrypts goes through `native_aes_gcm`
  -- and back: the answer to `encrypt` is hex text, and the answer to `decrypt` of that text is the message in hex.
  -- The cipher is taken to decrypt what it encrypted, to bytes.
  pub aes_gcm-aes_gcm :
      (message out : List ℕ)
      → Deciphers crypto
      → IsBytes key
      → IsBytes iv
      → IsBytes message
      → length key ≡ 32
      → length iv ≡ 12
      → crypto.encrypt key iv message ≡ some out
      → (aes_gcm {F = F} crypto (bytes "encrypt") (to_hex key) (to_hex iv) (to_hex message)
          ≡ returns (string (to_hex out)))
        × (aes_gcm {F = F} crypto (bytes "decrypt") (to_hex key) (to_hex iv) (to_hex out)
            ≡ returns (string (to_hex message)))
  aes_gcm-aes_gcm message out c k i m lk li e =
      let (b, back) = c key iv message out m e in
      (
        rw (aes_gcm-to_hex (bytes "encrypt") message k i m lk li)
            (rw (ciphered-encrypt message out e) refl),
        rw (aes_gcm-to_hex (bytes "decrypt") out k i b lk li)
            (rw (ciphered-decrypt out message back) refl),
      )
