-- ===== src/Crypto.antt =====
-- src/crypto.rs: `native_digest`, `native_hmac` and `native_aes_gcm`. The hashes, the MACs and the cipher are
-- parameters; bytes come and go as hex text.
pub mod Natives
pub mod Random
pub mod Ecdsa
pub mod Mac
pub mod Cipher
mod Tests
use openworkers_runtime_nova.Prelude.{
  ℕ, Bool, true, false, ◌&&◌, Option, none, some, List, [], ◌∷◌, Result, ok, err, Outcome, returns,
  panics, ◌>>=◌, Text, bytes, text_eq, ◌==◌, if◌then◌else◌, length,
}
use openworkers_runtime_nova.Value.{Value, undefined, null, boolean, string, Arg, JsResult}
use openworkers_runtime_nova.Hex.{from_hex, to_hex}

pub data Hash : Type 0 where
  sha1 sha256 sha384 sha512 : Hash

-- The crates sha1, sha2, hmac and aes_gcm. A key and a nonce of AES-256-GCM have 32 and 12 bytes.
pub record Crypto : Type 0 where
  pub digest : Hash → List ℕ → List ℕ
  pub finalize : Hash → List ℕ → List ℕ → List ℕ
  pub verify_slice : Hash → List ℕ → List ℕ → List ℕ → Bool
  pub encrypt : List ℕ → List ℕ → List ℕ → Option (List ℕ)
  pub decrypt : List ℕ → List ℕ → List ℕ → Option (List ℕ)

unfoldable pub hash_of : Text → Option Hash
hash_of name =
    if text_eq name (bytes "SHA-1")
    then some sha1
    else if text_eq name (bytes "SHA-256")
    then some sha256
    else if text_eq name (bytes "SHA-384")
    then some sha384
    else if text_eq name (bytes "SHA-512")
    then some sha512
    else none

module _ {F : Type 0} where
  -- `to_hex` of what a crate gave, or `null` for a name it does not have.
  unfoldable pub hex_or_null : Option (List ℕ) → Value F
  hex_or_null none = null
  hex_or_null (some out) = string (to_hex out)

  -- `to_hex` of what the cipher gave, or `false` where it failed.
  unfoldable pub hex_or_false : Option (List ℕ) → Value F
  hex_or_false none = boolean false
  hex_or_false (some out) = string (to_hex out)

  module _ (crypto : Crypto) where
    unfoldable pub digest_bytes : Option Hash → Option (List ℕ) → Value F
    unfolding hex_or_null
    digest_bytes hash none = null
    digest_bytes none (some input) = null
    digest_bytes (some hash) (some input) = hex_or_null (some (crypto.digest hash input))

    -- `native_digest` past the conversion of its arguments.
    unfoldable pub digest : Text → Text → Outcome (Value F)
    unfolding digest_bytes
    digest algorithm input = do
      input ← from_hex input
      returns (digest_bytes (hash_of algorithm) input)

    unfoldable pub verified : Option Hash → List ℕ → List ℕ → Option (List ℕ) → Value F
    verified hash key message none = boolean false
    verified none key message (some tag) = null
    verified (some hash) key message (some tag) = boolean (crypto.verify_slice hash key message tag)

    unfoldable pub signed : Option Hash → List ℕ → List ℕ → Value F
    unfolding hex_or_null
    signed none key message = null
    signed (some hash) key message = hex_or_null (some (crypto.finalize hash key message))

    unfoldable pub hmac_bytes :
        Option Hash → Option (List ℕ) → Option (List ℕ) → Option Text → Outcome (Value F)
    unfolding verified signed
    hmac_bytes hash none message tag = returns null
    hmac_bytes hash (some key) none tag = returns null
    hmac_bytes hash (some key) (some message) none = returns (signed hash key message)
    hmac_bytes hash (some key) (some message) (some tag) = do
      tag ← from_hex tag
      returns (verified hash key message tag)

    -- `native_hmac` past the conversion of its arguments.
    unfoldable pub hmac : Text → Text → Text → Option Text → Outcome (Value F)
    unfolding hmac_bytes
    hmac hash key message tag = do
      key ← from_hex key
      message ← from_hex message
      hmac_bytes (hash_of hash) key message tag

    unfoldable pub ciphered : Text → List ℕ → List ℕ → List ℕ → Value F
    unfolding hex_or_false
    ciphered op key iv message =
        if text_eq op (bytes "encrypt")
        then hex_or_false (crypto.encrypt key iv message)
        else if text_eq op (bytes "decrypt")
        then hex_or_false (crypto.decrypt key iv message)
        else null

    unfoldable pub aes_gcm_bytes :
        Text → Option (List ℕ) → Option (List ℕ) → Option (List ℕ) → Value F
    unfolding ciphered
    aes_gcm_bytes op (some key) (some iv) (some message) =
        if (length key == 32) && (length iv == 12) then ciphered op key iv message else null
    aes_gcm_bytes op (some key) (some iv) none = null
    aes_gcm_bytes op (some key) none message = null
    aes_gcm_bytes op none iv message = null

    -- `native_aes_gcm` past the conversion of its arguments.
    unfoldable pub aes_gcm : Text → Text → Text → Text → Outcome (Value F)
    unfolding aes_gcm_bytes
    aes_gcm op key iv message = do
      key ← from_hex key
      iv ← from_hex iv
      message ← from_hex message
      returns (aes_gcm_bytes op key iv message)
