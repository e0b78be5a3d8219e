-- ===== src/Crypto/Mac.antt =====
-- `native_hmac` of src/crypto.rs checks the tags that it makes.
use openworkers_runtime_nova.Prelude.{ℕ, ◌≡◌, ◌↔◌, true, List}
use openworkers_runtime_nova.Value.{Value}
use openworkers_runtime_nova.Hex.RoundTrip.{IsBytes}
use openworkers_runtime_nova.Crypto.{Hash, Crypto}

-- A MAC is made of bytes, and `verify_slice` holds of it and of no other.
abbrev pub Verifies : Crypto → Type 0
Verifies crypto =
    (hash : Hash) (key message : List ℕ)
    → IsBytes (crypto.finalize hash key message)
      × ((tag : List ℕ)
          → (crypto.verify_slice hash key message tag ≡ true)
            ↔ (tag ≡ crypto.finalize hash key message))
