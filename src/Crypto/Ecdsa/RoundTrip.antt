-- ===== src/Crypto/Ecdsa/RoundTrip.antt =====
-- ECDSA of src/crypto.rs: a key that was generated signs, and what it signs holds.
use openworkers_runtime_nova.Prelude.{
  ℕ, zero, suc, ◌+◌, ◌<◌, ◌≡◌, refl, sym, ap, ◌∙◌, true, Outcome, Option, none, some, List, [], ◌∷◌,
  ◌++◌, returns, Text, bytes, text_eq, arith,
}
use openworkers_runtime_nova.Hex.{to_hex}
use openworkers_runtime_nova.Hex.RoundTrip.{IsBytes, from_hex-to_hex}
use openworkers_runtime_nova.Crypto.Ecdsa.{
  Answer, text, flag, Curve, Source, key_pair, taken_or, generate, signature_of, sign_bytes, sign,
  holds, verify_bytes, verify, is_point, check, ecdsa_curve,
}

module _ {K V S : Type 0} (curve : Curve K V S) where
  -- A point and a signature are read back from their bytes, and what a key signs holds for the key's own point.
  pub record IsSound : Type 0 where
    pub point_bytes : (v : V) → IsBytes (curve.to_sec1_point v)
    pub point_back : (v : V) → curve.from_sec1_bytes (curve.to_sec1_point v) ≡ some v
    pub signature_bytes : (s : S) → IsBytes (curve.to_bytes s)
    pub signature_back : (s : S) → curve.signature_from_slice (curve.to_bytes s) ≡ some s
    pub signed_holds :
        (k : K) (digest : List ℕ) (s : S)
        → curve.sign_prehash k digest ≡ some s
        → curve.verify_prehash (curve.verifying_key k) digest s ≡ true

  -- The draws before this one give no key, and this one does.
  pub record Draws (fill : Source) (first n : ℕ) (key : K) : Type 0 where
    pub refused : (i : ℕ) → i < n → curve.signing_from_slice (fill (first + i) curve.size) ≡ none
    pub taken : curve.signing_from_slice (fill (first + n) curve.size) ≡ some key

  generate-now :
      (fill : Source) (call fuel : ℕ) (key : K)
      → curve.signing_from_slice (fill call curve.size) ≡ some key
      → generate curve fill call (suc fuel) ≡ some (key_pair curve (fill call curve.size) key)
  unfolding generate taken_or
  generate-now fill call fuel key e =
      ap (taken_or curve (generate curve fill (call + 1) fuel) (fill call curve.size)) e

  generate-again :
      (fill : Source) (call fuel : ℕ)
      → curve.signing_from_slice (fill call curve.size) ≡ none
      → generate curve fill call (suc fuel) ≡ generate curve fill (call + 1) fuel
  unfolding generate taken_or
  generate-again fill call fuel e =
      ap (taken_or curve (generate curve fill (call + 1) fuel) (fill call curve.size)) e

  plus_zero : (m : ℕ) → m + 0 ≡ m
  plus_zero m = omega arith

  zero_plus : (m : ℕ) → 0 + m ≡ m
  zero_plus m = omega arith

  plus_suc : (m n : ℕ) → (m + 1) + n ≡ m + suc n
  plus_suc m n = omega arith

  Draws-suc :
      (fill : Source) (call n : ℕ) (key : K)
      → Draws fill call (suc n) key
      → Draws fill (call + 1) n key
  Draws-suc fill call n key d = record {
    refused = λ i lt. rw (plus_suc call i) (d.refused (suc i) (omega arith));
    taken = rw (plus_suc call n) (d.taken);
  }

  -- The loop of `generate` draws again until a draw is a key, and ends with that key.
  pub generate_lem :
      (fill : Source) (call n fuel : ℕ) (key : K)
      → n < fuel
      → Draws fill call n key
      → generate curve fill call fuel ≡ some (key_pair curve (fill (call + n) curve.size) key)
  generate_lem fill call n zero key lt d = absurd (omega arith)
  generate_lem fill call zero (suc fuel) key lt d =
      rw (plus_zero call) (generate-now fill call fuel key (rw (plus_zero call) at (d.taken)))
  generate_lem fill call (suc n) (suc fuel) key lt d =
      generate-again fill call fuel (rw (plus_zero call) at (d.refused 0 (omega arith)))
      ∙ (rw (sym (plus_suc call n))
          (generate_lem fill (call + 1) n fuel key (omega arith) (Draws-suc fill call n key d)))

  sign-to_hex :
      (key digest : List ℕ) (k : K) (s : S)
      → IsBytes key
      → IsBytes digest
      → curve.signing_from_slice key ≡ some k
      → curve.sign_prehash k digest ≡ some s
      → sign curve (to_hex key) (to_hex digest) ≡ returns (text (to_hex (curve.to_bytes s)))
  unfolding sign sign_bytes signature_of
  sign-to_hex key digest k s b d e f =
      rw (from_hex-to_hex key b, from_hex-to_hex digest d)
        (rw (e, sign_bytes) (rw (f, signature_of) refl))

  verify-to_hex :
      (digest : List ℕ) (k : K) (s : S)
      → IsSound
      → IsBytes digest
      → curve.sign_prehash k digest ≡ some s
      → verify curve
          (to_hex (curve.to_sec1_point (curve.verifying_key k)))
          (to_hex digest)
          (to_hex (curve.to_bytes s))
        ≡ returns (flag true)
  unfolding verify verify_bytes holds
  verify-to_hex digest k s sound d f =
      let v = curve.verifying_key k in
      rw
        (
          from_hex-to_hex (curve.to_sec1_point v) (sound.point_bytes v),
          from_hex-to_hex digest d,
          from_hex-to_hex (curve.to_bytes s) (sound.signature_bytes s),
        )
        (rw (sound.point_back v, verify_bytes)
          (rw (sound.signature_back s, holds) (rw (sound.signed_holds k digest s f) refl)))

  check-to_hex :
      (v : V) → IsSound → check curve (to_hex (curve.to_sec1_point v)) ≡ returns (flag true)
  unfolding check is_point
  check-to_hex v sound =
      rw (from_hex-to_hex (curve.to_sec1_point v) (sound.point_bytes v))
        (rw (sound.point_back v, is_point) refl)

  abbrev point_of : K → List ℕ
  point_of key = curve.to_sec1_point (curve.verifying_key key)

  -- The operations on one curve.
  abbrev op_of : Text → Source → ℕ → Text → Text → Text → Option (Outcome Answer)
  op_of op fill fuel a b c = ecdsa_curve curve fill fuel op a b c

  -- A key that `generate` made of the first draw that is one, given fuel for it, signs a digest, and the signature
  -- holds for the point that came with the key, which is on the curve. The draws and the digest are bytes, the crate
  -- signs the digest, reads points and signatures back, and what a key signs holds for the key's own point.
  pub ecdsa-ecdsa :
      (fill : Source) (fuel n : ℕ) (key : K) (digest : List ℕ) (s : S)
      → IsSound
      → Draws fill 0 n key
      → n < fuel
      → IsBytes (fill n curve.size)
      → IsBytes digest
      → curve.sign_prehash key digest ≡ some s
      → (op_of (bytes "generate") fill fuel [] [] []
          ≡ some (returns (text (to_hex (fill n curve.size) ++ (b':' ∷ to_hex (point_of key))))))
        × (op_of (bytes "sign") fill fuel (to_hex (fill n curve.size)) (to_hex digest) []
            ≡ some (returns (text (to_hex (curve.to_bytes s)))))
        × (op_of
              (bytes "verify")
              fill
              fuel
              (to_hex (point_of key))
              (to_hex digest)
              (to_hex (curve.to_bytes s))
            ≡ some (returns (flag true)))
        × (op_of (bytes "check") fill fuel (to_hex (point_of key)) [] []
            ≡ some (returns (flag true)))
  unfolding ecdsa_curve text_eq key_pair
  ecdsa-ecdsa fill fuel n key digest s sound d lt b db signs = (
    rw (generate_lem fill 0 n fuel key lt d, zero_plus n) refl,
    rw (sign-to_hex (fill n curve.size) digest key s b db (rw (zero_plus n) at (d.taken)) signs)
        refl,
    rw (verify-to_hex digest key s sound db signs) refl,
    rw (check-to_hex (curve.verifying_key key) sound) refl,
  )
