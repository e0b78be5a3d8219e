-- ===== src/Compression/Table.antt =====
-- The laws of the map from numbers to codecs in src/compression.rs.
use openworkers_runtime_nova.Prelude.{
  ℕ, suc, ◌≤◌, ◌≡◌, refl, none, some, List, [], ◌∷◌, arith, ◌==◌, if◌then◌else◌, All,
}
use openworkers_runtime_nova.Compression.{get, remove, insert}

module _ {V : Type 0} where
  pub get-remove :
      (id j : ℕ) (m : List (ℕ × V)) → get j (remove id m) ≡ (if id == j then none else get j m)
  unfolding get remove
  get-remove id j [] = ground arith
  get-remove id j ((k, v) ∷ m) = ground (arith, get-remove id j m)

  pub get-insert :
      (id j : ℕ) (v : V) (m : List (ℕ × V))
      → get j (insert id v m) ≡ (if id == j then some v else get j m)
  unfolding insert get
  get-insert id j v m = ground (arith, get-remove id j m)

  abbrev pub KeysLe : ℕ → List (ℕ × V) → Type 0
  KeysLe n m = All (λ (e : ℕ × V). e.0 ≤ n) m

  pub KeysLe-remove : (n id : ℕ) (m : List (ℕ × V)) → KeysLe n m → KeysLe n (remove id m)
  unfolding remove
  KeysLe-remove n id [] h = h
  KeysLe-remove n id ((k, v) ∷ m) h = ground (arith, KeysLe-remove n id m h.1)

  pub KeysLe-mono : (n k : ℕ) (m : List (ℕ × V)) → n ≤ k → KeysLe n m → KeysLe k m
  KeysLe-mono n k [] le h = tt
  KeysLe-mono n k (e ∷ m) le h = (omega arith, KeysLe-mono n k m le h.1)

  pub get-KeysLe : (n j : ℕ) (m : List (ℕ × V)) → KeysLe n m → suc n ≤ j → get j m ≡ none
  unfolding get
  get-KeysLe n j [] h lt = refl
  get-KeysLe n j ((k, v) ∷ m) h lt = ground (arith, get-KeysLe n j m h.1 lt)
