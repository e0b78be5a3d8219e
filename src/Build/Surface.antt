-- ===== src/Build/Surface.antt =====
-- Which modules `surface` of src/worker.rs takes.
use openworkers_runtime_nova.Prelude.{
  ◌≡◌, ◌⊎◌, inl, inr, refl, true, false, List, [], ◌∷◌, Text, text_eq, text_eq_refl, text_eq-true,
  arith, All, Bool-cases, retain,
}
use openworkers_runtime_nova.Build.{SurfaceModule, contains_text, all_in, surface}

abbrev pub IsIn : Text → List Text → Type 0
IsIn t [] = ⊥
IsIn t (x ∷ xs) = (x ≡ t) ⊎ IsIn t xs

contains_text-IsIn : (ts : List Text) (t : Text) → contains_text ts t ≡ true → IsIn t ts
unfolding contains_text
contains_text-IsIn [] t e = absurd (ground arith)
contains_text-IsIn (x ∷ xs) t e = elim (Bool-cases (text_eq x t)) [
  | inl same ↦ inl (text_eq-true x t same)
  | inr other ↦ inr (contains_text-IsIn xs t (ground arith))
]

IsIn-contains_text : (ts : List Text) (t : Text) → IsIn t ts → contains_text ts t ≡ true
unfolding contains_text
IsIn-contains_text [] t inside = absurd inside
IsIn-contains_text (x ∷ xs) t (inl e) = rw e (rw (text_eq_refl t) refl)
IsIn-contains_text (x ∷ xs) t (inr later) = let ih = IsIn-contains_text xs t later in ground arith

all_in-All :
    (ops provided : List Text) → all_in ops provided ≡ true → All (λ op. IsIn op provided) ops
unfolding all_in
all_in-All [] provided e = tt
all_in-All (op ∷ ops) provided e =
    (contains_text-IsIn provided op (ground arith), all_in-All ops provided (ground arith))

all_in-missing :
    (ops provided : List Text)
    → all_in ops provided ≡ false
    → (op : Text) × IsIn op ops × (IsIn op provided → ⊥)
unfolding all_in
all_in-missing [] provided e = absurd (ground arith)
all_in-missing (op ∷ ops) provided e = elim (Bool-cases (contains_text provided op)) [
  | inl here ↦
      let (other, inside, missing) = all_in-missing ops provided (ground arith) in
      (other, inr inside, missing)
  | inr absent ↦ (op, inl refl, λ inside. let here = IsIn-contains_text provided op inside in cc)
]

-- The sources of the modules that need no op that is missing, in the order of the modules.
pub data Chosen (provided : List Text) : List SurfaceModule → List Text → Type 0 where
  ends : Chosen provided [] []
  takes :
      {ms : List SurfaceModule} {sources : List Text} (m : SurfaceModule)
      → All (λ op. IsIn op provided) m.required_ops
      → Chosen provided ms sources
      → Chosen provided (m ∷ ms) (m.source ∷ sources)
  skips :
      {ms : List SurfaceModule} {sources : List Text} (m : SurfaceModule) (op : Text)
      → IsIn op m.required_ops
      → (IsIn op provided → ⊥)
      → Chosen provided ms sources
      → Chosen provided (m ∷ ms) sources

-- `surface` keeps the modules in their order, and takes a module exactly where every op that it requires is
-- provided.
pub surface-Chosen :
    (modules : List SurfaceModule) (provided : List Text)
    → Chosen provided modules (surface modules provided)
unfolding surface retain
surface-Chosen [] provided = ends
surface-Chosen (m ∷ ms) provided = elim (Bool-cases (all_in m.required_ops provided)) [
  | inl there ↦
      rw there (takes m (all_in-All m.required_ops provided there) (surface-Chosen ms provided))
  | inr lacking ↦
      let (op, inside, missing) = all_in-missing m.required_ops provided lacking in
      rw lacking (skips m op inside missing (surface-Chosen ms provided))
]
