-- ===== src/Globals/Defined.antt =====
-- What the guest finds in the global object that src/worker.rs set up.
use openworkers_runtime_nova.Prelude.{
  ◌≡◌, ◌≢◌, refl, sym, ◌∙◌, Bool, true, false, none, some, List, [], ◌∷◌, Outcome, returns, ◌>>=◌,
  Text, bytes, text_eq, text_eq_refl, Bool-cases, inl, inr, All, if◌then◌else◌,
}
use openworkers_runtime_nova.Value.{number, string}
use openworkers_runtime_nova.Globals.{
  respond, log, url, random, digest, binding, hmac, aes_gcm, timer_start, timer_clear, ecdsa,
  url_pattern, compression, encoding, performance_now, Property, function, plain, namespace,
  Objects, Process, user_agent, time_origin, define_value, define_builtin, define_native_namespace,
  initialize_global_object,
}

abbrev Row : Type 0 → Type 0 → Type 0
Row F G = Text × Property F G

-- The names that the platform layer calls, and their functions.
abbrev pub functions : {F G : Type 0} → List (Row F G)
functions =
    (bytes "__ow_native_respond", function respond 2)
    ∷ (bytes "__ow_native_log", function log 2)
    ∷ (bytes "__ow_native_url", function url 3)
    ∷ (bytes "__ow_native_random", function random 1)
    ∷ (bytes "__ow_native_digest", function digest 2)
    ∷ (bytes "__ow_native_binding", function binding 5)
    ∷ (bytes "__ow_native_hmac", function hmac 4)
    ∷ (bytes "__ow_native_aes_gcm", function aes_gcm 4)
    ∷ (bytes "__ow_native_timer_start", function timer_start 3)
    ∷ (bytes "__ow_native_timer_clear", function timer_clear 1)
    ∷ (bytes "__ow_native_ecdsa", function ecdsa 5)
    ∷ (bytes "__ow_native_url_pattern", function url_pattern 3)
    ∷ (bytes "__ow_native_compression", function compression 5)
    ∷ (bytes "__ow_native_encoding", function encoding 5)
    ∷ []

abbrev pub ops_of : {F G : Type 0} → Process F → List (Row F G)
ops_of process =
    (bytes "performanceNow", function performance_now 0)
    ∷ (bytes "timeOrigin", plain (number (time_origin process)))
    ∷ (bytes "userAgent", plain (string user_agent))
    ∷ []

abbrev pub is_among : {F G : Type 0} → Text → List (Row F G) → Bool
is_among name [] = false
is_among name (row ∷ rows) = if text_eq name row.0 then true else is_among name rows

-- Every name stands once.
abbrev pub is_distinct : {F G : Type 0} → List (Row F G) → Bool
is_distinct [] = true
is_distinct (row ∷ rows) = if is_among row.0 rows then false else is_distinct rows

true-false : true ≡ false → ⊥
true-false e = cc

differ : (s t : Text) → text_eq s t ≡ false → s ≢ t
differ s t e same = true-false (sym (text_eq_refl t) ∙ (rw same at e))

among-false :
    {F G : Type 0} (name : Text) (row : Row F G) (rows : List (Row F G))
    → is_among name (row ∷ rows) ≡ false
    → (name ≢ row.0) × (is_among name rows ≡ false)
among-false name row rows e = elim (Bool-cases (text_eq name row.0)) [
  | inl same ↦ absurd (true-false (rw same at e))
  | inr apart ↦ (differ name row.0 apart, rw apart at e)
]

distinct-cons :
    {F G : Type 0} (row : Row F G) (rows : List (Row F G))
    → is_distinct (row ∷ rows) ≡ true
    → (is_among row.0 rows ≡ false) × (is_distinct rows ≡ true)
distinct-cons row rows e = elim (Bool-cases (is_among row.0 rows)) [
  | inl among ↦ absurd (true-false (sym (rw among at e)))
  | inr apart ↦ (apart, rw apart at e)
]

module _ {F G : Type 0} (objects : Objects F G) where
  -- A property that an object does not have can be defined: it is then found under its name, and every other
  -- property is what it was. The empty object has none.
  pub record IsOrdinary : Type 0 where
    pub defines :
        (name : Text) (property : Property F G) (g : G)
        → objects.get name g ≡ none
        → (g' : G) × (objects.define name property g ≡ some g')
          × (objects.get name g' ≡ some property)
          × ((other : Text) → other ≢ name → objects.get other g' ≡ objects.get other g)
    pub empty_get : (name : Text) → objects.get name objects.empty ≡ none

  abbrev pub Has : G → List (Row F G) → Type 0
  Has g rows = All (λ (row : Row F G). objects.get row.0 g ≡ some row.1) rows

  abbrev pub Lacks : G → List (Row F G) → Type 0
  Lacks g rows = All (λ (row : Row F G). objects.get row.0 g ≡ none) rows

  -- The rows in turn, and what is done with the object then.
  abbrev define_rows : List (Row F G) → (G → Outcome G) → G → Outcome G
  define_rows [] next g = next g
  define_rows (row ∷ rows) next g = define_value objects row.0 row.1 g >>= define_rows rows next

  Has-same :
      (rows : List (Row F G)) (g g' : G) (name : Text)
      → is_among name rows ≡ false
      → ((other : Text) → other ≢ name → objects.get other g' ≡ objects.get other g)
      → Has g rows
      → Has g' rows
  Has-same [] g g' name apart same h = tt
  Has-same (row ∷ rows) g g' name apart same h =
      let (first, rest) = among-false name row rows apart in
      (same row.0 (λ e. first (sym e)) ∙ h.0, Has-same rows g g' name rest same h.1)

  Lacks-same :
      (rows : List (Row F G)) (g g' : G) (name : Text)
      → is_among name rows ≡ false
      → ((other : Text) → other ≢ name → objects.get other g' ≡ objects.get other g)
      → Lacks g rows
      → Lacks g' rows
  Lacks-same [] g g' name apart same h = tt
  Lacks-same (row ∷ rows) g g' name apart same h =
      let (first, rest) = among-false name row rows apart in
      (same row.0 (λ e. first (sym e)) ∙ h.0, Lacks-same rows g g' name rest same h.1)

  define_value-then :
      (name : Text) (property : Property F G) (g g' : G) (next : G → Outcome G)
      → objects.define name property g ≡ some g'
      → (define_value objects name property g >>= next) ≡ next g'
  unfolding define_value
  define_value-then name property g g' next e = rw e refl

  -- Rows of distinct names that the object lacks are all found in it afterwards, and nothing else has changed.
  define_rows-Has :
      (rows : List (Row F G)) (next : G → Outcome G) (g : G)
      → IsOrdinary
      → is_distinct rows ≡ true
      → Lacks g rows
      → (g' : G) × (define_rows rows next g ≡ next g')
        × Has g' rows
        × ((other : Text)
            → is_among other rows ≡ false
            → objects.get other g' ≡ objects.get other g)
  define_rows-Has [] next g o d l = (g, refl, tt, λ other apart. refl)
  define_rows-Has (row ∷ rows) next g o d l =
      let (apart, distinct) = distinct-cons row rows d in
      let (g1, e1, found, same1) = o.defines row.0 row.1 g l.0 in
      let (g', e, h, same) =
        define_rows-Has rows next g1 o distinct (Lacks-same rows g g1 row.0 apart same1 l.1) in
      (
        g',
        define_value-then row.0 row.1 g g1 (define_rows rows next) e1 ∙ e,
        (same row.0 apart ∙ found, h),
        λ other away.
            let (first, rest) = among-false other row rows away in
            same other rest ∙ same1 other first,
      )

  module _ (process : Process F) where
    ops-distinct : is_distinct (ops_of {F = F} {G = G} process) ≡ true
    unfolding text_eq
    ops-distinct = refl

    functions-distinct : is_distinct (functions {F = F} {G = G}) ≡ true
    unfolding text_eq
    functions-distinct = refl

    Lacks-empty : (rows : List (Row F G)) → IsOrdinary → Lacks objects.empty rows
    Lacks-empty [] o = tt
    Lacks-empty (row ∷ rows) o = (o.empty_get row.0, Lacks-empty rows o)

    native_namespace-Has :
        (g g' ops : G)
        → define_rows
            (ops_of process)
            (λ ops. define_value objects process.native_namespace (namespace ops) g)
            objects.empty
          ≡ define_value objects process.native_namespace (namespace ops) g
        → objects.define process.native_namespace (namespace ops) g ≡ some g'
        → define_native_namespace objects process g ≡ returns g'
    unfolding define_native_namespace define_builtin define_value
    native_namespace-Has g g' ops e d = e ∙ (rw d refl)

    -- On a global object that has none of the names, `initialize_global_object` does not panic, and the guest finds each
    -- native function under its name, with its length, and the namespace, which holds the clock, its origin and the user
    -- agent. The name of the namespace is taken to be none of the functions', and the engine to define properties
    -- as ECMAScript has it.
    pub initialize_global_object-Has :
        (global : G)
        → IsOrdinary
        → Lacks global functions
        → objects.get process.native_namespace global ≡ none
        → is_among {F = F} {G = G} process.native_namespace functions ≡ false
        → (g : G) × (ops : G) × (initialize_global_object objects process global ≡ returns g)
          × Has g functions
          × (objects.get process.native_namespace g ≡ some (namespace ops))
          × Has ops (ops_of process)
    unfolding initialize_global_object define_builtin
    initialize_global_object-Has global o lacks no_namespace apart =
        let (g1, e1, has_functions, same1) =
          define_rows-Has functions (define_native_namespace objects process) global o
            functions-distinct lacks in
        let (ops, eo, has_ops, _) =
          define_rows-Has (ops_of process)
            (λ ops. define_value objects process.native_namespace (namespace ops) g1) objects.empty
            o ops-distinct (Lacks-empty (ops_of process) o) in
        let absent = same1 process.native_namespace apart ∙ no_namespace in
        let (g, d, found, same) = o.defines process.native_namespace (namespace ops) g1 absent in
        (
          g,
          ops,
          e1 ∙ native_namespace-Has g1 g ops eo d,
          Has-same functions g1 g process.native_namespace apart same has_functions,
          found,
          has_ops,
        )
