-- ===== src/Url/Components/Decimal.antt =====
-- The port that `components` of src/url.rs prints reads back as the port.
use openworkers_runtime_nova.Prelude.{
  refl, Bool, true, false, ◌==◌, if◌then◌else◌, ℕ, zero, suc, ◌+◌, ◌-◌, ◌*◌, ◌/◌, ◌%◌, ◌<◌, ◌≡◌,
  ◌∙◌, ◌⊎◌, inl, inr, Option, none, some, [], ◌∷◌, ◌++◌, Text, arith, All, All-append, ltb,
}
use openworkers_runtime_nova.Url.{UrlCrate, parse_digits, parse_u16, set_parsed, set_port}
use openworkers_runtime_nova.Url.Port.{IsDigit, number, parse_digits_lem}
use openworkers_runtime_nova.Url.Components.{decimal, port_text}

abbrev limit : ℕ → ℕ
limit zero = 1
limit (suc digits) = 10 * limit digits

decimal-one : (digits n : ℕ) → n < 10 → decimal (suc digits) n ≡ (b'0' + n) ∷ []
unfolding decimal
decimal-one digits n lt = ground arith

decimal-more :
    (digits n : ℕ)
    → (ltb n 10 ≡ false)
    → decimal (suc digits) n ≡ decimal digits (n / 10) ++ ((b'0' + n % 10) ∷ [])
unfolding decimal
decimal-more digits n e = rw e refl

number-append :
    (acc : ℕ) (cs : Text) (c : ℕ) → number acc (cs ++ (c ∷ [])) ≡ number acc cs * 10 + (c - b'0')
number-append acc [] c = refl
number-append acc (x ∷ cs) c = number-append (acc * 10 + (x - b'0')) cs c

ten-cases : (n : ℕ) → (n < 10) ⊎ ((ltb n 10 ≡ false) × (10 < n + 1))
ten-cases n = ground arith

decimal-IsDigit : (digits n : ℕ) → All IsDigit (decimal digits n)
decimal-IsDigit zero n = unfold decimal in tt
decimal-IsDigit (suc digits) n = elim (ten-cases n) [
  | inl lt ↦ rw (decimal-one digits n lt) ((omega arith, omega arith), tt)
  | inr (ge, le) ↦ rw (decimal-more digits n ge) (
      All-append IsDigit (decimal digits (n / 10)) ((b'0' + n % 10) ∷ [])
        (decimal-IsDigit digits (n / 10)) ((omega arith, omega arith), tt))
]

number-decimal : (digits n : ℕ) → n < limit digits → number 0 (decimal digits n) ≡ n
number-decimal zero n lt = unfold decimal in omega arith
number-decimal (suc digits) n lt = elim (ten-cases n) [
  | inl small ↦ rw (decimal-one digits n small) (omega arith)
  | inr (ge, le) ↦ rw (decimal-more digits n ge) (
      number-append 0 (decimal digits (n / 10)) (b'0' + n % 10)
      ∙ (rw (number-decimal digits (n / 10) (omega arith)) (omega arith)))
]

append-cons : (cs : Text) (c : ℕ) → (x : ℕ) × (xs : Text) × (cs ++ (c ∷ []) ≡ x ∷ xs)
append-cons [] c = (c, [], refl)
append-cons (x ∷ cs) c = (x, cs ++ (c ∷ []), refl)

decimal-cons : (digits n : ℕ) → (x : ℕ) × (xs : Text) × (decimal (suc digits) n ≡ x ∷ xs)
decimal-cons digits n = elim (ten-cases n) [
  | inl lt ↦ (b'0' + n, [], decimal-one digits n lt)
  | inr (ge, le) ↦
      let (x, xs, e) = append-cons (decimal digits (n / 10)) (b'0' + n % 10) in
      (x, xs, decimal-more digits n ge ∙ e)
]

abbrev pub IsPort : Option ℕ → Type 0
IsPort none = Unit
IsPort (some port) = port < 65_536

parse_digits-IsPort : (cs : Text) (port : Option ℕ) → parse_digits 0 cs ≡ port → IsPort port
parse_digits-IsPort cs none e = tt
parse_digits-IsPort cs (some port) e =
    let (digits, same, small) = (parse_digits_lem 0 cs port (omega arith)).0 e in small

either-IsPort :
    (test : Bool) (a b : Option ℕ) → IsPort a → IsPort b → IsPort (if test then a else b)
either-IsPort true a b l r = l
either-IsPort false a b l r = r

pub parse_u16-IsPort : (value : Text) → IsPort (parse_u16 value)
unfolding parse_u16
parse_u16-IsPort [] = tt
parse_u16-IsPort (c ∷ []) = parse_digits-IsPort (c ∷ []) (parse_digits 0 (c ∷ [])) refl
parse_u16-IsPort (c ∷ d ∷ ds) =
    either-IsPort (c == b'+') (parse_digits 0 (d ∷ ds)) (parse_digits 0 (c ∷ d ∷ ds))
      (parse_digits-IsPort (d ∷ ds) (parse_digits 0 (d ∷ ds)) refl)
      (parse_digits-IsPort (c ∷ d ∷ ds) (parse_digits 0 (c ∷ d ∷ ds)) refl)

-- A digit is no plus sign.
parse_u16-IsDigit : (c : ℕ) (cs : Text) → IsDigit c → parse_u16 (c ∷ cs) ≡ parse_digits 0 (c ∷ cs)
unfolding parse_u16
parse_u16-IsDigit c [] digit = refl
parse_u16-IsDigit c (d ∷ ds) (low, high) = ground arith

module _ {U : Type 0} (crate : UrlCrate U) where
  set_port-number :
      (c : ℕ) (cs : Text) (port : ℕ) (url : U)
      → All IsDigit (c ∷ cs)
      → number 0 (c ∷ cs) ≡ port
      → port < 65_536
      → set_port crate (c ∷ cs) url ≡ (crate.set_port (some port) url).0
  unfolding set_port set_parsed
  set_port-number c cs port url digits same small =
      rw
        (
          parse_u16-IsDigit c cs digits.0,
          (parse_digits_lem 0 (c ∷ cs) port (omega arith)).1 (digits, same, small),
        )
        refl

  set_port-decimal :
      (port : ℕ) (url : U)
      → port < 65_536
      → set_port crate (decimal 5 port) url ≡ (crate.set_port (some port) url).0
  set_port-decimal port url small =
      let (c, cs, e) = decimal-cons 4 port in
      rw e (
        set_port-number c cs port url (rw e at (decimal-IsDigit 5 port))
          (rw e at (number-decimal 5 port (omega arith))) small)

  -- The text that `components` prints for a port, or for none, hands the crate that same port when the setter of the
  -- port is given it. A port fits 16 bits.
  pub set_port-port_text :
      (port : Option ℕ) (url : U)
      → IsPort port
      → set_port crate (port_text port) url ≡ (crate.set_port port url).0
  unfolding port_text
  set_port-port_text none url small = unfold set_port in refl
  set_port-port_text (some port) url small = set_port-decimal port url small
