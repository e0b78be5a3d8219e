-- ===== src/Url/Host.antt =====
-- The host setter of src/url.rs, `set_host`.
use openworkers_runtime_nova.Prelude.{
  ℕ, ◌≡◌, ◌≢◌, refl, false, none, some, [], ◌∷◌, ◌++◌, Text, if◌then◌else◌, arith, All, ==-refl,
}
use openworkers_runtime_nova.Url.{
  UrlCrate, rsplit, ends_with, split_host, set_split, set_host, set_port, set_optional_port,
}

rsplit-none : (c : ℕ) (xs : Text) → All (λ x. x ≢ c) xs → rsplit c xs ≡ none
unfolding rsplit
rsplit-none c [] h = refl
rsplit-none c (x ∷ xs) h =
    let ih = rsplit-none c xs h.1 in rw (ih, rsplit) (let n = h.0 in ground arith)

rsplit-append :
    (c : ℕ) (xs ys : Text) → All (λ x. x ≢ c) ys → rsplit c (xs ++ (c ∷ ys)) ≡ some (xs, ys)
unfolding rsplit
rsplit-append c [] ys h = rw (rsplit-none c ys h, rsplit) (rw (==-refl c) refl)
rsplit-append c (x ∷ xs) ys h = rw (rsplit-append c xs ys h, rsplit) refl

pub ends_with-append :
    (c : ℕ) (xs : Text) (y : ℕ) (ys : Text) → ends_with c (xs ++ (y ∷ ys)) ≡ ends_with c (y ∷ ys)
unfolding ends_with
ends_with-append c [] y ys = refl
ends_with-append c (x ∷ []) y ys = refl
ends_with-append c (x ∷ z ∷ xs) y ys = ends_with-append c (z ∷ xs) y ys

split_host-append :
    (host port : Text)
    → All (λ x. x ≢ b':') port
    → ends_with b']' (b':' ∷ port) ≡ false
    → split_host (host ++ (b':' ∷ port)) ≡ (host, some port)
unfolding split_host
split_host-append host port plain bare =
    rw (rsplit-append b':' host port plain, split_host)
      (rw (ends_with-append b']' host b':' port) (rw bare refl))

module _ {U : Type 0} (crate : UrlCrate U) where
  -- A host and a port with a colon between them set the one and then the other, where the port has no colon
  -- and does not end in a bracket; a host that the crate refuses leaves the port alone.
  pub set_host-append :
      (host port : Text) (url : U)
      → All (λ x. x ≢ b':') port
      → ends_with b']' (b':' ∷ port) ≡ false
      → set_host crate (host ++ (b':' ∷ port)) url ≡ (
          let (url', good) = crate.set_host (some host) url in
          if good then set_port crate port url' else url')
  unfolding set_host set_split set_optional_port
  set_host-append host port url plain bare = rw (split_host-append host port plain bare) refl
