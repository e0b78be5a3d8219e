-- ===== src/Bindings/Tests.antt =====
-- Tests of `collect` of src/bindings.rs, and an example of the theorem on it.
use openworkers_runtime_nova.Prelude.{ℕ, ◌≡◌, refl, none, some, List, [], ◌∷◌, ok}
use openworkers_runtime_nova.Bindings.{closes, silent, chunk, ResponseBody, collect}
use openworkers_runtime_nova.Bindings.Collect.{chunks, collect-chunks}

abbrev two : List (ℕ × List ℕ)
two = (3, 1 ∷ 2 ∷ []) ∷ (4, 5 ∷ []) ∷ []

collect-silent : collect (ResponseBody.stream_body (chunk 2 (ok (1 ∷ [])) silent)) 0 ≡ none
unfolding collect openworkers_runtime_nova.Bindings.collect_stream
collect-silent = refl

collect-chunks_example :
    collect (ResponseBody.stream_body (chunks two (closes 1))) 50 ≡ some (8, ok (1 ∷ 2 ∷ 5 ∷ []))
collect-chunks_example = collect-chunks two (closes 1) 50 tt
