-- ===== src/Bindings/Collect.antt =====
-- `collect` of src/bindings.rs over a stream of chunks.
use mathlib.Core.List.{append-nil, append_assoc}
use openworkers_runtime_nova.Prelude.{
  ℕ, ◌+◌, ◌≡◌, refl, ap, sym, ◌∙◌, Option, none, some, List, [], ◌∷◌, ◌++◌, Result, ok, err, Text,
  arith,
}
use openworkers_runtime_nova.Future.{Future, later}
use openworkers_runtime_nova.Bindings.{
  Stream, closes, silent, chunk, ResponseBody, collect, collect_stream,
}

-- Chunks that come one after the other, and what comes after them.
abbrev pub chunks : List (ℕ × List ℕ) → Stream → Stream
chunks [] end = end
chunks ((d, more) ∷ cs) end = chunk d (ok more) (chunks cs end)

abbrev pub waited : List (ℕ × List ℕ) → ℕ
waited [] = 0
waited ((d, more) ∷ cs) = d + waited cs

abbrev pub joined : List (ℕ × List ℕ) → List ℕ
joined [] = []
joined ((d, more) ∷ cs) = more ++ joined cs

-- What the stream's end makes of the bytes that came before it.
abbrev pub ended : Stream → List ℕ → Option (ℕ × Result (List ℕ) Text)
ended (closes d) out = some (d, ok out)
ended silent out = none
ended (chunk d (ok more) rest) out = none
ended (chunk d (err e) rest) out = some (d, err e)

abbrev pub delayed : {A : Type 0} → ℕ → Option (ℕ × A) → Option (ℕ × A)
delayed d none = none
delayed d (some (e, a)) = some (d + e, a)

-- A stream that ends here, by closing, by an error or in silence.
abbrev pub IsEnd : Stream → Type 0
IsEnd (chunk d (ok more) rest) = ⊥
IsEnd _ = Unit

delayed-zero : {A : Type 0} (o : Option (ℕ × A)) → o ≡ delayed 0 o
delayed-zero none = refl
delayed-zero (some (e, a)) = ap (λ n. some (n, a)) (omega arith)

delayed-add :
    {A : Type 0} (d e : ℕ) (o : Option (ℕ × A)) → delayed d (delayed e o) ≡ delayed (d + e) o
delayed-add d e none = refl
delayed-add d e (some (n, a)) = ap (λ k. some (k, a)) (omega arith)

later-delayed :
    {A : Type 0} (d : ℕ) (f : Future A) (now : ℕ) (o : Option (ℕ × A))
    → f (now + d) ≡ o
    → later d f now ≡ delayed d o
later-delayed d f now none e = rw (e, later)
later-delayed d f now (some (n, a)) e = rw (e, later)

collect_stream-end :
    (end : Stream) (out : List ℕ) (now : ℕ) → IsEnd end → collect_stream end out now ≡ ended end out
unfolding collect_stream
collect_stream-end (closes d) out now h = ap (λ n. some (n, ok out)) (omega arith)
collect_stream-end silent out now h = refl
collect_stream-end (chunk d (ok more) rest) out now h = absurd h
collect_stream-end (chunk d (err e) rest) out now h = ap (λ n. some (n, err e)) (omega arith)

collect_stream-chunks :
    (cs : List (ℕ × List ℕ)) (end : Stream) (out : List ℕ) (now : ℕ)
    → IsEnd end
    → collect_stream (chunks cs end) out now ≡ delayed (waited cs) (ended end (out ++ joined cs))
unfolding collect_stream
collect_stream-chunks [] end out now h =
    collect_stream-end end out now h
    ∙ (delayed-zero (ended end out) ∙ ap (λ o. delayed 0 (ended end o)) (sym (append-nil out)))
collect_stream-chunks ((d, more) ∷ cs) end out now h =
    later-delayed d (collect_stream (chunks cs end) (out ++ more)) now _
      (collect_stream-chunks cs end (out ++ more) (now + d) h)
    ∙ (delayed-add d (waited cs) (ended end ((out ++ more) ++ joined cs))
        ∙ ap (λ o. delayed (d + waited cs) (ended end o)) (append_assoc out more (joined cs)))

-- Of a stream of chunks `collect` yields the chunks joined in the order in which they came, when it closes; the
-- error alone, when a chunk fails, whatever came before and would come after; and nothing, if it falls
-- silent. It takes as long as the chunks and the end take together.
pub collect-chunks :
    (cs : List (ℕ × List ℕ)) (end : Stream) (now : ℕ)
    → IsEnd end
    → collect (ResponseBody.stream_body (chunks cs end)) now
      ≡ delayed (waited cs) (ended end (joined cs))
unfolding collect
collect-chunks cs end now h = collect_stream-chunks cs end [] now h
