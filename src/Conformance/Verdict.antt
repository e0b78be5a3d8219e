-- ===== src/Conformance/Verdict.antt =====
-- The verdict of examples/conformance.rs on an answer.
use openworkers_runtime_nova.Prelude.{
  ◌≡◌, ◌≢◌, refl, ◌⊎◌, inl, inr, Bool, true, false, Option, none, some, List, Outcome, returns,
  panics, Text, bytes, arith, ◌==◌,
}
use openworkers_runtime_nova.Conformance.{
  Difference, message, mapped, BodyDiff, first_difference, header_diff, body_diff,
}
use openworkers_runtime_nova.Conformance.Diff.{
  Located, Located-differ, first_difference-Located, DiffOf, body_diff-DiffOf,
}
use openworkers_runtime_nova.Conformance.Driver.{
  Recorded, Answer, Judged, bind_outcome, verdict_of, judge,
}

header_diff-none : (expected got : List Text) → header_diff expected got ≡ none → expected ≡ got
unfolding header_diff
header_diff-none expected got e =
    go (first_difference 0 expected got) (first_difference-Located expected got) e
  where
    go : (d : Option Difference) → Located expected got d → mapped message d ≡ none → expected ≡ got
    go none l e = l
    go (some d) l e = cc

header_diff-some :
    (expected got : List Text) (m : Text) → header_diff expected got ≡ some m → expected ≢ got
unfolding header_diff
header_diff-some expected got m e =
    go (first_difference 0 expected got) (first_difference-Located expected got) e
  where
    go :
        (d : Option Difference)
        → Located expected got d
        → mapped message d ≡ some m
        → expected ≢ got
    go none l e = cc
    go (some d) l e = Located-differ expected got d l

-- The verdict, as examples/conformance.rs means it.
abbrev pub Fair : Recorded → Answer → Text → Type 0
Fair recorded answer verdict =
    ((verdict ≡ bytes "PASS")
      × (answer.status ≡ recorded.status)
      × (recorded.headers ≡ answer.headers)
      × (recorded.body ≡ answer.body))
    ⊎ ((verdict ≡ bytes "PARTIAL")
        × (answer.status ≡ recorded.status)
        × (recorded.headers ≢ answer.headers)
        × (recorded.body ≡ answer.body))
    ⊎ ((verdict ≡ bytes "FAIL")
        × ((answer.status ≢ recorded.status) ⊎ (recorded.body ≢ answer.body)))

abbrev JudgedAs : Recorded → Answer → Outcome Judged → Type 0
JudgedAs recorded answer panics = ⊥
JudgedAs recorded answer (returns judged) = Fair recorded answer judged.verdict

verdict_of-Fair :
    (recorded : Recorded) (answer : Answer) (same : Bool) (headers : Option Text)
    (body : Option BodyDiff)
    → (answer.status == recorded.status) ≡ same
    → header_diff recorded.headers answer.headers ≡ headers
    → DiffOf recorded.body answer.body (returns body)
    → Fair recorded answer (verdict_of same headers body)
unfolding verdict_of
verdict_of-Fair recorded answer true none none s h b =
    inl (refl, ground arith, header_diff-none recorded.headers answer.headers h, b)
verdict_of-Fair recorded answer true (some m) none s h b =
    inr (inl (refl, ground arith, header_diff-some recorded.headers answer.headers m h, b))
verdict_of-Fair recorded answer true none (some d) s h b = inr (inr (refl, inr b.0))
verdict_of-Fair recorded answer true (some m) (some d) s h b = inr (inr (refl, inr b.0))
verdict_of-Fair recorded answer false headers body s h b =
    inr (inr (refl, inl (λ e. absurd (ground arith))))

judged-Fair :
    (recorded : Recorded) (answer : Answer) (o : Outcome (Option BodyDiff))
    → DiffOf recorded.body answer.body o
    → JudgedAs recorded answer (
        bind_outcome o (λ body. returns (record {
          verdict =
              verdict_of
                (answer.status == recorded.status)
                (header_diff recorded.headers answer.headers)
                body;
          headers = header_diff recorded.headers answer.headers;
          body = body;
        })))
judged-Fair recorded answer panics h = h
judged-Fair recorded answer (returns body) h = verdict_of-Fair recorded answer _ _ body refl refl h

returned :
    (recorded : Recorded) (answer : Answer) (o : Outcome Judged)
    → JudgedAs recorded answer o
    → (judged : Judged) × (o ≡ returns judged) × Fair recorded answer judged.verdict
returned recorded answer panics h = absurd h
returned recorded answer (returns judged) h = (judged, refl, h)

-- The judgement on an answer does not panic. It is PASS where the status, the headers and the body are those that were
-- recorded, PARTIAL where only the headers are not, and FAIL where the status or the body is another.
pub judge-Fair :
    (recorded : Recorded) (answer : Answer)
    → (judged : Judged) × (judge recorded answer ≡ returns judged)
      × Fair recorded answer judged.verdict
unfolding judge
judge-Fair recorded answer = returned recorded answer (judge recorded answer) (
    judged-Fair recorded answer (body_diff recorded.body answer.body)
      (body_diff-DiffOf recorded.body answer.body))
