-- ===== src/Bilingual/Batches.antt =====
-- What src-tauri/src/bilingual/translation.rs promises: each segment in one batch, one retry, and a
-- translation for each batch.
use replyline.Prelude.{
  All, List, Result, Text, [], ap, codes, concat, err, false, if◌then◌else◌, inl, inr, is_empty,
  is_ok, ok, refl, trim, ℕ, ◌++◌, ◌∙◌, ◌∷◌, ◌≡◌, ◌⊎◌,
}
use replyline.Bilingual.Batcher.{
  Answer, Arrival, PendingSegment, answered, closed, received, refused, run_batch_loop, timed_out,
  timeout, translate, translate_from, translation_retry_backoff_ms,
}
use mathlib.Core.List.{append_assoc}

-- The segments received before the channel ends.
abbrev pub segments_of : List Arrival → List PendingSegment
segments_of [] = []
segments_of (received next ∷ arrivals) = next ∷ segments_of arrivals
segments_of (closed ∷ arrivals) = []
segments_of (timeout ∷ arrivals) = segments_of arrivals

flush :
    (pending : List PendingSegment) (rest : List (List PendingSegment))
    → concat (if is_empty pending then rest else pending ∷ rest) ≡ pending ++ concat rest
flush [] rest = refl
flush (p ∷ pending) rest = refl

batches_from :
    (arrivals : List Arrival) (pending : List PendingSegment)
    → concat (run_batch_loop pending (arrivals ++ closed ∷ [])) ≡ pending ++ segments_of arrivals
unfolding run_batch_loop
batches_from [] pending = flush pending []
batches_from (received next ∷ arrivals) pending =
    batches_from arrivals (pending ++ next ∷ [])
    ∙ append_assoc pending (next ∷ []) (segments_of arrivals)
batches_from (closed ∷ arrivals) pending = flush pending []
batches_from (timeout ∷ arrivals) pending =
    flush pending (run_batch_loop [] (arrivals ++ closed ∷ []))
    ∙ ap (◌++◌ pending) (batches_from arrivals [])

nonempty_flush :
    (pending : List PendingSegment) (rest : List (List PendingSegment))
    → All (λ batch. is_empty batch ≡ false) rest
    → All (λ batch. is_empty batch ≡ false) (if is_empty pending then rest else pending ∷ rest)
nonempty_flush [] rest h = h
nonempty_flush (p ∷ pending) rest h = (refl, h)

batches_nonempty :
    (arrivals : List Arrival) (pending : List PendingSegment)
    → All (λ batch. is_empty batch ≡ false) (run_batch_loop pending arrivals)
unfolding run_batch_loop
batches_nonempty [] pending = tt
batches_nonempty (received next ∷ arrivals) pending =
    batches_nonempty arrivals (pending ++ next ∷ [])
batches_nonempty (closed ∷ arrivals) pending = nonempty_flush pending [] tt
batches_nonempty (timeout ∷ arrivals) pending =
    nonempty_flush pending (run_batch_loop [] arrivals) (batches_nonempty arrivals [])

-- Wherever the timeouts fall, the batches of a channel that has ended hold the segments received,
-- each once and in their order, and no batch is empty.
pub batches_complete :
    (arrivals : List Arrival)
    → let batches = run_batch_loop [] (arrivals ++ closed ∷ []) in
      (concat batches ≡ segments_of arrivals) × All (λ batch. is_empty batch ≡ false) batches
batches_complete arrivals =
    (batches_from arrivals [], batches_nonempty (arrivals ++ closed ∷ []) [])

-- The answer of a request, trimmed, or how it fails.
abbrev pub result_of : Answer → Result Text Text
result_of (answered raw) = ok (trim raw)
result_of (refused reason) = err reason
result_of timed_out = err (codes "TIMEOUT")

answer-cases :
    (answer : Answer)
    → ((raw : Text) × (answer ≡ answered raw))
      ⊎ (((reason : Text) × (answer ≡ refused reason)) ⊎ (answer ≡ timed_out))
answer-cases (answered raw) = inl (raw, refl)
answer-cases (refused reason) = inr (inl (reason, refl))
answer-cases timed_out = inr (inr refl)

last_attempt : (requests : ℕ → Answer) → translate_from 1 1 requests ≡ (result_of (requests 1), [])
unfolding translate_from
last_attempt requests = elim (answer-cases (requests 1)) [
  | inl (raw, e) ↦ rw (e, translate_from)
  | inr (inl (reason, e)) ↦ rw (e, translate_from)
  | inr (inr e) ↦ rw (e, translate_from)
]

-- With a route to a model a translation is the first answer; when the first request fails, it is
-- the result of the second, made after a pause of 150 ms, and no third one is made.
pub translate_retries_once :
    (base_url model : Text) (requests : ℕ → Answer)
    → is_empty (trim base_url) ≡ false
    → is_empty (trim model) ≡ false
    → translate base_url model requests ≡ (
        if is_ok (result_of (requests 0))
        then (result_of (requests 0), [])
        else (result_of (requests 1), translation_retry_backoff_ms ∷ []))
unfolding translate translate_from
translate_retries_once base_url model requests route named = elim (answer-cases (requests 0)) [
  | inl (raw, e) ↦ rw (route, named, e)
  | inr (inl (reason, e)) ↦ rw (route, named, e, last_attempt requests)
  | inr (inr e) ↦ rw (route, named, e, last_attempt requests)
]
