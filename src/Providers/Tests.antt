-- ===== src/Providers/Tests.antt =====
-- The requests and the test of the signal on concrete inputs, and each theorem about them at an
-- input that meets its hypotheses.
use replyline.Prelude.{
  List, [], arith, codes, false, if◌then◌else◌, none, ok, refl, some, trim, ℕ, ◌*◌, ◌+◌, ◌==◌, ◌∷◌,
  ◌≡◌, ◌≤◌,
}
use replyline.Prelude.Unicode.{basic}
use replyline.Providers.Stt.{
  Try, attempts_from, default_policy, on_reply, paused, request, retry_backoff_ms,
  send_with_retries, status, timed_out,
}
use replyline.Providers.Budget.{send_with_retries-IsWithin, sends}
use replyline.Providers.Llm.{
  LlmTry, attempt_request, default_llm_policy, fall_back_once, llm_attempts, llm_backoff,
  on_llm_reply, request_with_fallback, responded,
}
use replyline.Providers.Fallback.{asked_models, models_asked, requests_made}
use replyline.Providers.Signal.{
  transcribe, transcribe_iff, audio_signal_metrics, has_audible_signal, measure,
}

retry_backoff_never_exceeds_total_budget :
    (retry_backoff_ms default_policy 1 1_000 ≡ some 500)
    × (retry_backoff_ms default_policy 2 1_500 ≡ some 1_000)
    × (retry_backoff_ms default_policy 1 8_500 ≡ none)
unfolding retry_backoff_ms
retry_backoff_never_exceeds_total_budget = (refl, refl, refl)

abbrev slow : ℕ → Try
slow attempt = record {
  elapsed_before_ms = 1_000 * attempt;
  elapsed_ms = 1_000 * attempt + 500;
  reply = if attempt == 2 then status 200 else timed_out (codes "deadline");
}

third_attempt_answers : (send_with_retries default_policy slow).1 ≡ ok 200
unfolding send_with_retries attempts_from paused request on_reply retry_backoff_ms
third_attempt_answers = refl

send_with_retries-IsWithin_example : sends (send_with_retries default_policy slow).0 ≤ 3
send_with_retries-IsWithin_example = (send_with_retries-IsWithin default_policy slow).0

abbrev quiet_but_real : List ℕ
quiet_but_real = 0 ∷ 32 ∷ 32 ∷ 32 ∷ 32 ∷ 65504 ∷ 32 ∷ 32 ∷ 32 ∷ 0 ∷ []

transcribe_iff_example :
    1
    ≤ sends
        (transcribe basic default_policy quiet_but_real
          (λ attempt. record { elapsed_before_ms = 0; elapsed_ms = 0; reply = status 200 })).0
transcribe_iff_example =
    (transcribe_iff basic default_policy quiet_but_real
        (λ attempt. record { elapsed_before_ms = 0; elapsed_ms = 0; reply = status 200 }) refl).0.1
      (omega arith)

rejects_single_sample_click : has_audible_signal (audio_signal_metrics (0 ∷ 32767 ∷ [])) ≡ false
unfolding has_audible_signal audio_signal_metrics measure
rejects_single_sample_click = refl

abbrev down : ℕ → LlmTry
down attempt = record {
  elapsed_ms = 1_000 * attempt;
  reply = if attempt == 1 then responded 200 else responded 503;
}

falls_back_once :
    (asked_models
        (request_with_fallback default_llm_policy (codes "m") (codes "f" ∷ codes "g" ∷ []) down).0
      ≡ codes "m" ∷ codes "f" ∷ [])
    × ((request_with_fallback default_llm_policy (codes "m") (codes "f" ∷ []) down).1 ≡ ok 200)
unfolding request_with_fallback llm_attempts attempt_request on_llm_reply fall_back_once llm_backoff
    trim
falls_back_once = (refl, refl)

models_asked_example :
    asked_models (request_with_fallback default_llm_policy (codes "m") (codes "f" ∷ []) down).0
    ≡ codes "m" ∷ codes "f" ∷ []
unfolding trim requests_made
models_asked_example = models_asked default_llm_policy (codes "m") (codes "f" ∷ []) down
