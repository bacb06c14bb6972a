-- ===== src/Providers/Llm.antt =====
-- The requests to the language model with their retries and the faster model they fall back to:
-- the loop of `request_card_raw_text_with_temperature` in
-- src-tauri/src/providers/openai_compatible.rs. What each attempt meets is the input, what the loop
-- sent_act and waits is its output; the traces and the telemetry are left out.
use replyline.Prelude.{
  Bool, List, Result, Text, [], codes, err, false, if◌then◌else◌, leb, ltb, max, min, not, ok, suc,
  trim, true, zero, ℕ, ◌&&◌, ◌%◌, ◌*◌, ◌++◌, ◌+◌, ◌-◌, ◌==◌, ◌^◌, ◌∷◌,
}
use replyline.Prelude.Decimal.{display}

pub record LlmRequestPolicy : Type 0 where
  pub total_budget_ms : ℕ
  pub per_attempt_timeout_ms : ℕ
  pub max_retries : ℕ
  pub retry_base_ms : ℕ
  pub retry_max_backoff_ms : ℕ
  pub enable_fast_fallback : Bool

-- `LlmRequestPolicy::default()`.
abbrev pub default_llm_policy : LlmRequestPolicy
default_llm_policy = record {
  total_budget_ms = 12_000;
  per_attempt_timeout_ms = 20_000;
  max_retries = 2;
  retry_base_ms = 500;
  retry_max_backoff_ms = 1_500;
  enable_fast_fallback = true;
}

-- What an attempt meets: the client cannot be built, a status, a failure that may pass, another.
pub data LlmReply : Type 0 where
  no_client : (reason : Text) → LlmReply
  responded : (status : ℕ) → LlmReply
  timeout_or_connect : (reason : Text) → LlmReply
  broken : (reason : Text) → LlmReply

pub record LlmTry : Type 0 where
  pub elapsed_ms : ℕ
  pub reply : LlmReply

pub data LlmAct : Type 0 where
  pause : ℕ → LlmAct
  ask : (model : Text) (elapsed_ms timeout_ms : ℕ) → LlmAct

-- `selected_model` and `fallback_applied`.
pub record Selection : Type 0 where
  pub model : Text
  pub fallback_applied : Bool

-- After an attempt that may be repeated: the first fallback model, once.
unfoldable pub fall_back_once : LlmRequestPolicy → List Text → Selection → Selection
fall_back_once policy [] selection = selection
fall_back_once policy (fallback ∷ fallbacks) selection =
    if policy.enable_fast_fallback && not selection.fallback_applied
    then record { model = fallback; fallback_applied = true }
    else selection

-- `2u64.pow` wraps at 64 bits, which an attempt beyond the 64th reaches.
unfoldable pub llm_backoff : LlmRequestPolicy → ℕ → ℕ
llm_backoff policy attempt =
    min (min (policy.retry_base_ms * (2 ^ (attempt - 1) % 2 ^ 64)) 18446744073709551615)
      policy.retry_max_backoff_ms

unfoldable pub on_llm_reply :
    LlmReply → (retries_left : Bool) → List LlmAct × Result ℕ Text → List LlmAct × Result ℕ Text
on_llm_reply (no_client reason) retries_left again = ([], err (codes "LLM client: " ++ reason))
on_llm_reply (responded status) retries_left again =
    if leb 500 status && ltb status 600 && retries_left then again else ([], ok status)
on_llm_reply (timeout_or_connect reason) retries_left again =
    if retries_left
    then again
    else ([], err (codes "LLM_REQUEST_FAILED: LLM request failed: " ++ reason))
on_llm_reply (broken reason) retries_left again =
    ([], err (codes "LLM_REQUEST_FAILED: LLM request failed: " ++ reason))

-- A client that cannot be built returns before the model is noted and the request is sent.
abbrev pub sent_act : LlmReply → LlmAct → List LlmAct
sent_act (no_client reason) act = []
sent_act (responded status) act = act ∷ []
sent_act (timeout_or_connect reason) act = act ∷ []
sent_act (broken reason) act = act ∷ []

-- One attempt, with its pause. A client that cannot be built sent_act nothing.
unfoldable pub attempt_request :
    LlmRequestPolicy
    → (attempt : ℕ) → Text
    → LlmTry
    → (retries_left : Bool) → List LlmAct × Result ℕ Text
    → List LlmAct × Result ℕ Text
attempt_request policy attempt model try retries_left again =
    let (acts, result) = on_llm_reply try.reply retries_left again in
    let pauses = if attempt == 0 then [] else pause (llm_backoff policy attempt) ∷ [] in
    let remaining_ms = policy.total_budget_ms - try.elapsed_ms in
    let timeout_ms = max (min remaining_ms policy.per_attempt_timeout_ms) 1 in
    if leb policy.total_budget_ms try.elapsed_ms
    then (
      pauses,
      err (
          codes "LLM_BUDGET_EXCEEDED: llm budget exceeded elapsed_ms="
          ++ (display try.elapsed_ms ++ (codes " budget_ms=" ++ display policy.total_budget_ms))),
    )
    else (pauses ++ (sent_act try.reply (ask model try.elapsed_ms timeout_ms) ++ acts), result)

unfoldable pub llm_attempts :
    LlmRequestPolicy
    → List Text
    → (left attempt : ℕ) → Selection
    → (ℕ → LlmTry)
    → List LlmAct × Result ℕ Text
llm_attempts policy fallbacks zero attempt selection tries =
    attempt_request policy attempt selection.model (tries attempt) false ([], err [])
llm_attempts policy fallbacks (suc left) attempt selection tries =
    let again =
      llm_attempts policy fallbacks left (attempt + 1) (fall_back_once policy fallbacks selection)
        tries in
    attempt_request policy attempt selection.model (tries attempt) true again

unfoldable pub request_with_fallback :
    LlmRequestPolicy → (model : Text) → List Text → (ℕ → LlmTry) → List LlmAct × Result ℕ Text
request_with_fallback policy model fallbacks tries =
    llm_attempts policy fallbacks policy.max_retries 0
      (record { model = trim model; fallback_applied = false }) tries
