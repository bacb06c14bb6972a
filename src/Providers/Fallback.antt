-- ===== src/Providers/Fallback.antt =====
-- Which models src-tauri/src/providers/openai_compatible.rs asks.
use replyline.Prelude.{
  Bool, Bool-cases, List, Result, Text, [], ap, err, false, if◌then◌else◌, inl, inr, leb, ltb, refl,
  subst, suc, take, trim, true, zero, ℕ, ◌&&◌, ◌++◌, ◌+◌, ◌==◌, ◌∙◌, ◌∷◌, ◌≡◌,
}
use replyline.Providers.Llm.{
  LlmAct, LlmReply, LlmRequestPolicy, LlmTry, Selection, ask, attempt_request, broken,
  fall_back_once, llm_attempts, llm_backoff, no_client, on_llm_reply, pause, request_with_fallback,
  responded, sent_act, timeout_or_connect,
}

abbrev pub asked_models : List LlmAct → List Text
asked_models [] = []
asked_models (pause ms ∷ acts) = asked_models acts
asked_models (ask model elapsed_ms timeout_ms ∷ acts) = model ∷ asked_models acts

abbrev pub replicate : ℕ → Text → List Text
replicate zero model = []
replicate (suc n) model = model ∷ replicate n model

-- The model of every attempt but the first.
abbrev pub second_choice : LlmRequestPolicy → Text → List Text → Text
second_choice policy model [] = model
second_choice policy model (fallback ∷ fallbacks) =
    if policy.enable_fast_fallback then fallback else model

-- Whether a request is sent, and whether the reply lets the loop go on while retries are left.
abbrev pub is_sent : LlmReply → Bool
is_sent (no_client reason) = false
is_sent (responded status) = true
is_sent (timeout_or_connect reason) = true
is_sent (broken reason) = true

abbrev pub is_passing : LlmReply → Bool
is_passing (no_client reason) = false
is_passing (responded status) = leb 500 status && ltb status 600
is_passing (timeout_or_connect reason) = true
is_passing (broken reason) = false

-- The requests of an attempt and those after it, of which there are `later` if it is repeated.
abbrev pub made_by : LlmRequestPolicy → LlmTry → Bool → ℕ → ℕ
made_by policy try left later =
    if leb policy.total_budget_ms try.elapsed_ms
    then 0
    else if is_sent try.reply
    then suc (if is_passing try.reply && left then later else 0)
    else 0

-- How many requests are made: one for each attempt within the budget whose client is built, up to
-- the first whose reply is no passing failure.
unfoldable pub requests_made : LlmRequestPolicy → (left attempt : ℕ) → (ℕ → LlmTry) → ℕ
requests_made policy zero attempt tries = made_by policy (tries attempt) false 0
requests_made policy (suc left) attempt tries =
    let later = requests_made policy left (attempt + 1) tries in
    made_by policy (tries attempt) true later

module _ (policy : LlmRequestPolicy) where
  on_llm_reply-asked :
      (reply : LlmReply) (left : Bool) (again : List LlmAct × Result ℕ Text) (planned : List Text)
      (later : ℕ)
      → asked_models again.0 ≡ take later planned
      → asked_models (on_llm_reply reply left again).0
        ≡ take (if is_passing reply && left then later else 0) planned
  unfolding on_llm_reply
  on_llm_reply-asked (no_client reason) left again planned later h = refl
  on_llm_reply-asked (broken reason) left again planned later h = refl
  on_llm_reply-asked (timeout_or_connect reason) true again planned later h = h
  on_llm_reply-asked (timeout_or_connect reason) false again planned later h = refl
  on_llm_reply-asked (responded status) left again planned later h =
      elim (Bool-cases (leb 500 status && ltb status 600 && left)) [
        | inl retries ↦ rw retries h
        | inr ends ↦ rw ends
      ]

  sent-asked :
      (reply : LlmReply) (model : Text) (elapsed_ms timeout_ms : ℕ) (left : Bool)
      (again : List LlmAct × Result ℕ Text) (planned : List Text) (later : ℕ)
      → asked_models again.0 ≡ take later planned
      → asked_models
          (sent_act reply (ask model elapsed_ms timeout_ms) ++ (on_llm_reply reply left again).0)
        ≡ take
            (if is_sent reply then suc (if is_passing reply && left then later else 0) else 0)
            (model ∷ planned)
  unfolding on_llm_reply
  sent-asked (no_client reason) model e t left again planned later h = refl
  sent-asked (responded status) model e t left again planned later h =
      ap (◌∷◌ model) (on_llm_reply-asked (responded status) left again planned later h)
  sent-asked (timeout_or_connect reason) model e t left again planned later h =
      ap (◌∷◌ model) (on_llm_reply-asked (timeout_or_connect reason) left again planned later h)
  sent-asked (broken reason) model e t left again planned later h =
      ap (◌∷◌ model) (on_llm_reply-asked (broken reason) left again planned later h)

  silent_pause :
      (attempt : ℕ) (acts : List LlmAct)
      → asked_models
          ((if attempt == 0 then [] else pause (llm_backoff policy attempt) ∷ []) ++ acts)
        ≡ asked_models acts
  silent_pause attempt acts = elim (Bool-cases (attempt == 0)) [
    | inl first ↦ rw first
    | inr further ↦ rw further
  ]

  no_ask :
      (attempt : ℕ)
      → asked_models (if attempt == 0 then [] else pause (llm_backoff policy attempt) ∷ []) ≡ []
  no_ask attempt = elim (Bool-cases (attempt == 0)) [
    | inl first ↦ rw first
    | inr further ↦ rw further
  ]

  attempt_request-asked :
      (attempt : ℕ) (model : Text) (try : LlmTry) (left : Bool)
      (again : List LlmAct × Result ℕ Text) (planned : List Text) (later : ℕ)
      → asked_models again.0 ≡ take later planned
      → asked_models (attempt_request policy attempt model try left again).0
        ≡ take (made_by policy try left later) (model ∷ planned)
  unfolding attempt_request
  attempt_request-asked attempt model try left again planned later h =
      elim (Bool-cases (leb policy.total_budget_ms try.elapsed_ms)) [
        | inl over ↦ rw (over, attempt_request) (no_ask attempt)
        | inr free ↦
            rw (free, attempt_request)
              (silent_pause attempt _ ∙ sent-asked try.reply model _ _ left again planned later h)
      ]

  -- Once the fallback is applied, or when there is none, the model stays.
  settled :
      (fallbacks : List Text) (left attempt : ℕ) (selection : Selection) (tries : ℕ → LlmTry)
      → fall_back_once policy fallbacks selection ≡ selection
      → asked_models (llm_attempts policy fallbacks left attempt selection tries).0
        ≡ take (requests_made policy left attempt tries) (replicate (suc left) selection.model)
  unfolding llm_attempts requests_made
  settled fallbacks zero attempt selection tries stays =
      attempt_request-asked attempt selection.model (tries attempt) false ([], err []) [] 0 refl
  settled fallbacks (suc left) attempt selection tries stays =
      attempt_request-asked attempt selection.model (tries attempt) true _
        (replicate (suc left) selection.model) (requests_made policy left (attempt + 1) tries)
        (rw stays (settled fallbacks left (attempt + 1) selection tries stays))

  -- The first switch settles the selection.
  switches :
      (model : Text) (fallbacks : List Text)
      → let next =
          fall_back_once policy fallbacks (record { model = model; fallback_applied = false }) in
        (next.model ≡ second_choice policy model fallbacks)
        × (fall_back_once policy fallbacks next ≡ next)
  unfolding fall_back_once
  switches model [] = (refl, refl)
  switches model (fallback ∷ fallbacks) = elim (Bool-cases policy.enable_fast_fallback) [
    | inl enabled ↦ rw enabled (refl, refl)
    | inr disabled ↦ rw disabled (refl, refl)
  ]

asked_from :
    (policy : LlmRequestPolicy) (model : Text) (fallbacks : List Text) (tries : ℕ → LlmTry)
    (left : ℕ)
    → asked_models
        (llm_attempts policy fallbacks left 0
          (record { model = trim model; fallback_applied = false })
          tries).0
      ≡ take
          (requests_made policy left 0 tries)
          (trim model ∷ replicate left (second_choice policy (trim model) fallbacks))
unfolding llm_attempts requests_made
asked_from policy model fallbacks tries zero =
    attempt_request-asked policy 0 (trim model) (tries 0) false ([], err []) [] 0 refl
asked_from policy model fallbacks tries (suc left) =
    let start : Selection = record { model = trim model; fallback_applied = false } in
    let next = fall_back_once policy fallbacks start in
    let (chosen, stays) = switches policy (trim model) fallbacks in
    attempt_request-asked policy 0 (trim model) (tries 0) true
      (llm_attempts policy fallbacks left 1 next tries)
      (replicate (suc left) (second_choice policy (trim model) fallbacks))
      (requests_made policy left 1 tries)
      (subst
        (λ m.
          asked_models (llm_attempts policy fallbacks left 1 next tries).0
          ≡ take (requests_made policy left 1 tries) (replicate (suc left) m))
        chosen (settled policy fallbacks left 1 next tries stays))

-- The models asked are those of the plan that begins with the selected model once and goes on with
-- the first fallback model, if there is one and the policy allows it, or else the selected one for
-- the retries: as many of them as there are attempts within the budget whose client is built, up to
-- the first whose reply is neither a passing failure of the connection nor a status of the server's.
pub models_asked :
    (policy : LlmRequestPolicy) (model : Text) (fallbacks : List Text) (tries : ℕ → LlmTry)
    → asked_models (request_with_fallback policy model fallbacks tries).0
      ≡ take
          (requests_made policy policy.max_retries 0 tries)
          (trim model ∷ replicate policy.max_retries (second_choice policy (trim model) fallbacks))
unfolding request_with_fallback
models_asked policy model fallbacks tries =
    asked_from policy model fallbacks tries policy.max_retries
