-- ===== src/Providers/Stt.antt =====
-- The requests to Deepgram with their retries: src-tauri/src/providers/deepgram.rs.
-- What each attempt meets is the input: the two readings of the elapsed time, and the reply. What
-- the loop sends and waits is its output.
use replyline.Prelude.{
  Bool, List, Option, Result, Text, [], codes, err, false, if◌then◌else◌, leb, ltb, max, min, none,
  ok, some, suc, true, zero, ℕ, ◌&&◌, ◌*◌, ◌++◌, ◌+◌, ◌-◌, ◌==◌, ◌^◌, ◌∷◌,
}
use replyline.Prelude.Decimal.{display}

pub record SttRequestPolicy : Type 0 where
  pub total_budget_ms : ℕ
  pub per_attempt_timeout_ms : ℕ
  pub max_retries : ℕ
  pub retry_base_ms : ℕ
  pub retry_max_backoff_ms : ℕ

-- `SttRequestPolicy::default()`.
abbrev pub default_policy : SttRequestPolicy
default_policy = record {
  total_budget_ms = 9_000;
  per_attempt_timeout_ms = 20_000;
  max_retries = 2;
  retry_base_ms = 500;
  retry_max_backoff_ms = 1_500;
}

abbrev pub u64_max : ℕ
u64_max = 18446744073709551615

unfoldable pub retry_backoff_ms : SttRequestPolicy → ℕ → ℕ → Option ℕ
retry_backoff_ms policy attempt elapsed_ms =
    if attempt == 0
    then some 0
    else if ltb policy.total_budget_ms elapsed_ms
    then none
    else let remaining_ms = policy.total_budget_ms - elapsed_ms in
      let requested_ms =
        min (min (policy.retry_base_ms * min (2 ^ (attempt - 1)) u64_max) u64_max)
          policy.retry_max_backoff_ms in
      if ltb requested_ms remaining_ms then some requested_ms else none

pub data Reply : Type 0 where
  status : ℕ → Reply
  timed_out not_connected failed : (reason : Text) → Reply

pub record Try : Type 0 where
  pub elapsed_before_ms : ℕ
  pub elapsed_ms : ℕ
  pub reply : Reply

-- What the loop does: it pauses, or sends a request with a timeout.
pub data Act : Type 0 where
  sleep : ℕ → Act
  send : (elapsed_ms timeout_ms : ℕ) → Act

abbrev pub budget_exceeded : SttRequestPolicy → ℕ → Text
budget_exceeded policy elapsed_ms =
    codes "STT_BUDGET_EXCEEDED: stt budget exceeded elapsed_ms="
    ++ (display elapsed_ms ++ (codes " budget_ms=" ++ display policy.total_budget_ms))

-- What follows a reply: the result, or another attempt, `again`.
unfoldable pub on_reply :
    Reply → (retries_left : Bool) → List Act × Result ℕ Text → List Act × Result ℕ Text
on_reply (status code) retries_left again =
    if leb 500 code && ltb code 600 && retries_left then again else ([], ok code)
on_reply (timed_out reason) retries_left again =
    if retries_left
    then again
    else ([], err (codes "STT_REQUEST_FAILED: Deepgram request failed: " ++ reason))
on_reply (not_connected reason) retries_left again =
    if retries_left
    then again
    else ([], err (codes "STT_REQUEST_FAILED: Deepgram request failed: " ++ reason))
on_reply (failed reason) retries_left again =
    ([], err (codes "STT_REQUEST_FAILED: Deepgram request failed: " ++ reason))

-- The attempt's request, if the budget is not used up.
unfoldable pub request :
    SttRequestPolicy
    → Try
    → (retries_left : Bool) → List Act × Result ℕ Text
    → List Act × Result ℕ Text
request policy try retries_left again =
    let (acts, result) = on_reply try.reply retries_left again in
    let remaining_ms = policy.total_budget_ms - try.elapsed_ms in
    let timeout_ms = max (min remaining_ms policy.per_attempt_timeout_ms) 1 in
    if leb policy.total_budget_ms try.elapsed_ms
    then ([], err (budget_exceeded policy try.elapsed_ms))
    else (send try.elapsed_ms timeout_ms ∷ acts, result)

-- The pause before a further attempt, or the end of the budget.
unfoldable pub paused :
    SttRequestPolicy → (attempt : ℕ) → Try → List Act × Result ℕ Text → List Act × Result ℕ Text
paused policy attempt try (acts, result) =
    if attempt == 0
    then (acts, result)
    else elim (retry_backoff_ms policy attempt try.elapsed_before_ms) [
      | none ↦ ([], err (budget_exceeded policy try.elapsed_before_ms))
      | some backoff ↦ (sleep backoff ∷ acts, result)
    ]

-- The loop `for attempt in 0..=policy.max_retries`, with `left` attempts after this one.
unfoldable pub attempts_from :
    SttRequestPolicy → (left attempt : ℕ) → (ℕ → Try) → List Act × Result ℕ Text
attempts_from policy zero attempt tries =
    paused policy attempt (tries attempt) (request policy (tries attempt) false ([], err []))
attempts_from policy (suc left) attempt tries =
    let again = attempts_from policy left (attempt + 1) tries in
    paused policy attempt (tries attempt) (request policy (tries attempt) true again)

-- The response's status, or the error of the loop.
unfoldable pub send_with_retries : SttRequestPolicy → (ℕ → Try) → List Act × Result ℕ Text
send_with_retries policy tries = attempts_from policy policy.max_retries 0 tries
