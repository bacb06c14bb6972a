-- ===== src/Providers/Budget.antt =====
-- The bounds of the requests in src-tauri/src/providers/deepgram.rs.
use replyline.Prelude.{
  All, Bool, Bool-cases, List, Option-cases, Result, Text, [], all, arith, err, false, inl, inr,
  leb, max, some, suc, true, zero, ℕ, ◌+◌, ◌<◌, ◌==◌, ◌∷◌, ◌≡◌, ◌≤◌,
}
use replyline.Providers.Stt.{
  Act, Reply, SttRequestPolicy, Try, attempts_from, failed, not_connected, on_reply, paused,
  request, retry_backoff_ms, send, send_with_retries, sleep, status, timed_out,
}

-- The requests among what the loop does.
abbrev pub sends : List Act → ℕ
sends [] = 0
sends (sleep backoff ∷ acts) = sends acts
sends (send elapsed_ms timeout_ms ∷ acts) = 1 + sends acts

-- A request begins within the budget, with a timeout that ends within it; a pause is at most the
-- longest one.
abbrev pub IsWithin : SttRequestPolicy → Act → Type 0
IsWithin policy (sleep backoff) = backoff ≤ policy.retry_max_backoff_ms
IsWithin policy (send elapsed_ms timeout_ms) =
    (elapsed_ms < policy.total_budget_ms)
    × (elapsed_ms + timeout_ms ≤ policy.total_budget_ms)
    × (timeout_ms ≤ max policy.per_attempt_timeout_ms 1)

abbrev Within : SttRequestPolicy → ℕ → List Act → Type 0
Within policy n acts = (sends acts ≤ n) × All (IsWithin policy) acts

module _ (policy : SttRequestPolicy) where
  on_reply-Within :
      (reply : Reply) (left : Bool) (n : ℕ) (again : List Act × Result ℕ Text)
      → Within policy n again.0
      → Within policy n (on_reply reply left again).0
  unfolding on_reply
  on_reply-Within (status code) left n again h = ground arith
  on_reply-Within (timed_out reason) left n again h = ground arith
  on_reply-Within (not_connected reason) left n again h = ground arith
  on_reply-Within (failed reason) left n again h = (omega arith, tt)

  request-Within :
      (try : Try) (left : Bool) (n : ℕ) (again : List Act × Result ℕ Text)
      → Within policy n again.0
      → Within policy (1 + n) (request policy try left again).0
  unfolding request
  request-Within try left n again h =
      let (few, all) = on_reply-Within try.reply left n again h in
      elim (Bool-cases (leb policy.total_budget_ms try.elapsed_ms)) [
        | inl over ↦ rw (over, request) (omega arith, tt)
        | inr free ↦
            rw (free, request) (omega arith, ((ground arith, ground arith, omega arith), all))
      ]

  backoff_bound :
      (attempt elapsed_ms backoff : ℕ)
      → retry_backoff_ms policy attempt elapsed_ms ≡ some backoff
      → backoff ≤ policy.retry_max_backoff_ms
  unfolding retry_backoff_ms
  backoff_bound attempt elapsed_ms backoff e = ground arith

  paused-Within :
      (attempt : ℕ) (try : Try) (n : ℕ) (next : List Act × Result ℕ Text)
      → Within policy n next.0
      → Within policy n (paused policy attempt try next).0
  unfolding paused
  paused-Within attempt try n (acts, result) h = elim (Bool-cases (attempt == 0)) [
    | inl first ↦ rw first h
    | inr further ↦ elim (Option-cases (retry_backoff_ms policy attempt try.elapsed_before_ms)) [
      | inl ends ↦ rw (further, ends) (omega arith, tt)
      | inr (backoff, e) ↦
          rw (further, e) (h.0, (backoff_bound attempt try.elapsed_before_ms backoff e, h.1))
    ]
  ]

  attempts_from-Within :
      (left attempt : ℕ) (tries : ℕ → Try)
      → Within policy (suc left) (attempts_from policy left attempt tries).0
  unfolding attempts_from
  attempts_from-Within zero attempt tries =
      paused-Within attempt (tries attempt) 1 _
        (request-Within (tries attempt) false 0 ([], err []) (omega arith, tt))
  attempts_from-Within (suc left) attempt tries =
      let (few, all) = paused-Within attempt (tries attempt) _ _ (
        request-Within (tries attempt) true (suc left) _
          (attempts_from-Within left (attempt + 1) tries)) in
      (omega arith, all)

-- Whatever the replies, at most one request more than the retries is sent. Each begins before the
-- budget is used up and times out within it, and no pause is longer than the longest backoff.
pub send_with_retries-IsWithin :
    (policy : SttRequestPolicy) (tries : ℕ → Try)
    → let acts = (send_with_retries policy tries).0 in
      (sends acts ≤ policy.max_retries + 1) × All (IsWithin policy) acts
unfolding send_with_retries
send_with_retries-IsWithin policy tries =
    let (few, all) = attempts_from-Within policy policy.max_retries 0 tries in (omega arith, all)
