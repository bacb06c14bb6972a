-- ===== src/Capture/Retry.antt =====
-- `retry_last_analysis` of src-tauri/src/services/capture_pipeline.rs: the last transcript is
-- analysed again, without the microphone.
use replyline.Prelude.{
  Bool, Option, Result, Text, [], codes, err, if◌then◌else◌, none, ok, some, ◌++◌, ◌∷◌,
}
use replyline.Context.{formatted_context, last_card, last_transcript, remember_card}
use replyline.Capture.{
  AnalysisCardDto, AnalysisMode, AnswerRewriteStyle, CommandError, Env, World, app_log, ask_card,
  credential_error, debug_trace_redacted_enabled, emit_status, ensure_run_started, internal_error,
  log_audit, log_diag, log_error, pipeline_error, settings_error, tell, update_tray_title,
  ◌and_then◌,
}
use replyline.Capture.Words.{
  err_nothing_to_retry, log_llm_failure, mode_from_last_card, retry_detail, status_retrying_card,
}
use replyline.Capture.Analyze.{combined, session_mode}

-- `run_id_param.unwrap_or_else(next_retry_run_id)`.
abbrev pub retry_run_id : Env → Option Text → Text
retry_run_id env none = env.next_run_id
retry_run_id env (some run_id) = run_id

pub record Retried : Type 0 where
  pub transcript : Text
  pub context_text : Text
  pub last_mode : Option AnalysisMode

-- The block under the lock of the context: the transcript, the context, and the mode of the last
-- card, each of which may find the context expired.
unfoldable pub read_context : Env → World → World × Result Retried CommandError
read_context env world =
    let (heard, found) = last_transcript env.at_transcript world.context in
    let (formatted, text) = formatted_context env.at_format heard in
    let (read, card) = last_card env.at_card formatted in
    if env.format_lock
    then elim found [
      | none ↦ (
        tell (log_diag (codes "retry") (codes "fail") (codes "RL_RETRY_EMPTY") ∷ [])
            (record world { context = heard }),
        err (pipeline_error err_nothing_to_retry),
      )
      | some transcript ↦ (
        record world { context = read },
        ok (record {
          transcript = transcript;
          context_text = text;
          last_mode = mode_from_last_card card;
        }),
      )
    ]
    else (world, err (internal_error (codes "Context lock poisoned")))

unfoldable pub retry_mode :
    Env → Option AnalysisMode → World → World × Result AnalysisMode CommandError
retry_mode env (some last_mode) world = (world, ok last_mode)
retry_mode env none world = session_mode env world

unfoldable pub reanalyze :
    Env
    → (traced : Bool) (run_id : Text) → Option Text
    → Retried
    → AnalysisMode
    → Option AnswerRewriteStyle
    → World
    → World × Result AnalysisCardDto CommandError
reanalyze env traced run_id llm_key retried mode style world =
    let context = combined env retried.context_text in
    let asked =
      tell
        (emit_status (some run_id) (codes "analyzing") (some status_retrying_card)
          ∷ update_tray_title (codes "analyzing") (some retry_detail)
          ∷ app_log (codes "context_pack_status")
          ∷ ask_card (if traced then some run_id else none) llm_key retried.transcript context mode
              style
          ∷ [])
        world in
    elim (env.analyze llm_key retried.transcript context mode style) [
      | err reason ↦ (
        tell
            (log_error (codes "card_validation_failed") (some run_id)
              ∷ log_error (codes "llm_request_failed") (some run_id)
              ∷ log_llm_failure (codes "retry") reason)
            asked,
        err (pipeline_error reason),
      )
      | ok card ↦ (
        tell
            (log_audit (codes "llm_request_ok") (some run_id)
              ∷ log_audit (codes "card_normalization_ok") (some run_id)
              ∷ [])
            asked,
        ok card,
      )
    ]

unfoldable pub keep_card :
    Env → (run_id : Text) → AnalysisCardDto → World → World × Result AnalysisCardDto CommandError
keep_card env run_id card world =
    if env.commit_lock
    then (
      tell
          (emit_status (some run_id) (codes "ready") none
            ∷ update_tray_title (codes "ready_card") none
            ∷ log_diag (codes "retry") (codes "ok") (codes "RL_RETRY_OK")
            ∷ log_audit (codes "card_ready") (some run_id)
            ∷ [])
          (record world { context = remember_card env.at_commit card world.context }),
      ok card,
    )
    else (world, err (internal_error (codes "Context lock poisoned")))

unfoldable pub show_retry : Bool → Text → World → World
show_retry traced run_id world =
    tell
      ((if traced then ensure_run_started run_id ∷ [] else [])
        ++ log_audit (codes "retry_clicked") (some run_id)
          ∷ log_audit (codes "llm_request_start") (some run_id)
          ∷ log_audit (codes "llm_request_attempt") (some run_id)
          ∷ log_audit (codes "card_normalization_start") (some run_id)
          ∷ [])
      world

unfoldable pub retry_with :
    Env
    → Bool
    → Option Text
    → Option Text
    → Option AnswerRewriteStyle
    → World
    → World × Result AnalysisCardDto CommandError
retry_with env traced llm_key run_id_param style world =
    let run_id = retry_run_id env run_id_param in
    read_context env (show_retry traced run_id world) and_then λ read retried.
    retry_mode env retried.last_mode read and_then λ ready mode.
    reanalyze env traced run_id llm_key retried mode style ready and_then λ analyzed card.
    keep_card env run_id card analyzed

unfoldable pub retry_last_analysis :
    Env
    → Option Text
    → Option AnswerRewriteStyle
    → World
    → World × Result AnalysisCardDto CommandError
retry_last_analysis env run_id_param style world = elim env.settings [
  | err e ↦ (world, err (settings_error e))
  | ok settings ↦ elim env.llm_key [
    | err e ↦ (world, err (credential_error e))
    | ok llm_key ↦
        retry_with env (debug_trace_redacted_enabled settings.debug_trace_mode) llm_key run_id_param
          style world
  ]
]
