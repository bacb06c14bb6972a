-- ===== src/Capture/Analyze.antt =====
-- `capture_stop_and_analyze` of src-tauri/src/services/capture_pipeline.rs, stage after stage.
use replyline.Prelude.{
  Bool, List, Option, Result, Text, [], codes, err, if◌then◌else◌, none, ok, some, text_eq, ℕ, ◌++◌,
  ◌∷◌,
}
use replyline.Context.{commit_transcript, formatted_context, remember_card, remember_transcript}
use replyline.ContextPack.Prompt.{compact_for_prompt}
use replyline.Capture.{
  AnalysisCardDto, AnalysisMode, CommandError, Env, Event, World, app_log, append_timeline_event,
  ask_card, ask_transcript, capture_error, credential_error, debug_trace_redacted_enabled,
  emit_status, ensure_run_started, internal_error, interview, log_audit, log_diag, log_error,
  pipeline_error, settings_error, tell, update_tray_title, with_run, work_conversation,
  write_timings, ◌and_then◌,
}
use replyline.Capture.Words.{
  append_question, build_combined_context, classify_stt_failure, default_language,
  err_no_active_capture, err_no_deepgram_key, log_llm_failure, status_waiting_card,
  status_waiting_text,
}

-- What the stages share: the taken run, its id, and whether traces are written.
pub record Run : Type 0 where
  pub handle : ℕ
  pub run_id : Option Text
  pub traced : Bool

-- `if trace_redacted_enabled { run_id.as_deref() } else { None }`.
abbrev pub trace_id : Run → Option Text
trace_id run = if run.traced then run.run_id else none

unfoldable pub finalize_failure_trace : Option Text → (event phase failure_kind : Text) → List Event
finalize_failure_trace run_id event phase failure_kind =
    with_run run_id
      (λ id. append_timeline_event id event phase (some failure_kind) ∷ write_timings id ∷ [])

-- The capture is taken out of the controller, or there is none.
unfoldable pub take_run : Bool → World → World × Result Run CommandError
take_run traced world = elim world.capture.active [
  | none ↦ (
    tell (log_diag (codes "capture") (codes "fail") (codes "RL_CAPTURE_NOT_ACTIVE") ∷ [])
        (record world { capture = record { active = none; active_run_id = none } }),
    err (capture_error err_no_active_capture),
  )
  | some handle ↦ (
    record world { capture = record { active = none; active_run_id = none } },
    ok (record { handle = handle; run_id = world.capture.active_run_id; traced = traced }),
  )
]

-- From `settings::load()?` to the taken run, the trace of the attempt and the first status.
unfoldable pub begin : Env → World → World × Result Run CommandError
begin env world =
    let started =
      tell
        (app_log (codes "analysis_start")
          ∷ log_diag (codes "capture") (codes "start") (codes "RL_CAPTURE_START")
          ∷ [])
        world in
    elim env.settings [
      | err e ↦ (started, err (settings_error e))
      | ok settings ↦
          if env.capture_lock
          then take_run (debug_trace_redacted_enabled settings.debug_trace_mode) started
          else (started, err (internal_error (codes "Capture lock poisoned")))
    ]

unfoldable pub show_transcribing : Run → World → World
show_transcribing run world =
    tell
      (with_run (trace_id run) (λ id.
          ensure_run_started id
          ∷ append_timeline_event id (codes "capture_stop_attempt") (codes "capture") none
          ∷ log_audit (codes "capture_stop_attempt") (some id)
          ∷ [])
        ++ emit_status run.run_id (codes "transcribing") (some status_waiting_text)
          ∷ update_tray_title (codes "transcribing") none
          ∷ [])
      world

unfoldable pub stop_run : Env → Run → World → World × Result (List ℕ) CommandError
stop_run env run world = elim (env.stop_run run.handle) [
  | none ↦ (
    tell
        (log_diag (codes "capture") (codes "fail") (codes "RL_CAPTURE_JOIN_FAILED")
          ∷ finalize_failure_trace (trace_id run) (codes "capture_stop_failed") (codes "capture")
              (codes "join_failed"))
        world,
    err (capture_error (codes "Capture join failed")),
  )
  | some result ↦ elim result [
    | err e ↦ (
      tell
          (log_diag (codes "capture") (codes "fail") (codes "RL_CAPTURE_STOP_FAILED")
            ∷ finalize_failure_trace (trace_id run) (codes "capture_stop_failed") (codes "capture")
                (codes "capture_error"))
          world,
      err (capture_error e),
    )
    | ok pcm ↦ (
      tell
          (with_run run.run_id (λ id. log_audit (codes "capture_stop_ok") (some id) ∷ [])
            ++ log_diag (codes "capture") (codes "ok") (codes "RL_CAPTURE_READY") ∷ [])
          world,
      ok pcm,
    )
  ]
]

unfoldable pub load_deepgram_key : Env → Run → World → World × Result Text CommandError
load_deepgram_key env run world = elim env.deepgram_key [
  | err e ↦ (
    tell
        (finalize_failure_trace (trace_id run) (codes "stt_request_failed") (codes "transcribing")
          (codes "credential_store_error"))
        world,
    err (credential_error e),
  )
  | ok found ↦ elim found [
    | some key ↦ (world, ok key)
    | none ↦ (
      tell
          (log_diag (codes "stt") (codes "fail") (codes "RL_STT_KEY_MISSING")
            ∷ finalize_failure_trace (trace_id run) (codes "stt_request_failed")
                (codes "transcribing") (codes "credential_missing"))
          world,
      err (credential_error err_no_deepgram_key),
    )
  ]
]

unfoldable pub load_llm_key : Env → Run → World → World × Result (Option Text) CommandError
load_llm_key env run world = elim env.llm_key [
  | err e ↦ (
    tell
        (finalize_failure_trace (trace_id run) (codes "llm_request_failed") (codes "analyzing")
          (codes "credential_store_error"))
        world,
    err (credential_error e),
  )
  | ok key ↦ (world, ok key)
]

unfoldable pub transcribe_pcm : Env → Run → Text → List ℕ → World → World × Result Text CommandError
transcribe_pcm env run key pcm world =
    let asked =
      tell
        (with_run run.run_id (λ id. log_audit (codes "stt_request_start") (some id) ∷ [])
          ++ ask_transcript (trace_id run) key pcm ∷ [])
        world in
    elim (env.transcribe key pcm) [
      | err reason ↦
          let failure_kind = classify_stt_failure reason in
          (
            tell
                (app_log (codes "analysis_stt_failed")
                    ∷ log_diag (codes "stt") (codes "fail") (
                        if text_eq failure_kind (codes "no_speech")
                        then codes "RL_STT_NO_SPEECH"
                        else codes "RL_STT_FAILED")
                    ∷ with_run run.run_id
                        (λ id. log_error (codes "stt_request_failed") (some id) ∷ [])
                  ++ finalize_failure_trace (trace_id run) (codes "stt_request_failed")
                      (codes "transcribing") failure_kind)
                asked,
            err (pipeline_error reason),
          )
      | ok transcript ↦ (
        tell
            (app_log (codes "analysis_stt_ok")
                ∷ with_run run.run_id (λ id.
                  log_audit (codes "stt_request_ok") (some id)
                  ∷ append_timeline_event id (codes "stt_request_ok") (codes "transcribing") none
                  ∷ [])
              ++ log_diag (codes "stt") (codes "ok") (codes "RL_STT_OK") ∷ [])
            asked,
        ok transcript,
      )
    ]

unfoldable pub remember : Env → Text → World → World × Result (Unit {0}) CommandError
remember env transcript world =
    if env.remember_lock
    then (
      record world { context = remember_transcript env.at_remember transcript world.context },
      ok tt,
    )
    else (world, err (internal_error (codes "Context lock poisoned")))

unfoldable pub show_analyzing : Run → World → World
show_analyzing run world =
    tell
      (emit_status run.run_id (codes "analyzing") (some status_waiting_card)
        ∷ update_tray_title (codes "analyzing") none
        ∷ [])
      world

unfoldable pub format_context : Env → World → World × Result Text CommandError
format_context env world =
    let (context, text) = formatted_context env.at_format world.context in
    if env.format_lock
    then (record world { context = context }, ok text)
    else (world, err (internal_error (codes "Context lock poisoned")))

-- `if is_interview_session_active(state)? { Interview } else { WorkConversation }`.
unfoldable pub session_mode : Env → World → World × Result AnalysisMode CommandError
session_mode env world =
    if env.interview_lock
    then (world, ok (if world.interview_session.active then interview else work_conversation))
    else (world, err (internal_error (codes "Interview session lock poisoned")))

-- `get_active_context_pack().ok().flatten().map(|pack| pack.content).unwrap_or_default()`.
abbrev pub pack_content : Result (Option Text) Text → Text
pack_content (ok (some content)) = content
pack_content (ok none) = []
pack_content (err e) = []

abbrev pub combined : Env → Text → Text
combined env context_text =
    build_combined_context context_text (compact_for_prompt (pack_content env.active_pack))
      default_language

unfoldable pub analyze :
    Env
    → Run
    → Option Text
    → (transcript context_text : Text) → AnalysisMode
    → World
    → World × Result AnalysisCardDto CommandError
analyze env run llm_key transcript context_text mode world =
    let context = combined env context_text in
    let asked =
      tell
        (app_log (codes "context_pack_status")
            ∷ with_run run.run_id (λ id.
              log_audit (codes "llm_request_start") (some id)
              ∷ log_audit (codes "llm_request_attempt") (some id)
              ∷ log_audit (codes "card_normalization_start") (some id)
              ∷ [])
          ++ ask_card (trace_id run) llm_key transcript context mode none ∷ [])
        world in
    elim (env.analyze llm_key transcript context mode none) [
      | err reason ↦ (
        tell
            (with_run run.run_id (λ id.
                log_error (codes "card_validation_failed") (some id)
                ∷ log_error (codes "llm_request_failed") (some id)
                ∷ [])
              ++ finalize_failure_trace (trace_id run) (codes "llm_request_failed")
                  (codes "analyzing") (codes "provider_or_card_error")
              ++ log_llm_failure (codes "llm") reason)
            asked,
        err (pipeline_error reason),
      )
      | ok card ↦ (
        tell
            (app_log (codes "analysis_llm_ok")
                ∷ with_run run.run_id (λ id.
                  log_audit (codes "llm_request_ok") (some id)
                  ∷ log_audit (codes "card_normalization_ok") (some id)
                  ∷ log_audit (codes "card_ready") (some id)
                  ∷ append_timeline_event id (codes "card_ready") (codes "ready") none
                  ∷ [])
              ++ log_diag (codes "llm") (codes "ok") (codes "RL_LLM_OK") ∷ [])
            asked,
        ok card,
      )
    ]

-- The transcript and the card enter the context, and an interview's question its report.
unfoldable pub report_question : Env → Text → AnalysisCardDto → World → World
report_question env transcript card world = elim card.interview_card_schema_v1 [
  | none ↦ world
  | some interview_card ↦
      if env.report_lock
      then record world {
        interview_session =
            append_question env.report_timestamp transcript interview_card world.interview_session;
      }
      else world
]

unfoldable pub commit :
    Env → Text → AnalysisCardDto → World → World × Result (Unit {0}) CommandError
commit env transcript card world =
    if env.commit_lock
    then (
      report_question env transcript card (record world {
        context =
            remember_card env.at_card card
              (commit_transcript env.at_commit transcript world.context);
      }),
      ok tt,
    )
    else (world, err (internal_error (codes "Context lock poisoned")))

unfoldable pub show_ready : Run → World → World
show_ready run world =
    tell
      (emit_status run.run_id (codes "ready") none
        ∷ update_tray_title (codes "ready_card") none
        ∷ app_log (codes "analysis_ok")
        ∷ log_diag (codes "card") (codes "ok") (codes "RL_ANALYSIS_OK")
        ∷ with_run (trace_id run) (λ id. write_timings id ∷ []))
      world

-- From the transcript on.
unfoldable pub analyze_transcript :
    Env → Run → Option Text → Text → World → World × Result AnalysisCardDto CommandError
analyze_transcript env run llm_key transcript world =
    remember env transcript world and_then λ remembered _.
    format_context env (show_analyzing run remembered) and_then λ formatted context_text.
    session_mode env formatted and_then λ ready mode.
    analyze env run llm_key transcript context_text mode ready and_then λ analyzed card.
    commit env transcript card analyzed and_then λ committed _. (show_ready run committed, ok card)

-- From the taken run on.
unfoldable pub transcribe_run : Env → Run → World → World × Result AnalysisCardDto CommandError
transcribe_run env run world =
    stop_run env run (show_transcribing run world) and_then λ stopped pcm.
    load_deepgram_key env run stopped and_then λ keyed key.
    load_llm_key env run keyed and_then λ prepared llm_key.
    transcribe_pcm env run key pcm prepared and_then λ transcribed transcript.
    analyze_transcript env run llm_key transcript transcribed

unfoldable pub capture_stop_and_analyze : Env → World → World × Result AnalysisCardDto CommandError
capture_stop_and_analyze env world =
    begin env world and_then λ taken run. transcribe_run env run taken
