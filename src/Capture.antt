-- ===== src/Capture.antt =====
-- The capture of speech and its analysis, from the hotkey to the card: the shared state of
-- src-tauri/src/state.rs, and what src-tauri/src/services/capture_pipeline.rs and
-- src-tauri/src/commands/capture.rs do with it. `Env` is what the rest of the system answers during
-- one call; the calls that tell it something are a list of `Event`. A lock that another thread has
-- poisoned answers false. The texts of log lines, other than
-- their names, the stage timings and the log line of a card's second attempt are left out.
pub mod Words
pub mod Analyze
pub mod Retry
pub mod Effects
pub mod Endings
pub mod Release
pub mod Again
pub mod Phases
pub mod Tests
use replyline.Prelude.{
  Bool, List, Option, Result, Text, [], codes, err, false, if◌then◌else◌, none, ok, some, true, ℕ,
  ◌++◌, ◌∷◌,
}
use replyline.InterviewCard.{InterviewCardDto}
use replyline.Context.{ConversationContext}

-- `AppError` of a command.
pub data CommandError : Type 0 where
  settings_error credential_error capture_error pipeline_error internal_error : Text → CommandError

pub data DebugTraceMode : Type 0 where
  off redacted full_local : DebugTraceMode

abbrev pub debug_trace_redacted_enabled : DebugTraceMode → Bool
debug_trace_redacted_enabled off = false
debug_trace_redacted_enabled redacted = true
debug_trace_redacted_enabled full_local = true

pub data AnalysisMode : Type 0 where
  work_conversation interview : AnalysisMode

pub data AnswerRewriteStyle : Type 0 where
  shorter more_detailed more_direct softer : AnswerRewriteStyle

pub record AnalysisCardDto : Type 0 where
  pub gist : Text
  pub say_now : Text
  pub star_evidence : Option Text
  pub risk_or_clarifier : Option Text
  pub next_move : Text
  pub chars_band : Text
  pub interview_card_schema_v1 : Option InterviewCardDto
  pub answer_short : Option Text
  pub answer_full : Option Text
  pub follow_up_line : Option Text
  pub repair_used : Bool
  pub fallback_used : Bool

pub record InterviewQuestionReportDto : Type 0 where
  pub timestamp : Text
  pub raw_transcript : Text
  pub clean_question : Text
  pub question_type : Text
  pub answer_main : Text
  pub hints : List Text
  pub signals : List Text

pub record InterviewSessionState : Type 0 where
  pub active : Bool
  pub session_id : Text
  pub started_at : Text
  pub language : Text
  pub questions : List InterviewQuestionReportDto

-- The handle of a running capture is a number.
pub record CaptureController : Type 0 where
  pub active : Option ℕ
  pub active_run_id : Option Text

pub data Event : Type 0 where
  emit_status : (run_id : Option Text) (phase : Text) (detail : Option Text) → Event
  update_tray_title : (phase : Text) (detail : Option Text) → Event
  app_log : (event : Text) → Event
  log_diag : (stage outcome code : Text) → Event
  log_audit log_error : (event : Text) (run_id : Option Text) → Event
  ensure_run_started : (run_id : Text) → Event
  append_timeline_event : (run_id event phase : Text) (failure_kind : Option Text) → Event
  write_timings : (run_id : Text) → Event
  ask_transcript : (run_id : Option Text) (key : Text) (pcm : List ℕ) → Event
  ask_card :
      (run_id : Option Text) (key : Option Text) (transcript context : Text) (mode : AnalysisMode)
      (style : Option AnswerRewriteStyle)
      → Event

-- `ReplylineState`, and what has been told so far.
pub record World : Type 0 where
  pub capture : CaptureController
  pub context : ConversationContext AnalysisCardDto
  pub interview_session : InterviewSessionState
  pub events : List Event

-- The settings that the pipeline reads itself.
pub record Settings : Type 0 where
  pub debug_trace_mode : DebugTraceMode
  pub capture_max_seconds : ℕ

-- What a call is answered. Of the clock, `at_remember` and those after it are the readings inside
-- the methods of the context, in their order.
pub record Env : Type 0 where
  pub settings : Result Settings Text
  pub capture_lock : Bool
  pub start_run : Result ℕ Text
  pub next_run_id : Text
  pub stop_run : ℕ → Option (Result (List ℕ) Text)
  pub deepgram_key : Result (Option Text) Text
  pub llm_key : Result (Option Text) Text
  pub transcribe : Text → List ℕ → Result Text Text
  pub active_pack : Result (Option Text) Text
  pub analyze :
      Option Text
      → Text
      → Text
      → AnalysisMode
      → Option AnswerRewriteStyle
      → Result AnalysisCardDto Text
  pub remember_lock : Bool
  pub format_lock : Bool
  pub commit_lock : Bool
  pub interview_lock : Bool
  pub report_lock : Bool
  pub at_remember : ℕ
  pub at_transcript : ℕ
  pub at_format : ℕ
  pub at_card : ℕ
  pub at_commit : ℕ
  pub report_timestamp : Text

abbrev pub tell : List Event → World → World
tell events world = record world { events = world.events ++ events }

-- `if let Some(ref rid) = run_id`.
abbrev pub with_run : Option Text → (Text → List Event) → List Event
with_run none f = []
with_run (some run_id) f = f run_id

-- The rest of a function after `?` or a `match` that returns on an error.
infixl 5 ◌and_then◌
abbrev pub ◌and_then◌ :
    {A B : Type 0}
    → World × Result A CommandError
    → (World → A → World × Result B CommandError)
    → World × Result B CommandError
(world, ok a) and_then f = f world a
(world, err e) and_then f = (world, err e)

-- `capture_start` of commands/capture.rs.
unfoldable pub start_run : Settings → Env → World → World × Result Text CommandError
start_run settings env world = elim env.start_run [
  | err e ↦ (world, err (capture_error e))
  | ok run ↦
      let run_id = env.next_run_id in
      (
        tell
            ((if debug_trace_redacted_enabled settings.debug_trace_mode
                then ensure_run_started run_id
                  ∷ append_timeline_event run_id (codes "capture_start_ok") (codes "capturing") none
                  ∷ []
                else [])
              ++ emit_status (some run_id) (codes "capturing") none
                ∷ update_tray_title (codes "capturing") none
                ∷ app_log (codes "capture_start_ok")
                ∷ log_audit (codes "capture_start_ok") (some run_id)
                ∷ [])
            (record world { capture = record { active = some run; active_run_id = some run_id } }),
        ok run_id,
      )
]

unfoldable pub start_unlocked : Settings → Env → World → World × Result Text CommandError
start_unlocked settings env world = elim world.capture.active [
  | none ↦ start_run settings env world
  | some run ↦ elim world.capture.active_run_id [
    | some existing_id ↦ (world, ok existing_id)
    | none ↦ (world, ok [])
  ]
]

unfoldable pub capture_start : Env → World → World × Result Text CommandError
capture_start env world =
    let attempted =
      tell
        (log_audit (codes "capture_start_attempt") none
          ∷ app_log (codes "capture_start_attempt")
          ∷ [])
        world in
    elim env.settings [
      | err e ↦ (attempted, err (settings_error e))
      | ok settings ↦
          if env.capture_lock
          then start_unlocked settings env attempted
          else (attempted, err (internal_error (codes "Capture lock poisoned")))
    ]
