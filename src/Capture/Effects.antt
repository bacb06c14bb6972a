-- ===== src/Capture/Effects.antt =====
-- What a call of `capture_stop_and_analyze` in src-tauri/src/services/capture_pipeline.rs does to
-- the shared state, however it ends.
use replyline.Prelude.{
  List, Option, Result, Text, [], ap, codes, err, if◌then◌else◌, none, ok, refl, some, ℕ, ◌++◌, ◌∙◌,
  ◌∷◌, ◌≡◌, ◌⊎◌,
}
use replyline.Context.{
  ConversationContext, commit_transcript, formatted_context, remember_card, remember_transcript,
}
use replyline.Capture.{
  AnalysisCardDto, CommandError, Env, InterviewSessionState, World, app_log, append_timeline_event,
  emit_status, ensure_run_started, interview, log_audit, log_diag, update_tray_title, with_run,
  work_conversation, write_timings,
}
use replyline.Capture.Words.{append_question, status_waiting_text}
use replyline.Capture.Analyze.{
  Run, combined, show_analyzing, show_ready, show_transcribing, trace_id,
}
use replyline.Capture.Phases.{statuses, statuses-append}

abbrev pub Outcome : Type 0
Outcome = World × Result AnalysisCardDto CommandError

-- The context once the transcript is remembered, read, and with its card committed.
abbrev pub heard_context :
    Env → Text → ConversationContext AnalysisCardDto → ConversationContext AnalysisCardDto
heard_context env t context = remember_transcript env.at_remember t context

abbrev pub read_over :
    Env → Text → ConversationContext AnalysisCardDto → ConversationContext AnalysisCardDto
read_over env t context = (formatted_context env.at_format (heard_context env t context)).0

abbrev pub card_context :
    Env
    → Text
    → AnalysisCardDto
    → ConversationContext AnalysisCardDto
    → ConversationContext AnalysisCardDto
card_context env t card context =
    remember_card env.at_card card (commit_transcript env.at_commit t (read_over env t context))

abbrev pub report : Env → Text → AnalysisCardDto → InterviewSessionState → InterviewSessionState
report env t card session = elim card.interview_card_schema_v1 [
  | none ↦ session
  | some interview_card ↦
      if env.report_lock
      then append_question env.report_timestamp t interview_card session
      else session
]

-- `t` is the transcript of what the capture `handle` recorded.
abbrev pub Transcribed : Env → ℕ → Text → Type 0
Transcribed env handle t =
    (pcm : List ℕ) × ((key : Text) × (env.stop_run handle ≡ some (ok pcm))
      × (env.deepgram_key ≡ ok (some key))
      × (env.transcribe key pcm ≡ ok t))

-- `card` is the answer to `t` with the context it was read with.
abbrev pub Answered :
    Env
    → Text
    → ConversationContext AnalysisCardDto
    → InterviewSessionState
    → AnalysisCardDto
    → Type 0
Answered env t context session card =
    (key : Option Text) × (env.llm_key ≡ ok key)
    × (env.analyze key t
          (combined env (formatted_context env.at_format (heard_context env t context)).1)
          (if session.active then interview else work_conversation) none
        ≡ ok card)

-- How a call ends that began in `before` with the capture `handle`: without a transcript, with a
-- transcript and no card, or with a card.
pub data Ending (env : Env) (handle : ℕ) (before after : World)
    : Result AnalysisCardDto CommandError → Type 0 where
  unheard :
      (e : CommandError)
      → after.context ≡ before.context
      → after.interview_session ≡ before.interview_session
      → statuses after.events ≡ statuses before.events ++ codes "transcribing" ∷ []
      → Ending env handle before after (err e)
  heard :
      (e : CommandError) (t : Text)
      → Transcribed env handle t
      → (after.context ≡ heard_context env t before.context)
        ⊎ (after.context ≡ read_over env t before.context)
      → after.interview_session ≡ before.interview_session
      → statuses after.events
        ≡ statuses before.events ++ codes "transcribing" ∷ codes "analyzing" ∷ []
      → Ending env handle before after (err e)
  carded :
      (card : AnalysisCardDto) (t : Text)
      → Transcribed env handle t
      → Answered env t before.context before.interview_session card
      → after.context ≡ card_context env t card before.context
      → after.interview_session ≡ report env t card before.interview_session
      → statuses after.events
        ≡ statuses before.events ++ codes "transcribing" ∷ codes "analyzing" ∷ codes "ready" ∷ []
      → Ending env handle before after (ok card)

-- Showing a status adds its phase and changes nothing else.
pub record Shows (phase : Text) (before after : World) : Type 0 where
  pub same_capture : after.capture ≡ before.capture
  pub same_context : after.context ≡ before.context
  pub same_interview : after.interview_session ≡ before.interview_session
  pub shown : statuses after.events ≡ statuses before.events ++ phase ∷ []

module _ (env : Env) (run : Run) where
  pub show_transcribing-Shows :
      (world : World) → Shows (codes "transcribing") world (show_transcribing run world)
  unfolding show_transcribing
  show_transcribing-Shows world = record {
    same_capture = refl;
    same_context = refl;
    same_interview = refl;
    shown =
        statuses-append world.events _ ∙ ap (◌++◌ (statuses world.events)) (only (trace_id run));
  }
    where
      only :
          (o : Option Text)
          → statuses (
              with_run o (λ id.
                ensure_run_started id
                ∷ append_timeline_event id (codes "capture_stop_attempt") (codes "capture") none
                ∷ log_audit (codes "capture_stop_attempt") (some id)
                ∷ [])
              ++ emit_status run.run_id (codes "transcribing") (some status_waiting_text)
                ∷ update_tray_title (codes "transcribing") none
                ∷ [])
            ≡ codes "transcribing" ∷ []
      only none = refl
      only (some id) = refl

  pub show_analyzing-Shows :
      (world : World) → Shows (codes "analyzing") world (show_analyzing run world)
  unfolding show_analyzing
  show_analyzing-Shows world = record {
    same_capture = refl;
    same_context = refl;
    same_interview = refl;
    shown = statuses-append world.events _;
  }

  pub show_ready-Shows : (world : World) → Shows (codes "ready") world (show_ready run world)
  unfolding show_ready
  show_ready-Shows world = record {
    same_capture = refl;
    same_context = refl;
    same_interview = refl;
    shown =
        statuses-append world.events _ ∙ ap (◌++◌ (statuses world.events)) (only (trace_id run));
  }
    where
      only :
          (o : Option Text)
          → statuses (
              emit_status run.run_id (codes "ready") none
              ∷ update_tray_title (codes "ready_card") none
              ∷ app_log (codes "analysis_ok")
              ∷ log_diag (codes "card") (codes "ok") (codes "RL_ANALYSIS_OK")
              ∷ with_run o (λ id. write_timings id ∷ []))
            ≡ codes "ready" ∷ []
      only none = refl
      only (some id) = refl
