-- ===== src/Capture/Again.antt =====
-- Starting a capture twice (src-tauri/src/commands/capture.rs), and analysing a transcript again
-- (`retry_last_analysis` of src-tauri/src/services/capture_pipeline.rs).
use replyline.Prelude.{
  Bool, Option, Result, Text, ap, arith, err, false, if◌then◌else◌, is_ok, none, ok, refl, some,
  true, ℕ, ◌+◌, ◌∙◌, ◌≡◌, ◌≤◌,
}
use replyline.Context.{context_ttl, formatted_context, last_card, last_transcript, remember_card}
use replyline.Context.Expiry.{fresh_reads}
use replyline.Capture.{
  AnalysisCardDto, AnalysisMode, AnswerRewriteStyle, CommandError, Env, Settings, World,
  capture_start, debug_trace_redacted_enabled, interview, pipeline_error, start_run, start_unlocked,
  work_conversation, ◌and_then◌,
}
use replyline.Capture.Words.{mode_from_last_card}
use replyline.Capture.Analyze.{combined, session_mode}
use replyline.Capture.Retry.{
  Retried, keep_card, read_context, reanalyze, retry_last_analysis, retry_mode, retry_run_id,
  retry_with, show_retry,
}

-- While a capture runs, starting another changes nothing but the log, and returns the id of the
-- one that runs.
capture_start_idempotent :
    (env : Env) (world : World) (settings : Settings) (handle : ℕ) (run_id : Text)
    → env.settings ≡ ok settings
    → env.capture_lock ≡ true
    → world.capture.active ≡ some handle
    → world.capture.active_run_id ≡ some run_id
    → let (after, r) = capture_start env world in
      (r ≡ ok run_id)
      × (after.capture ≡ world.capture)
      × (after.context ≡ world.context)
      × (after.interview_session ≡ world.interview_session)
unfolding capture_start start_unlocked
capture_start_idempotent env world settings handle run_id s l a i = ground (arith, s, l, a, i)

-- A start without a running capture leaves the new one running under the id it returns, or fails
-- and leaves the controller.
pub capture_start_effect :
    (env : Env) (world : World)
    → world.capture.active ≡ none
    → let (after, r) = capture_start env world in
      ((run_id : Text)
        → r ≡ ok run_id
        → (run : ℕ) × (env.start_run ≡ ok run)
          × (after.capture ≡ record { active = some run; active_run_id = some run_id }))
      × (is_ok r ≡ false → after.capture ≡ world.capture)
      × (after.context ≡ world.context)
unfolding capture_start start_unlocked start_run
capture_start_effect env world a = ground (arith, a)

-- The mode of a retry: that of the last card, or of the session.
abbrev pub mode_again : Option AnalysisMode → Bool → AnalysisMode
mode_again none active = if active then interview else work_conversation
mode_again (some last_mode) active = last_mode

-- Before the context expires it is read as it is.
read_context_fresh :
    (env : Env) (world : World) (t : Text) (touched : ℕ)
    → env.format_lock ≡ true
    → world.context.last_transcript ≡ some t
    → world.context.last_touched ≡ some touched
    → env.at_transcript ≤ touched + context_ttl
    → env.at_format ≤ touched + context_ttl
    → env.at_card ≤ touched + context_ttl
    → read_context env world ≡ (
      world,
      ok (record {
        transcript = t;
        context_text = (formatted_context env.at_format world.context).1;
        last_mode = mode_from_last_card world.context.last_card;
      }),
    )
unfolding read_context
read_context_fresh env world t touched f last stamp h₁ h₂ h₃ =
    let c = world.context in
    let heard : last_transcript env.at_transcript c ≡ (c, some t) =
      (fresh_reads c env.at_transcript env.at_transcript touched stamp (omega arith) h₁).1
      ∙ ap (λ o. (c, o)) last in
    let (lines, read, _) =
      (fresh_reads c env.at_format env.at_format touched stamp (omega arith) h₂).2 in
    let formatted : formatted_context env.at_format c ≡ (c, (formatted_context env.at_format c).1) =
      ap (λ o. (o.0, (formatted_context env.at_format c).1)) read in
    let card : last_card env.at_card c ≡ (c, c.last_card) =
      (fresh_reads c env.at_card env.at_card touched stamp (omega arith) h₃).0 in
    rw (heard, f, read_context) (rw (heard, formatted, card))

session_mode_again :
    (env : Env) (world : World)
    → env.interview_lock ≡ true
    → session_mode env world
      ≡ (world, ok (if world.interview_session.active then interview else work_conversation))
unfolding session_mode
session_mode_again env world i = rw i

retry_mode_again :
    (env : Env) (last_mode : Option AnalysisMode) (world : World)
    → env.interview_lock ≡ true
    → retry_mode env last_mode world
      ≡ (world, ok (mode_again last_mode world.interview_session.active))
unfolding retry_mode
retry_mode_again env none world i = session_mode_again env world i
retry_mode_again env (some last_mode) world i = refl

-- The request of a retry, and what follows on a card.
abbrev rerun :
    Env
    → Bool
    → Text
    → Option Text
    → Retried
    → AnalysisMode
    → Option AnswerRewriteStyle
    → World
    → World × Result AnalysisCardDto CommandError
rerun env traced run_id key retried mode style world =
    reanalyze env traced run_id key retried mode style (show_retry traced run_id world)
    and_then λ analyzed card. keep_card env run_id card analyzed

rerun-err :
    (env : Env) (traced : Bool) (run_id : Text) (key : Option Text) (retried : Retried)
    (mode : AnalysisMode) (style : Option AnswerRewriteStyle) (world : World) (reason : Text)
    → env.analyze key retried.transcript (combined env retried.context_text) mode style ≡ err reason
    → let (after, r) = rerun env traced run_id key retried mode style world in
      (r ≡ err (pipeline_error reason)) × (after.context ≡ world.context)
unfolding reanalyze show_retry
rerun-err env traced run_id key retried mode style world reason a = rw (a, reanalyze) (refl, refl)

rerun-ok :
    (env : Env) (traced : Bool) (run_id : Text) (key : Option Text) (retried : Retried)
    (mode : AnalysisMode) (style : Option AnswerRewriteStyle) (world : World)
    (card : AnalysisCardDto)
    → env.commit_lock ≡ true
    → env.analyze key retried.transcript (combined env retried.context_text) mode style ≡ ok card
    → let (after, r) = rerun env traced run_id key retried mode style world in
      (r ≡ ok card) × (after.context ≡ remember_card env.at_commit card world.context)
unfolding reanalyze show_retry keep_card
rerun-ok env traced run_id key retried mode style world card c a =
    rw (a, reanalyze) (rw (c, keep_card) (refl, refl))

-- A retry before the context expires asks for a card for the remembered transcript, as the last
-- card was asked for. An error leaves the context, so that it can be retried again; a new card
-- replaces the last one and nothing else.
pub retry_effect :
    (env : Env) (world : World) (settings : Settings) (key run_id_param : Option Text)
    (style : Option AnswerRewriteStyle) (t : Text) (touched : ℕ)
    → env.settings ≡ ok settings
    → env.llm_key ≡ ok key
    → env.format_lock ≡ true
    → env.interview_lock ≡ true
    → env.commit_lock ≡ true
    → world.context.last_transcript ≡ some t
    → world.context.last_touched ≡ some touched
    → env.at_transcript ≤ touched + context_ttl
    → env.at_format ≤ touched + context_ttl
    → env.at_card ≤ touched + context_ttl
    → let (after, r) = retry_last_analysis env run_id_param style world in
      let answer =
        env.analyze key t
          (combined env (formatted_context env.at_format world.context).1)
          (mode_again (mode_from_last_card world.context.last_card) world.interview_session.active)
          style in
      ((reason : Text)
        → answer ≡ err reason
        → (r ≡ err (pipeline_error reason)) × (after.context ≡ world.context))
      × ((card : AnalysisCardDto)
          → answer ≡ ok card
          → (r ≡ ok card) × (after.context ≡ remember_card env.at_commit card world.context))
unfolding retry_last_analysis retry_with show_retry
retry_effect env world settings key run_id_param style t touched s k f i c last stamp h₁ h₂ h₃ =
    let run_id = retry_run_id env run_id_param in
    let traced = debug_trace_redacted_enabled settings.debug_trace_mode in
    let shown = show_retry traced run_id world in
    let last_mode = mode_from_last_card world.context.last_card in
    let read = read_context_fresh env shown t touched f last stamp h₁ h₂ h₃ in
    let mode = retry_mode_again env last_mode shown i in
    rw (s, k, retry_last_analysis)
      (rw (read, retry_with)
        (rw (mode, retry_with)
          (
            λ reason a. rerun-err env traced run_id key _ _ style world reason a,
            λ card a. rerun-ok env traced run_id key _ _ style world card c a,
          )))
