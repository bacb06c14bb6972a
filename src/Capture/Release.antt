-- ===== src/Capture/Release.antt =====
-- What remains of a capture after `capture_stop_and_analyze` of
-- src-tauri/src/services/capture_pipeline.rs, and that it can be started and retried again.
use mathlib.Core.List.{append-nil}
use replyline.Prelude.{
  List, Option, Option-cases, Result, Result-cases, Text, [], ap, arith, codes, err, inl, inr, none,
  ok, refl, some, subst, true, ℕ, ◌++◌, ◌∙◌, ◌∷◌, ◌≡◌,
}
use replyline.Capture.{
  AnalysisCardDto, CommandError, Env, Settings, World, app_log, debug_trace_redacted_enabled,
  log_diag, tell,
}
use replyline.Capture.Analyze.{
  Run, begin, capture_stop_and_analyze, load_deepgram_key, load_llm_key, show_transcribing,
  stop_run, take_run, transcribe_pcm, transcribe_run,
}
use replyline.Capture.Phases.{
  IsQuiet, IsQuiet-trans, load_deepgram_key-IsQuiet, load_llm_key-IsQuiet, statuses,
  statuses-append, stop_run-IsQuiet, transcribe_pcm-IsQuiet,
}
use replyline.Capture.Effects.{
  Answered, Ending, Outcome, card_context, carded, heard, heard_context, read_over, report,
  show_transcribing-Shows, unheard,
}
use replyline.Capture.Endings.{analyze_transcript-Ends, and_then-cases, err≢ok, ok-injective}

stop_run-ok :
    (env : Env) (run : Run) (world : World) (pcm : List ℕ)
    → (stop_run env run world).1 ≡ ok pcm
    → env.stop_run run.handle ≡ some (ok pcm)
unfolding stop_run
stop_run-ok env run world pcm e = elim (Option-cases (env.stop_run run.handle)) [
  | inl f ↦ absurd (err≢ok (rw (f, stop_run) at e))
  | inr (result, f) ↦ elim (Result-cases result) [
    | inl (reason, g) ↦ absurd (err≢ok (rw (f, g, stop_run) at e))
    | inr (found, g) ↦
        f ∙ ap (λ r. some r) g ∙ ap (λ x. some (ok x)) (ok-injective (rw (f, g, stop_run) at e))
  ]
]

load_deepgram_key-ok :
    (env : Env) (run : Run) (world : World) (key : Text)
    → (load_deepgram_key env run world).1 ≡ ok key
    → env.deepgram_key ≡ ok (some key)
unfolding load_deepgram_key
load_deepgram_key-ok env run world key e = elim (Result-cases env.deepgram_key) [
  | inl (reason, f) ↦ absurd (err≢ok (rw (f, load_deepgram_key) at e))
  | inr (found, f) ↦ elim (Option-cases found) [
    | inl g ↦ absurd (err≢ok (rw (f, g, load_deepgram_key) at e))
    | inr (k, g) ↦
        f
        ∙ ap (λ r. ok r) g
        ∙ ap (λ x. ok (some x)) (ok-injective (rw (f, g, load_deepgram_key) at e))
  ]
]

load_llm_key-ok :
    (env : Env) (run : Run) (world : World) (key : Option Text)
    → (load_llm_key env run world).1 ≡ ok key
    → env.llm_key ≡ ok key
unfolding load_llm_key
load_llm_key-ok env run world key e = elim (Result-cases env.llm_key) [
  | inl (reason, f) ↦ absurd (err≢ok (rw (f, load_llm_key) at e))
  | inr (found, f) ↦ f ∙ ap (λ x. ok x) (ok-injective (rw (f, load_llm_key) at e))
]

transcribe_pcm-ok :
    (env : Env) (run : Run) (key : Text) (pcm : List ℕ) (world : World) (t : Text)
    → (transcribe_pcm env run key pcm world).1 ≡ ok t
    → env.transcribe key pcm ≡ ok t
unfolding transcribe_pcm
transcribe_pcm-ok env run key pcm world t e = elim (Result-cases (env.transcribe key pcm)) [
  | inl (reason, f) ↦ absurd (err≢ok (rw (f, transcribe_pcm) at e))
  | inr (found, f) ↦ f ∙ ap (λ x. ok x) (ok-injective (rw (f, transcribe_pcm) at e))
]

module _ (env : Env) (run : Run) (world : World) where
  abbrev Done : Outcome → Type 0
  Done (after, r) = Ending env run.handle world after r × (after.capture ≡ world.capture)

  abbrev began : World
  began = show_transcribing run world

  -- Until there is a transcript an error changes nothing.
  unheard_Done : (e : CommandError) (after : World) → IsQuiet began after → Done (after, err e)
  unheard_Done e after q =
      let shows = show_transcribing-Shows env run world in
      (
        unheard e (q.same_context ∙ shows.same_context) (q.same_interview ∙ shows.same_interview)
            (q.same_status ∙ shows.shown),
        q.same_capture ∙ shows.same_capture,
      )

  abbrev stopped : World
  stopped = (stop_run env run began).0

  abbrev found_key : World
  found_key = (load_deepgram_key env run stopped).0

  abbrev prepared : World
  prepared = (load_llm_key env run found_key).0

  stopped-IsQuiet : IsQuiet began stopped
  stopped-IsQuiet = stop_run-IsQuiet env run began

  found_key-IsQuiet : IsQuiet began found_key
  found_key-IsQuiet =
      IsQuiet-trans began stopped found_key stopped-IsQuiet
        (load_deepgram_key-IsQuiet env run stopped)

  prepared-IsQuiet : IsQuiet began prepared
  prepared-IsQuiet =
      IsQuiet-trans began found_key prepared found_key-IsQuiet
        (load_llm_key-IsQuiet env run found_key)

  transcribed-IsQuiet :
      (key : Text) (pcm : List ℕ) → IsQuiet began (transcribe_pcm env run key pcm prepared).0
  transcribed-IsQuiet key pcm =
      IsQuiet-trans began prepared _ prepared-IsQuiet
        (transcribe_pcm-IsQuiet env run key pcm prepared)

  transcribe_run-Done : Done (transcribe_run env run world)
  unfolding transcribe_run
  transcribe_run-Done =
      and_then-cases Done (stop_run env run began) _ (λ e _. unheard_Done e stopped stopped-IsQuiet)
        λ pcm p.
          and_then-cases Done (load_deepgram_key env run stopped) _
            (λ e _. unheard_Done e found_key found_key-IsQuiet)
            λ key k.
              and_then-cases Done (load_llm_key env run found_key) _
                (λ e _. unheard_Done e prepared prepared-IsQuiet)
                λ llm_key l.
                  and_then-cases Done (transcribe_pcm env run key pcm prepared) _
                    (λ e _. unheard_Done e _ (transcribed-IsQuiet key pcm))
                    λ t h.
                      let q = transcribed-IsQuiet key pcm in
                      let shows = show_transcribing-Shows env run world in
                      let (ending, kept) =
                        analyze_transcript-Ends env run world
                          (transcribe_pcm env run key pcm prepared).0 llm_key t
                          (q.same_context ∙ shows.same_context)
                          (q.same_interview ∙ shows.same_interview) (q.same_status ∙ shows.shown)
                          (
                            pcm,
                            (
                              key,
                              stop_run-ok env run began pcm p,
                              load_deepgram_key-ok env run stopped key k,
                              transcribe_pcm-ok env run key pcm prepared t h,
                            ),
                          )
                          (load_llm_key-ok env run found_key llm_key l) in
                      (ending, kept ∙ q.same_capture ∙ shows.same_capture)

-- An ending is the same from every world with the context, the interview and the statuses.
Ending-before :
    (env : Env) (handle : ℕ) (a b after : World) (r : Result AnalysisCardDto CommandError)
    → a.context ≡ b.context
    → a.interview_session ≡ b.interview_session
    → statuses a.events ≡ statuses b.events
    → Ending env handle a after r
    → Ending env handle b after r
Ending-before env handle a b after (err e) c i s (unheard e' x y z) =
    unheard e (x ∙ c) (y ∙ i) (z ∙ ap (λ ps. ps ++ codes "transcribing" ∷ []) s)
Ending-before env handle a b after (err e) c i s (heard e' t h x y z) =
    heard e t h
      (elim x [
        | inl f ↦ inl (f ∙ ap (heard_context env t) c)
        | inr f ↦ inr (f ∙ ap (read_over env t) c)
      ])
      (y ∙ i) (z ∙ ap (λ ps. ps ++ codes "transcribing" ∷ codes "analyzing" ∷ []) s)
Ending-before env handle a b after (ok card) c i s (carded card' t h answered x y z) =
    carded card t h
      (subst (λ k. Answered env t k b.interview_session card) c
        (subst (λ k. Answered env t a.context k card) i answered))
      (x ∙ ap (card_context env t card) c) (y ∙ ap (report env t card) i)
      (z ∙ ap (λ ps. ps ++ codes "transcribing" ∷ codes "analyzing" ∷ codes "ready" ∷ []) s)

-- The world and the run once the capture is taken.
abbrev taken_world : World → World
taken_world world =
    record (tell
      (app_log (codes "analysis_start")
        ∷ log_diag (codes "capture") (codes "start") (codes "RL_CAPTURE_START")
        ∷ [])
      world) { capture = record { active = none; active_run_id = none } }

abbrev taken_run : Settings → ℕ → World → Run
taken_run settings handle world = record {
  handle = handle;
  run_id = world.capture.active_run_id;
  traced = debug_trace_redacted_enabled settings.debug_trace_mode;
}

begin-taken :
    (env : Env) (world : World) (settings : Settings) (handle : ℕ)
    → env.settings ≡ ok settings
    → env.capture_lock ≡ true
    → world.capture.active ≡ some handle
    → begin env world ≡ (taken_world world, ok (taken_run settings handle world))
unfolding begin take_run
begin-taken env world settings handle s l a = ground (arith, s, l, a)

-- A call that finds a running capture, its settings and its lock releases the capture, however it
-- goes on, and ends in one of three ways. With no transcript, the context and the interview are as
-- before. With a transcript and an error, the transcript is remembered, and no more. With a card,
-- which is the model's answer to the transcript, both are committed to the context, an interview's
-- question is reported, and the last status is `ready`.
pub capture_stop_and_analyze_ends :
    (env : Env) (world : World) (settings : Settings) (handle : ℕ)
    → env.settings ≡ ok settings
    → env.capture_lock ≡ true
    → world.capture.active ≡ some handle
    → let (after, r) = capture_stop_and_analyze env world in
      (after.capture ≡ record { active = none; active_run_id = none })
      × Ending env handle world after r
unfolding capture_stop_and_analyze
capture_stop_and_analyze_ends env world settings handle s l a =
    let taken = taken_world world in
    let (ending, kept) = transcribe_run-Done env (taken_run settings handle world) taken in
    rw (begin-taken env world settings handle s l a, capture_stop_and_analyze)
      (
        kept,
        Ending-before env handle taken world _ _ refl refl
            (statuses-append world.events _ ∙ append-nil (statuses world.events)) ending,
      )
