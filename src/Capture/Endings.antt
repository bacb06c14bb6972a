-- ===== src/Capture/Endings.antt =====
-- Every call of `capture_stop_and_analyze` in src-tauri/src/services/capture_pipeline.rs that takes
-- a capture ends in one of three ways.
use replyline.Prelude.{
  Bool, List, Option, Result, Result-cases, Text, [], ap, arith, codes, err, false, if◌then◌else◌,
  inl, inr, none, ok, refl, subst, true, ◌++◌, ◌∙◌, ◌∷◌, ◌≡◌, ◌≢◌,
}
use replyline.Context.{commit_transcript, formatted_context, remember_card}
use replyline.Capture.{
  AnalysisCardDto, AnalysisMode, CommandError, Env, World, interview, work_conversation, ◌and_then◌,
}
use replyline.Capture.Analyze.{
  Run, analyze, analyze_transcript, combined, commit, format_context, remember, report_question,
  session_mode, show_analyzing, show_ready,
}
use replyline.Capture.Phases.{
  IsQuiet, IsQuiet-trans, analyze-IsQuiet, session_mode-IsQuiet, statuses,
}
use replyline.Capture.Effects.{
  Ending, Outcome, Transcribed, carded, heard, heard_context, read_over, report,
  show_analyzing-Shows, show_ready-Shows, unheard,
}
use mathlib.Core.List.{append_assoc}

pub and_then-cases {ℓ} :
    {A B : Type 0} (P : World × Result B CommandError → Type ℓ) (o : World × Result A CommandError)
    (f : World → A → World × Result B CommandError)
    → ((e : CommandError) → o.1 ≡ err e → P (o.0, err e))
    → ((a : A) → o.1 ≡ ok a → P (f o.0 a))
    → P (o and_then f)
and_then-cases P (world, ok a) f failed done = done a refl
and_then-cases P (world, err e) f failed done = failed e refl

pub if-cases {ℓ κ} :
    {A : Type κ} (P : A → Type ℓ) (b : Bool) (x y : A) → P x → P y → P (if b then x else y)
if-cases P true x y h k = h
if-cases P false x y h k = k

then_shown :
    (before middle after : World) (phases : List Text) (phase : Text)
    → statuses middle.events ≡ statuses before.events ++ phases
    → statuses after.events ≡ statuses middle.events ++ phase ∷ []
    → statuses after.events ≡ statuses before.events ++ (phases ++ phase ∷ [])
then_shown before middle after phases phase h shows =
    shows
    ∙ ap (λ zs. zs ++ phase ∷ []) h
    ∙ append_assoc (statuses before.events) phases (phase ∷ [])

pub ok-injective {ℓ} : {A E : Type ℓ} {a b : A} → ◌≡◌ {A = Result A E} (ok a) (ok b) → a ≡ b
ok-injective e = cc

pub err≢ok {ℓ} : {A E : Type ℓ} {a : A} {e : E} → ◌≢◌ {A = Result A E} (err e) (ok a)
err≢ok h = cc

session_mode-ok :
    (env : Env) (world : World) (mode : AnalysisMode)
    → (session_mode env world).1 ≡ ok mode
    → mode ≡ (if world.interview_session.active then interview else work_conversation)
unfolding session_mode
session_mode-ok env world mode e = ground arith

analyze-ok :
    (env : Env) (run : Run) (llm_key : Option Text) (transcript context_text : Text)
    (mode : AnalysisMode) (world : World) (card : AnalysisCardDto)
    → (analyze env run llm_key transcript context_text mode world).1 ≡ ok card
    → env.analyze llm_key transcript (combined env context_text) mode none ≡ ok card
unfolding analyze
analyze-ok env run llm_key transcript context_text mode world card e =
    elim (Result-cases (env.analyze llm_key transcript (combined env context_text) mode none)) [
      | inl (reason, f) ↦ absurd (err≢ok (rw (f, analyze) at e))
      | inr (found, f) ↦ f ∙ ap (λ c. ok c) (ok-injective (rw (f, analyze) at e))
    ]

report_question-capture :
    (env : Env) (t : Text) (card : AnalysisCardDto) (world : World)
    → ((report_question env t card world).capture ≡ world.capture)
      × ((report_question env t card world).context ≡ world.context)
      × ((report_question env t card world).interview_session
          ≡ report env t card world.interview_session)
      × ((report_question env t card world).events ≡ world.events)
unfolding report_question
report_question-capture env t card world = ground arith

-- The stages that change the context, as equations of their results.
module _ (env : Env) (t : Text) (world : World) where
  remember-cases {ℓ} :
      (P : World × Result (Unit {0}) CommandError → Type ℓ)
      → ((e : CommandError) → P (world, err e))
      → P (record world { context = heard_context env t world.context }, ok tt)
      → P (remember env t world)
  unfolding remember
  remember-cases P failed done = if-cases P env.remember_lock _ _ done (failed _)

  format_context-cases {ℓ} :
      (P : World × Result Text CommandError → Type ℓ)
      → ((e : CommandError) → P (world, err e))
      → (let (context, text) = formatted_context env.at_format world.context in
          P (record world { context = context }, ok text))
      → P (format_context env world)
  unfolding format_context
  format_context-cases P failed done = if-cases P env.format_lock _ _ done (failed _)

  commit-cases {ℓ} :
      (card : AnalysisCardDto) (P : World × Result (Unit {0}) CommandError → Type ℓ)
      → ((e : CommandError) → P (world, err e))
      → P (
        report_question env t card (record world {
          context =
              remember_card env.at_card card (commit_transcript env.at_commit t world.context);
        }),
        ok tt,
      )
      → P (commit env t card world)
  unfolding commit
  commit-cases card P failed done = if-cases P env.commit_lock _ _ done (failed _)

-- From `world` on, where the transcript `t` is known and the first status is shown.
module _ (env : Env) (run : Run) (before world : World) (llm_key : Option Text) (t : Text)
    (same_context : world.context ≡ before.context)
    (same_interview : world.interview_session ≡ before.interview_session)
    (shown : statuses world.events ≡ statuses before.events ++ codes "transcribing" ∷ [])
    (transcribed : Transcribed env run.handle t) (keyed : env.llm_key ≡ ok llm_key) where
  abbrev pub Ends : Outcome → Type 0
  Ends (after, r) = Ending env run.handle before after r × (after.capture ≡ world.capture)

  abbrev remembered : World
  remembered = record world { context = heard_context env t world.context }

  abbrev read : World
  read = record (show_analyzing run remembered) {
    context = (formatted_context env.at_format (show_analyzing run remembered).context).0;
  }

  module _ (after : World) (q : IsQuiet read after) where
    context_of : after.context ≡ read_over env t before.context
    unfolding show_analyzing
    context_of = q.same_context ∙ ap (λ c. read_over env t c) same_context

    interview_of : after.interview_session ≡ before.interview_session
    unfolding show_analyzing
    interview_of = q.same_interview ∙ same_interview

    status_of :
        statuses after.events
        ≡ statuses before.events ++ codes "transcribing" ∷ codes "analyzing" ∷ []
    status_of =
        q.same_status
        ∙ then_shown before remembered (show_analyzing run remembered) (codes "transcribing" ∷ [])
            (codes "analyzing") shown (show_analyzing-Shows env run remembered).shown

    capture_of : after.capture ≡ world.capture
    unfolding show_analyzing
    capture_of = q.same_capture

    -- After the status `analyzing` an error leaves the transcript in the context.
    heard_Ends : (e : CommandError) → Ends (after, err e)
    heard_Ends e = (heard e t transcribed (inr context_of) interview_of status_of, capture_of)

    carded_Ends :
        (card : AnalysisCardDto) (mode : AnalysisMode)
        → mode ≡ (if before.interview_session.active then interview else work_conversation)
        → env.analyze llm_key t
            (combined env (formatted_context env.at_format (heard_context env t before.context)).1)
            mode
            none
          ≡ ok card
        → Ends (
          show_ready run (
              report_question env t card (record after {
                context =
                    remember_card env.at_card card
                      (commit_transcript env.at_commit t after.context);
              })),
          ok card,
        )
    carded_Ends card mode m a =
        let kept = record after {
          context =
              remember_card env.at_card card (commit_transcript env.at_commit t after.context);
        } in
        let (r_capture, r_context, r_interview, r_events) =
          report_question-capture env t card kept in
        let ready = show_ready-Shows env run (report_question env t card kept) in
        (
          carded card t transcribed
              (
                llm_key,
                keyed,
                subst
                    (λ z.
                      env.analyze llm_key t
                        (combined env
                          (formatted_context env.at_format (heard_context env t before.context)).1)
                        z none
                      ≡ ok card)
                    m a,
              )
              (ready.same_context
                ∙ r_context
                ∙ ap (λ c. remember_card env.at_card card (commit_transcript env.at_commit t c))
                    context_of)
              (ready.same_interview ∙ r_interview ∙ ap (report env t card) interview_of)
              (then_shown before after (show_ready run (report_question env t card kept))
                (codes "transcribing" ∷ codes "analyzing" ∷ []) (codes "ready") status_of
                (ready.shown ∙ ap (λ es. statuses es ++ codes "ready" ∷ []) r_events)),
          ready.same_capture ∙ r_capture ∙ capture_of,
        )

  -- The context as read, which the prompt is made of.
  abbrev read_text : Text
  read_text = (formatted_context env.at_format (show_analyzing run remembered).context).1

  text_of :
      (formatted_context env.at_format (show_analyzing run remembered).context).1
      ≡ (formatted_context env.at_format (heard_context env t before.context)).1
  unfolding show_analyzing
  text_of = ap (λ c. (formatted_context env.at_format (heard_context env t c)).1) same_context

  -- Up to the card nothing changes after the context is read.
  so_far-IsQuiet :
      (mode : AnalysisMode)
      → IsQuiet read (analyze env run llm_key t read_text mode (session_mode env read).0).0
  so_far-IsQuiet mode =
      IsQuiet-trans read (session_mode env read).0 _ (session_mode-IsQuiet env read)
        (analyze-IsQuiet env run llm_key t read_text mode (session_mode env read).0)

  mode_of :
      (mode : AnalysisMode)
      → (session_mode env read).1 ≡ ok mode
      → mode ≡ (if before.interview_session.active then interview else work_conversation)
  unfolding show_analyzing
  mode_of mode m =
      session_mode-ok env read mode m
      ∙ ap (λ s. if s.active then interview else work_conversation) same_interview

  answer_of :
      (mode : AnalysisMode) (card : AnalysisCardDto)
      → (analyze env run llm_key t read_text mode (session_mode env read).0).1 ≡ ok card
      → env.analyze llm_key t
          (combined env (formatted_context env.at_format (heard_context env t before.context)).1)
          mode
          none
        ≡ ok card
  answer_of mode card a =
      subst (λ text. env.analyze llm_key t (combined env text) mode none ≡ ok card) text_of
        (analyze-ok env run llm_key t read_text mode (session_mode env read).0 card a)

  -- The context cannot be read: the transcript stays in it.
  unread : (e : CommandError) → Ends (show_analyzing run remembered, err e)
  unfolding show_analyzing
  unread e = (
    heard e t transcribed (inl (ap (λ c. heard_context env t c) same_context)) same_interview (
        then_shown before remembered (show_analyzing run remembered) (codes "transcribing" ∷ [])
          (codes "analyzing") shown (show_analyzing-Shows env run remembered).shown),
    refl,
  )

  pub analyze_transcript-Ends : Ends (analyze_transcript env run llm_key t world)
  unfolding analyze_transcript
  analyze_transcript-Ends =
      remember-cases env t world
        (λ o. Ends (
          o and_then λ remembered _.
          format_context env (show_analyzing run remembered) and_then λ formatted context_text.
          session_mode env formatted and_then λ ready mode.
          analyze env run llm_key t context_text mode ready and_then λ analyzed card.
          commit env t card analyzed and_then λ committed _. (show_ready run committed, ok card)))
        (λ e. (unheard e same_context same_interview shown, refl))
        (format_context-cases env t (show_analyzing run remembered)
          (λ o. Ends (
            o and_then λ formatted context_text. session_mode env formatted and_then λ ready mode.
            analyze env run llm_key t context_text mode ready and_then λ analyzed card.
            commit env t card analyzed and_then λ committed _. (show_ready run committed, ok card)))
          (λ e. unread e)
          (and_then-cases Ends (session_mode env read) _
            (λ e _. heard_Ends _ (session_mode-IsQuiet env read) e)
            (λ mode m.
              let ready = session_mode-IsQuiet env read in
              and_then-cases Ends
                (analyze env run llm_key t read_text mode (session_mode env read).0) _
                (λ e _. heard_Ends _ (so_far-IsQuiet mode) e)
                (λ card a.
                  commit-cases env t
                    (analyze env run llm_key t read_text mode (session_mode env read).0).0 card
                    (λ o. Ends (o and_then λ committed _. (show_ready run committed, ok card)))
                    (λ e. heard_Ends _ (so_far-IsQuiet mode) e)
                    (carded_Ends _ (so_far-IsQuiet mode) card mode (mode_of mode m)
                      (answer_of mode card a))))))
