-- ===== src/Capture/Phases.antt =====
-- Which stages of src-tauri/src/services/capture_pipeline.rs change the shared state or the status:
-- the others only ask and tell.
use mathlib.Core.List.{append-nil}
use replyline.Prelude.{
  Bool-cases, List, Option, Option-cases, Result-cases, Text, [], ap, arith, codes, inl, inr, none,
  refl, some, ℕ, ◌++◌, ◌∙◌, ◌∷◌, ◌≡◌,
}
use replyline.Capture.{
  AnalysisMode, Env, Event, World, app_log, ask_card, ask_transcript, emit_status, log_audit, tell,
  with_run,
}
use replyline.Capture.Analyze.{
  Run, analyze, combined, finalize_failure_trace, load_deepgram_key, load_llm_key, session_mode,
  stop_run, trace_id, transcribe_pcm,
}

-- The phases of the statuses told, in their order.
abbrev pub statuses : List Event → List Text
statuses [] = []
statuses (emit_status run_id phase detail ∷ events) = phase ∷ statuses events
statuses (_ ∷ events) = statuses events

pub statuses-append : (xs ys : List Event) → statuses (xs ++ ys) ≡ statuses xs ++ statuses ys
statuses-append [] ys = refl
statuses-append (x ∷ xs) ys = ground (arith, statuses-append xs ys)

-- A call leaves the controller, the context and the interview, and tells no status.
pub record IsQuiet (before after : World) : Type 0 where
  pub same_capture : after.capture ≡ before.capture
  pub same_context : after.context ≡ before.context
  pub same_interview : after.interview_session ≡ before.interview_session
  pub same_status : statuses after.events ≡ statuses before.events

pub quiet : (world : World) → IsQuiet world world
quiet world = record {
  same_capture = refl;
  same_context = refl;
  same_interview = refl;
  same_status = refl;
}

-- Events without a status.
record IsSilent (events : List Event) : Type 0 where
  none_told : statuses events ≡ []

tell-IsQuiet :
    (events : List Event) (world : World) → IsSilent events → IsQuiet world (tell events world)
tell-IsQuiet events world h = record {
  same_capture = refl;
  same_context = refl;
  same_interview = refl;
  same_status =
      statuses-append world.events events
      ∙ ap (◌++◌ (statuses world.events)) h.none_told
      ∙ append-nil (statuses world.events);
}

pub IsQuiet-trans : (a b c : World) → IsQuiet a b → IsQuiet b c → IsQuiet a c
IsQuiet-trans a b c first next = record {
  same_capture = next.same_capture ∙ first.same_capture;
  same_context = next.same_context ∙ first.same_context;
  same_interview = next.same_interview ∙ first.same_interview;
  same_status = next.same_status ∙ first.same_status;
}

IsSilent-append : (xs ys : List Event) → IsSilent xs → IsSilent ys → IsSilent (xs ++ ys)
IsSilent-append xs ys h k = record {
  none_told = statuses-append xs ys ∙ ap (λ zs. zs ++ statuses ys) h.none_told ∙ k.none_told;
}

IsSilent-cons :
    (x : Event) (xs : List Event) → statuses (x ∷ []) ≡ [] → IsSilent xs → IsSilent (x ∷ xs)
IsSilent-cons x xs h k = IsSilent-append (x ∷ []) xs (record { none_told = h }) k

with_run-IsSilent :
    (o : Option Text) (f : Text → List Event)
    → ((id : Text) → statuses (f id) ≡ [])
    → IsSilent (with_run o f)
with_run-IsSilent none f h = record { none_told = refl }
with_run-IsSilent (some id) f h = record { none_told = h id }

finalize_failure_trace-IsSilent :
    (o : Option Text) (event phase failure_kind : Text)
    → IsSilent (finalize_failure_trace o event phase failure_kind)
unfolding finalize_failure_trace
finalize_failure_trace-IsSilent o event phase failure_kind = with_run-IsSilent o _ (λ id. refl)

pub stop_run-IsQuiet :
    (env : Env) (run : Run) (world : World) → IsQuiet world (stop_run env run world).0
unfolding stop_run
stop_run-IsQuiet env run world = elim (Option-cases (env.stop_run run.handle)) [
  | inl e ↦
      rw (e, stop_run)
        (tell-IsQuiet _ world
          (IsSilent-cons _ _ refl (finalize_failure_trace-IsSilent (trace_id run) _ _ _)))
  | inr (result, e) ↦ elim (Result-cases result) [
    | inl (reason, f) ↦
        rw (e, f, stop_run)
          (tell-IsQuiet _ world
            (IsSilent-cons _ _ refl (finalize_failure_trace-IsSilent (trace_id run) _ _ _)))
    | inr (pcm, f) ↦
        rw (e, f, stop_run)
          (tell-IsQuiet _ world (
            IsSilent-append _ _ (with_run-IsSilent run.run_id _ (λ id. refl))
              (record { none_told = refl })))
  ]
]

pub load_deepgram_key-IsQuiet :
    (env : Env) (run : Run) (world : World) → IsQuiet world (load_deepgram_key env run world).0
unfolding load_deepgram_key
load_deepgram_key-IsQuiet env run world = elim (Result-cases env.deepgram_key) [
  | inl (reason, e) ↦
      rw e (tell-IsQuiet _ world (finalize_failure_trace-IsSilent (trace_id run) _ _ _))
  | inr (found, e) ↦ elim (Option-cases found) [
    | inl f ↦
        rw (e, f)
          (tell-IsQuiet _ world
            (IsSilent-cons _ _ refl (finalize_failure_trace-IsSilent (trace_id run) _ _ _)))
    | inr (key, f) ↦ rw (e, f) (quiet world)
  ]
]

pub load_llm_key-IsQuiet :
    (env : Env) (run : Run) (world : World) → IsQuiet world (load_llm_key env run world).0
unfolding load_llm_key
load_llm_key-IsQuiet env run world = elim (Result-cases env.llm_key) [
  | inl (reason, e) ↦
      rw e (tell-IsQuiet _ world (finalize_failure_trace-IsSilent (trace_id run) _ _ _))
  | inr (key, e) ↦ rw e (quiet world)
]

pub transcribe_pcm-IsQuiet :
    (env : Env) (run : Run) (key : Text) (pcm : List ℕ) (world : World)
    → IsQuiet world (transcribe_pcm env run key pcm world).0
unfolding transcribe_pcm
transcribe_pcm-IsQuiet env run key pcm world =
    let asked =
      tell-IsQuiet
        (with_run run.run_id (λ id. log_audit (codes "stt_request_start") (some id) ∷ [])
          ++ ask_transcript (trace_id run) key pcm ∷ [])
        world
        (IsSilent-append _ _ (with_run-IsSilent run.run_id _ (λ id. refl))
          (record { none_told = refl })) in
    elim (Result-cases (env.transcribe key pcm)) [
      | inl (reason, e) ↦
          rw (e, transcribe_pcm)
            (IsQuiet-trans _ _ _ asked (
              tell-IsQuiet _ _ (
                IsSilent-cons _ _ refl (
                  IsSilent-cons _ _ refl (
                    IsSilent-append _ _ (with_run-IsSilent run.run_id _ (λ id. refl))
                      (finalize_failure_trace-IsSilent (trace_id run) _ _ _))))))
      | inr (transcript, e) ↦
          rw (e, transcribe_pcm)
            (IsQuiet-trans _ _ _ asked (
              tell-IsQuiet _ _ (
                IsSilent-cons _ _ refl (
                  IsSilent-append _ _ (with_run-IsSilent run.run_id _ (λ id. refl))
                    (record { none_told = refl })))))
    ]

pub session_mode-IsQuiet : (env : Env) (world : World) → IsQuiet world (session_mode env world).0
unfolding session_mode
session_mode-IsQuiet env world = elim (Bool-cases env.interview_lock) [
  | inl locks ↦ rw locks (quiet world)
  | inr poisoned ↦ rw poisoned (quiet world)
]

pub analyze-IsQuiet :
    (env : Env) (run : Run) (llm_key : Option Text) (transcript context_text : Text)
    (mode : AnalysisMode) (world : World)
    → IsQuiet world (analyze env run llm_key transcript context_text mode world).0
unfolding analyze
analyze-IsQuiet env run llm_key transcript context_text mode world =
    let context = combined env context_text in
    let asked =
      tell-IsQuiet
        (app_log (codes "context_pack_status")
            ∷ with_run run.run_id (λ id.
              log_audit (codes "llm_request_start") (some id)
              ∷ log_audit (codes "llm_request_attempt") (some id)
              ∷ log_audit (codes "card_normalization_start") (some id)
              ∷ [])
          ++ ask_card (trace_id run) llm_key transcript context mode none ∷ [])
        world
        (IsSilent-cons _ _ refl (
          IsSilent-append _ _ (with_run-IsSilent run.run_id _ (λ id. refl))
            (record { none_told = refl }))) in
    elim (Result-cases (env.analyze llm_key transcript context mode none)) [
      | inl (reason, e) ↦
          rw (e, analyze)
            (IsQuiet-trans _ _ _ asked (
              tell-IsQuiet _ _ (
                IsSilent-append _ _
                  (IsSilent-append _ _ (with_run-IsSilent run.run_id _ (λ id. refl))
                    (finalize_failure_trace-IsSilent (trace_id run) _ _ _))
                  (record { none_told = refl }))))
      | inr (card, e) ↦
          rw (e, analyze)
            (IsQuiet-trans _ _ _ asked (
              tell-IsQuiet _ _ (
                IsSilent-cons _ _ refl (
                  IsSilent-append _ _ (with_run-IsSilent run.run_id _ (λ id. refl))
                    (record { none_told = refl })))))
    ]
