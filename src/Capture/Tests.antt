-- ===== src/Capture/Tests.antt =====
-- The capture pipeline on concrete calls, and each theorem about it at an input that meets its
-- hypotheses.
use replyline.Prelude.{
  Result, Text, [], arith, codes, err, false, none, ok, refl, some, trim, true, word_count, ◌∷◌,
  ◌≡◌,
}
use replyline.Context.{
  clear_if_expired, commit_transcript, drain_chars, drain_overflow, formatted_context,
  remember_card, remember_transcript,
}
use replyline.Capture.{AnalysisCardDto, Env, Settings, World, capture_start, redacted}
use replyline.Capture.Analyze.{
  analyze, analyze_transcript, begin, capture_stop_and_analyze, commit, format_context,
  load_deepgram_key, load_llm_key, remember, report_question, session_mode, show_analyzing,
  show_ready, show_transcribing, stop_run, take_run, transcribe_pcm, transcribe_run,
}
use replyline.Capture.Retry.{retry_last_analysis}
use replyline.Capture.Phases.{statuses}
use replyline.Capture.Release.{capture_stop_and_analyze_ends}
use replyline.Capture.Again.{capture_start_effect, retry_effect}

abbrev some_card : AnalysisCardDto
some_card = record {
  gist = codes "g";
  say_now = codes "s";
  star_evidence = none;
  risk_or_clarifier = none;
  next_move = codes "n";
  chars_band = codes "short";
  interview_card_schema_v1 = none;
  answer_short = none;
  answer_full = none;
  follow_up_line = none;
  repair_used = false;
  fallback_used = false;
}

abbrev traced_settings : Settings
traced_settings = record { debug_trace_mode = redacted; capture_max_seconds = 30 }

abbrev answers : Result AnalysisCardDto Text → Env
answers answer = record {
  settings = ok traced_settings;
  capture_lock = true;
  start_run = ok 7;
  next_run_id = codes "1-0";
  stop_run = λ handle. some (ok (1 ∷ 2 ∷ []));
  deepgram_key = ok (some (codes "key"));
  llm_key = ok none;
  transcribe = λ key pcm. ok (codes "hello there");
  active_pack = ok none;
  analyze = λ key transcript context mode style. answer;
  remember_lock = true;
  format_lock = true;
  commit_lock = true;
  interview_lock = true;
  report_lock = true;
  at_remember = 1;
  at_transcript = 1;
  at_format = 2;
  at_card = 3;
  at_commit = 4;
  report_timestamp = codes "t";
}

abbrev idle_world : World
idle_world = record {
  capture = record { active = none; active_run_id = none };
  context = record { entries = []; last_touched = none; last_transcript = none; last_card = none };
  interview_session = record {
    active = false;
    session_id = [];
    started_at = [];
    language = [];
    questions = [];
  };
  events = [];
}

abbrev capturing : World
capturing = record idle_world {
  capture = record { active = some 7; active_run_id = some (codes "1-0") };
}

-- With a card the statuses follow one another, and both the transcript and the card are kept.
analysis_ready :
    let (after, r) = capture_stop_and_analyze (answers (ok some_card)) capturing in
    (r ≡ ok some_card)
    × (statuses after.events ≡ codes "transcribing" ∷ codes "analyzing" ∷ codes "ready" ∷ [])
    × (after.context.entries ≡ codes "hello there" ∷ [])
unfolding capture_stop_and_analyze begin take_run transcribe_run stop_run show_transcribing
    load_deepgram_key load_llm_key transcribe_pcm analyze_transcript remember show_analyzing
    format_context session_mode analyze commit report_question show_ready remember_transcript
    formatted_context clear_if_expired commit_transcript remember_card drain_overflow drain_chars
    trim word_count
analysis_ready = (refl, refl, refl)

capture_stop_and_analyze_ends_example :
    (capture_stop_and_analyze (answers (err (codes "LLM_EMPTY"))) capturing).0.capture
    ≡ record { active = none; active_run_id = none }
capture_stop_and_analyze_ends_example =
    (capture_stop_and_analyze_ends (answers (err (codes "LLM_EMPTY"))) capturing traced_settings 7
      refl refl refl).0

capture_start_effect_example :
    (capture_start (answers (ok some_card)) idle_world).0.context ≡ idle_world.context
capture_start_effect_example = (capture_start_effect (answers (ok some_card)) idle_world refl).2

abbrev heard_world : World
heard_world = record idle_world {
  context = record {
    entries = [];
    last_touched = some 1;
    last_transcript = some (codes "hello there");
    last_card = none;
  };
}

retry_effect_example :
    (retry_last_analysis (answers (ok some_card)) none none heard_world).1 ≡ ok some_card
retry_effect_example =
    ((retry_effect (answers (ok some_card)) heard_world traced_settings none none none
        (codes "hello there") 1 refl refl refl refl refl refl refl (omega arith) (omega arith)
        (omega arith)).1
      some_card refl).0
