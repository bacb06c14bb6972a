-- ===== src/InterviewCard/Generate.antt =====
-- The generation of an interview card with one repair:
-- `generate_interview_card_with_conditional_repair` of src-tauri/src/interview_card_v1.rs, its prompts
-- and the card that it falls back to.
use replyline.Prelude.{
  Bool, List, Option, Result, Text, [], codes, err, false, if◌then◌else◌, is_empty, join, length,
  map, map_err, none, not, ok, some, text_eq, trim, true, word_count, ℕ, ◌++◌, ◌==◌, ◌>>=◌, ◌||◌,
  ◌∷◌,
}
use replyline.Prelude.Unicode.{Unicode}
use replyline.Prelude.Decimal.{display}
use replyline.Profiles.{AnswerProfileConfig}
use replyline.Card.Parse.{CardFailure, panicked, refused}
use replyline.InterviewCard.{
  InterviewCardDto, InterviewGenerationOutcome, InterviewGenerationTelemetry,
  InterviewQualityFailureReason, InterviewQualityGate, InterviewWordLimits, confidence_debug,
  direct_structure, from_profile, interview_mode, low_confidence, question_type_debug, reason_debug,
  unknown,
}
use replyline.InterviewCard.Parse.{parse_interview_card_json}
use replyline.InterviewCard.Checks.{normalize_and_validate, normalize_whitespace}
use replyline.InterviewCard.Gate.{card_reasons, error_reason, gate_of}

unfoldable pub build_interview_system_prompt : Text → Text
build_interview_system_prompt language =
    if text_eq language (codes "en")
    then codes
        "You generate InterviewCardSchemaV1 JSON only. No markdown. Keep facts anchored to transcript/context and never fabricate metrics or resume facts. Active conversation context is user-provided background — not a transcript — use it only when relevant. If active context conflicts with the current transcript, prioritize the transcript and state uncertainty."
    else codes
        "Сгенерируй только JSON InterviewCardSchemaV1 без markdown. Факты опирай на transcript/context, не выдумывай метрики и резюме-факты. Активный контекст разговора — это пользовательские вводные, а не расшифровка, используй только когда релевантен. Если активный контекст противоречит текущему фрагменту, приоритет у фрагмента и явно укажи неопределённость."

unfoldable pub build_interview_user_prompt : Text → Text → Text → Text
unfolding trim
build_interview_user_prompt transcript context language =
    let blank = is_empty (trim context) in
    if text_eq language (codes "en")
    then (if blank then codes "(no recent context)" else context)
      ++ codes "\n\nInterview transcript:\n"
      ++ transcript
      ++ codes
          "\n\nOutput contract:\n- English answer only (B2/C1 conversational).\n- No fillers like \"Great question\", \"Certainly\", \"As an AI\".\n- 2-5 sentences for normal questions, up to 8 for system design.\n- Do not fabricate metrics/projects/employers.\n- If context is missing, answer conceptually and honestly.\n- Active conversation context is user-provided background, not a transcript. Use it only when relevant.\n- Do not treat active context as a continuation of the conversation transcript.\n- If active context conflicts with the current transcript, prioritize the transcript and state uncertainty.\n\nReturn InterviewCardSchemaV1 JSON."
    else (if blank then codes "(нет недавнего контекста)" else context)
      ++ codes "\n\nТранскрипт интервью:\n"
      ++ transcript
      ++ codes
          "\n\nКонтракт вывода:\n- Ответ на русском (разговорный C1).\n- Без filler-фраз.\n- 2-5 предложений для обычных вопросов, до 8 для system design.\n- Не выдумывай метрики/проекты/работодателей.\n- Если контекст отсутствует, отвечай концептуально и честно.\n- Активный контекст разговора — пользовательские вводные, а не расшифровка. Используй, только когда релевантен.\n- Не воспринимай активный контекст как продолжение расшифровки.\n- Если активный контекст противоречит текущему фрагменту, приоритет у фрагмента, явно укажи неопределённость.\n\nВерни JSON InterviewCardSchemaV1."

abbrev bool_text : Bool → Text
bool_text true = codes "true"
bool_text false = codes "false"

unfoldable pub first_summary : Option InterviewCardDto → Text
unfolding word_count display
first_summary none = codes "first_output=unparseable"
first_summary (some card) =
    codes "question_type="
    ++ question_type_debug card.question.question_type
    ++ codes "; confidence="
    ++ confidence_debug card.question.confidence
    ++ codes "; main_words="
    ++ display (word_count card.answer.main)
    ++ codes "; clarifier_needed="
    ++ bool_text card.clarifier.needed
    ++ codes "; metrics_count="
    ++ display (length card.signals.metrics)

unfoldable pub build_interview_repair_user_prompt :
    Text → Text → Text → InterviewQualityGate → Option InterviewCardDto → Text
unfolding build_interview_user_prompt first_summary join
build_interview_repair_user_prompt transcript context language gate first_card =
    build_interview_user_prompt transcript context language
    ++ codes
        "\n\nREPAIR PASS (max 1): Fix only failed fields. Keep question classification stable unless clearly wrong.\nFailed checks: "
    ++ join (codes ", ") (map reason_debug gate.failed_reasons)
    ++ codes "\nFirst output summary: "
    ++ first_summary first_card
    ++ codes "\nDo not invent facts or metrics. Keep same transcript/context scope."

unfoldable pub build_safe_fallback_card :
    Text → List InterviewQualityFailureReason → InterviewCardDto
unfolding normalize_whitespace
build_safe_fallback_card transcript failed_reasons = record {
  mode = interview_mode;
  question = record {
    raw_transcript = normalize_whitespace transcript;
    clean_question = codes "Please restate the question goal and constraints briefly.";
    question_type = unknown;
    interviewer_intent =
        codes "Clarify what the interviewer wants and answer directly without fabricated details.";
    confidence = low_confidence;
  };
  answer = record {
    main =
        codes
          "I want to answer this directly and stay factual. I would first confirm the exact scope, then give a concise response based only on what we know from the interview context. I would avoid inventing metrics and keep claims tied to concrete actions, ownership, and expected outcomes. If details are missing, I would state the uncertainty, propose a practical next step, and align on what evidence the interviewer wants.";
    short =
        codes
          "I would answer directly, stay factual, avoid invented metrics, and confirm scope first.";
    strong =
        codes
          "Situation: the question requires a precise and credible answer. Task: provide a direct response without inventing facts. Action: clarify scope, anchor claims to known context, state uncertainty where needed, and commit to a concrete next action with owner and timeline. Result: the answer remains consistent, safe, and useful while preserving trust and interview signal quality.";
    structure = direct_structure;
  };
  signals = record {
    must_mention = codes "scope" ∷ codes "evidence" ∷ [];
    keywords = codes "ownership" ∷ codes "timeline" ∷ [];
    metrics = [];
    resume_anchors = [];
  };
  risks = record {
    weak_points = codes "low confidence fallback" ∷ [];
    avoid = codes "inventing metrics" ∷ codes "generic filler" ∷ [];
    safe_reframe =
        codes "Low confidence: "
        ++ (if is_empty failed_reasons
            then codes "quality gate fallback"
            else codes "quality gate failed")
        ++ codes ". Keep response factual and constrained.";
  };
  follow_ups =
      record {
        question = codes "What evidence would make this answer stronger?";
        bridge_answer =
            codes
              "I can add concrete examples once we confirm the exact scope and available facts.";
      }
      ∷ [];
  clarifier = record { needed = false; text = none };
  bilingual_meta = none;
}

-- What a generation is given: serde_json, the answers of the model to its first and its second
-- request, of which the second argument is the prompt, and the milliseconds that each takes.
pub record Requests : Type 0 where
  pub from_str : Text → Option InterviewCardDto
  pub first : (system_prompt user_prompt : Text) (max_tokens : ℕ) → Result Text Text
  pub second : (system_prompt user_prompt : Text) (max_tokens : ℕ) → Result Text Text
  pub first_ms : ℕ
  pub second_ms : ℕ

unfoldable pub attempt :
    Requests → Unicode → Text → Text → InterviewWordLimits → Result InterviewCardDto CardFailure
unfolding parse_interview_card_json normalize_and_validate
attempt requests u raw transcript limits =
    parse_interview_card_json requests.from_str u raw >>= λ parsed.
    normalize_and_validate u parsed transcript limits

-- A judged attempt: a panic, or the gate and the card, if there is one.
unfoldable pub evaluate_quality_gate :
    Unicode
    → Result InterviewCardDto CardFailure
    → Text
    → InterviewWordLimits
    → Option InterviewQualityGate
unfolding card_reasons error_reason gate_of
evaluate_quality_gate u (ok card) transcript limits =
    some (gate_of (card_reasons u card transcript limits))
evaluate_quality_gate u (err (refused reason)) transcript limits =
    some (gate_of (error_reason u reason ∷ []))
evaluate_quality_gate u (err panicked) transcript limits = none

abbrev pub fallback_outcome :
    Text → InterviewQualityGate → InterviewGenerationTelemetry → Text → InterviewGenerationOutcome
fallback_outcome transcript gate telemetry note = record {
  card = build_safe_fallback_card transcript gate.failed_reasons;
  quality_gate = gate;
  telemetry = telemetry;
  risk_note = some note;
}

abbrev pub passed_outcome :
    InterviewCardDto
    → InterviewQualityGate
    → InterviewGenerationTelemetry
    → InterviewGenerationOutcome
passed_outcome card gate telemetry = record {
  card = card;
  quality_gate = gate;
  telemetry = telemetry;
  risk_note = none;
}

abbrev pub first_card : Result InterviewCardDto CardFailure → Option InterviewCardDto
first_card (ok card) = some card
first_card (err _) = none

abbrev interview_repair_max_attempts : ℕ
interview_repair_max_attempts = 1

-- `if gate.passed { .. attempt? .. }` and what follows; a panic of the attempt ends everything.
unfoldable pub judge :
    Unicode
    → Result InterviewCardDto CardFailure
    → Text
    → InterviewWordLimits
    → (InterviewCardDto → InterviewQualityGate → Result InterviewGenerationOutcome CardFailure)
    → (InterviewQualityGate → Result InterviewGenerationOutcome CardFailure)
    → Result InterviewGenerationOutcome CardFailure
unfolding evaluate_quality_gate
judge u tried transcript limits pass fail = elim (evaluate_quality_gate u tried transcript limits) [
  | none ↦ err panicked
  | some gate ↦ if gate.passed then (tried >>= λ card. pass card gate) else fail gate
]

-- The second half, from the repair prompt on.
unfoldable pub repair_once :
    Requests
    → Unicode
    → Text
    → Text
    → Text
    → InterviewWordLimits
    → InterviewQualityGate
    → Result InterviewCardDto CardFailure
    → Result InterviewGenerationOutcome CardFailure
unfolding build_interview_system_prompt build_interview_repair_user_prompt attempt
    evaluate_quality_gate build_safe_fallback_card
repair_once requests u transcript context language limits first_gate first_attempt =
    let telemetry : InterviewGenerationTelemetry = record {
      interview_generation_attempts = 2;
      interview_repair_attempted = true;
      interview_repair_success = false;
      duration_ms_per_attempt = requests.first_ms ∷ requests.second_ms ∷ [];
    } in
    map_err refused (
      requests.second (build_interview_system_prompt language)
        (build_interview_repair_user_prompt transcript context language first_gate
          (first_card first_attempt))
        700)
    >>= λ second_raw.
        judge u (attempt requests u second_raw transcript limits) transcript limits
          (λ card gate.
            ok (passed_outcome card gate (record telemetry { interview_repair_success = true })))
          (λ gate. ok (
            fallback_outcome transcript gate telemetry
              (codes "Repair attempt failed; returned safe fallback with low confidence")))

-- The gate is always repairable and one repair is allowed, so the fallback without a repair is never
-- taken.
unfoldable pub generate_interview_card_with_conditional_repair :
    Requests
    → Unicode
    → Text
    → Text
    → Text
    → AnswerProfileConfig
    → Result InterviewGenerationOutcome CardFailure
unfolding build_interview_system_prompt build_interview_user_prompt attempt evaluate_quality_gate
    repair_once from_profile build_safe_fallback_card
generate_interview_card_with_conditional_repair requests u transcript context language profile =
    let limits = from_profile profile in
    let telemetry : InterviewGenerationTelemetry = record {
      interview_generation_attempts = 1;
      interview_repair_attempted = false;
      interview_repair_success = false;
      duration_ms_per_attempt = requests.first_ms ∷ [];
    } in
    map_err refused (
      requests.first (build_interview_system_prompt language)
        (build_interview_user_prompt transcript context language) 700)
    >>= λ first_raw.
        let first_attempt = attempt requests u first_raw transcript limits in
        judge u first_attempt transcript limits
          (λ card gate. ok (passed_outcome card gate telemetry))
          (λ gate.
            if not gate.repairable || interview_repair_max_attempts == 0
            then ok (
                fallback_outcome transcript gate telemetry
                  (codes "Quality gate failed; returned safe fallback with low confidence"))
            else repair_once requests u transcript context language limits gate first_attempt)
