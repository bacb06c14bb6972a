-- ===== src/Capture/Words.antt =====
-- The texts of the capture pipeline: the language of messages (src-tauri/src/ui_strings.rs), the
-- kinds of failure, and the context of the prompt (src-tauri/src/services/capture_pipeline.rs).
use replyline.Prelude.{
  List, Option, Text, [], codes, contains, if◌then◌else◌, is_empty, join, leb, none, some,
  starts_with, text_eq, trim, ℕ, ◌&&◌, ◌++◌, ◌+◌, ◌==◌, ◌||◌, ◌∷◌,
}
use replyline.InterviewCard.{InterviewCardDto, question_type_debug}
use replyline.Capture.{
  AnalysisCardDto, AnalysisMode, Event, InterviewSessionState, app_log, interview, log_diag,
  work_conversation,
}

abbrev pub default_language : Text
default_language = codes "ru"

-- `to_lowercase`, as far as ASCII patterns can tell: besides the ASCII capitals, the Kelvin sign and
-- the dotted capital I have a lowercase with an ASCII letter.
abbrev pub lower_char : ℕ → Text
lower_char c =
    if leb 65 c && leb c 90
    then (c + 32) ∷ []
    else if c == 0x212a
    then 107 ∷ []
    else if c == 0x130
    then 105 ∷ 0x307 ∷ []
    else c ∷ []

unfoldable pub to_lowercase : Text → Text
to_lowercase [] = []
to_lowercase (c ∷ s) = lower_char c ++ to_lowercase s

-- `eq_ignore_ascii_case("en")` is the case of `to_lowercase().starts_with("en")` without a rest.
unfoldable pub pick_lang : (primary_language en_s ru_s : Text) → Text
pick_lang primary_language en_s ru_s =
    if starts_with (to_lowercase (trim primary_language)) (codes "en") then en_s else ru_s

abbrev pub err_no_active_capture : Text
err_no_active_capture =
    pick_lang default_language (codes "Recording wasn't active. Hold the hotkey first.")
      (codes "Запись не была активна. Сначала удержите горячую клавишу.")

abbrev pub err_no_deepgram_key : Text
err_no_deepgram_key =
    pick_lang default_language (codes "No Deepgram API key. Settings → key → Save.")
      (codes "Нет ключа Deepgram. Настройки → ключ → Сохранить.")

abbrev pub err_nothing_to_retry : Text
err_nothing_to_retry =
    pick_lang default_language (codes "Nothing to rebuild yet — capture something first.")
      (codes "Пока нечего пересобрать — сначала сделайте захват.")

abbrev pub status_waiting_text : Text
status_waiting_text = pick_lang default_language (codes "Waiting for text…") (codes "Ждём текст…")

abbrev pub status_waiting_card : Text
status_waiting_card =
    pick_lang default_language (codes "Waiting for card…") (codes "Ждём карточку…")

abbrev pub status_retrying_card : Text
status_retrying_card =
    pick_lang default_language (codes "Rebuilding card…") (codes "Пересбор карточки…")

abbrev pub retry_detail : Text
retry_detail = pick_lang default_language (codes "retry") (codes "повтор")

unfoldable pub classify_stt_failure : Text → Text
classify_stt_failure reason =
    let lower = to_lowercase reason in
    if contains lower (codes "stt_no_speech") || contains lower (codes "no audible signal")
    then codes "no_speech"
    else if contains lower (codes "stt_empty") || contains lower (codes "empty transcript")
    then codes "empty_transcript"
    else if contains lower (codes "timeout")
    then codes "timeout"
    else if contains lower (codes "http")
    then codes "http_error"
    else if contains lower (codes "unauthorized")
        || contains lower (codes "forbidden")
        || contains lower (codes "key")
        || contains lower (codes "auth")
    then codes "auth_error"
    else codes "provider_error"

unfoldable pub mode_from_last_card : Option AnalysisCardDto → Option AnalysisMode
mode_from_last_card none = none
mode_from_last_card (some card) = elim card.interview_card_schema_v1 [
  | some _ ↦ some interview
  | none ↦ some work_conversation
]

-- `format!("{heading}\n{text}")`, pushed unless the text is blank.
abbrev pub part : Text → Text → List Text
part heading text = if is_empty (trim text) then [] else (heading ++ codes "\n" ++ trim text) ∷ []

unfoldable pub build_combined_context : (context_text context_pack_content language : Text) → Text
build_combined_context context_text context_pack_content language =
    let english = text_eq language (codes "en") in
    let rolling_heading =
      if english
      then codes "Recent conversation context:"
      else codes "Контекст последних фрагментов разговора:" in
    let active_heading =
      if english
      then codes "Active conversation context:"
      else codes "Активный контекст разговора:" in
    join (codes "\n\n")
      (part rolling_heading context_text ++ part active_heading context_pack_content)

-- `append_question` of src-tauri/src/interview_report.rs.
unfoldable pub append_question :
    Text → Text → InterviewCardDto → InterviewSessionState → InterviewSessionState
append_question timestamp transcript card state =
    if state.active
    then record state {
      questions =
          state.questions
          ++ record {
            timestamp = timestamp;
            raw_transcript = transcript;
            clean_question = card.question.clean_question;
            question_type = question_type_debug card.question.question_type;
            answer_main = card.answer.main;
            hints = card.risks.safe_reframe ∷ [];
            signals = card.signals.must_mention;
          }
            ∷ [];
    }
    else state

-- `classify_llm_error` and what `log_llm_failure` of src-tauri/src/services/pipeline_errors.rs tells.
abbrev pub classify_llm_error : Text → Text × Text
classify_llm_error reason =
    if contains reason (codes "Card output invalid:")
    then (codes "analysis_card_invalid", codes "RL_CARD_INVALID")
    else (codes "analysis_llm_failed", codes "RL_LLM_FAILED")

abbrev pub log_llm_failure : (stage reason : Text) → List Event
log_llm_failure stage reason =
    app_log (classify_llm_error reason).0
    ∷ log_diag stage (codes "fail") (classify_llm_error reason).1
    ∷ []
