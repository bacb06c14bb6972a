-- ===== src/Card/Validate.antt =====
-- What a section of a card must be to be shown: the validators of src-tauri/src/card_v3.rs.
use replyline.Prelude.{
  Bool, List, Result, Text, [], any, codes, err, if◌then◌else◌, is_empty, ltb, not, ok, starts_with,
  word_count, ℕ, ◌&&◌, ◌||◌, ◌∷◌,
}
use replyline.Prelude.Unicode.{Unicode}
use replyline.Card.{CardLimits}
use replyline.Card.Words.{
  contains_any, contains_standalone_word, has_paragraph_shape, is_question_like,
}

pub data Section : Type 0 where
  question_brief_section answer_now_section next_step_section : Section

abbrev pub Verdict : Type 0
Verdict = Result (Unit {0}) Text

unfoldable pub validate_question_brief : Text → Verdict
unfolding word_count
validate_question_brief value =
    if is_empty value
    then err (codes "question_brief is empty.")
    else if ltb (word_count value) 4
    then err (codes "question_brief is too short.")
    else ok tt

abbrev pub apologies : List Text
apologies = codes "простите" ∷ codes "извините" ∷ codes "сожалею" ∷ []

abbrev pub commitments : List Text
commitments =
    codes "сегодня"
    ∷ codes "завтра"
    ∷ codes "до "
    ∷ codes "пришлю"
    ∷ codes "сделаю"
    ∷ codes "даю"
    ∷ codes "закрываю"
    ∷ codes "давайте"
    ∷ []

unfoldable pub apology_only : Unicode → Text → Bool
unfolding contains_any
apology_only u lower = any (starts_with lower) apologies && not (contains_any u lower commitments)

abbrev pub generic_words : List Text
generic_words =
    codes "как-нибудь"
    ∷ codes "посмотрим"
    ∷ codes "подумаем"
    ∷ codes "в целом"
    ∷ codes "в общем"
    ∷ []

abbrev pub action_words : List Text
action_words =
    codes "давайте"
    ∷ codes "беру"
    ∷ codes "делаю"
    ∷ codes "закрываю"
    ∷ codes "отправлю"
    ∷ codes "пришлю"
    ∷ codes "фиксируем"
    ∷ codes "уточню"
    ∷ codes "проверю"
    ∷ codes "согласуем"
    ∷ codes "назначу"
    ∷ codes "подтверждаю"
    ∷ codes "предлагаю"
    ∷ codes "зафиксир"
    ∷ codes "подготовлю"
    ∷ codes "сверим"
    ∷ codes "уточним"
    ∷ codes "сделаю"
    ∷ codes "возьму"
    ∷ codes "обновлю"
    ∷ codes "создам"
    ∷ codes "передам"
    ∷ codes "что именно"
    ∷ codes "?"
    ∷ []

-- `question` is `is_question_like(transcript)`.
unfoldable pub answer_verdict : Unicode → Text → Bool → ℕ → ℕ → Verdict
unfolding word_count apology_only contains_any has_paragraph_shape
answer_verdict u value question min_words max_words =
    let lower = u.to_lowercase value in
    if is_empty value
    then err (codes "answer_now is empty.")
    else if apology_only u lower
    then err (codes "answer_now is apology-only.")
    else if ltb (word_count value) min_words
    then err (codes "answer_now is too short for paragraph guidance.")
    else if ltb max_words (word_count value)
    then err (codes "answer_now is too long for active profile.")
    else if contains_any u lower generic_words
    then err (codes "answer_now is too generic.")
    else if not (has_paragraph_shape value)
    then err (codes "answer_now is not paragraph-shaped.")
    else if not question && not (contains_any u lower action_words)
    then err (codes "answer_now has no concrete action or clarification.")
    else ok tt

unfoldable pub validate_answer_now : Unicode → Text → Text → ℕ → ℕ → Verdict
unfolding answer_verdict is_question_like
validate_answer_now u value transcript min_words max_words =
    answer_verdict u value (is_question_like u transcript) min_words max_words

abbrev pub vague_words : List Text
vague_words = codes "потом" ∷ codes "как-нибудь" ∷ codes "посмотрим" ∷ codes "позже" ∷ []

abbrev pub coordination_words : List Text
coordination_words =
    codes "письм"
    ∷ codes "email"
    ∷ codes "чат"
    ∷ codes "тикет"
    ∷ codes "jira"
    ∷ codes "issue"
    ∷ codes "слот"
    ∷ codes "чекпоинт"
    ∷ codes "документ"
    ∷ codes "план"
    ∷ codes "созвон"
    ∷ codes "встреч"
    ∷ codes "владел"
    ∷ codes "срок"
    ∷ codes "список"
    ∷ codes "черновик"
    ∷ codes "согласован"
    ∷ codes "апрув"
    ∷ codes "sign-off"
    ∷ codes "блокер"
    ∷ codes "риск"
    ∷ codes "провер"
    ∷ codes "источник"
    ∷ codes "уточн"
    ∷ []

abbrev pub factual_words : List Text
factual_words =
    codes "информац"
    ∷ codes "данн"
    ∷ codes "подготов"
    ∷ codes "объясн"
    ∷ codes "пример"
    ∷ codes "детал"
    ∷ codes "справк"
    ∷ codes "verify"
    ∷ codes "source"
    ∷ codes "information"
    ∷ codes "data"
    ∷ codes "explain"
    ∷ codes "example"
    ∷ codes "detail"
    ∷ []

-- `question` is `is_question_like(transcript)`.
unfoldable pub step_verdict : Unicode → Text → Bool → Verdict
unfolding word_count contains_any contains_standalone_word
step_verdict u value question =
    let lower = u.to_lowercase value in
    if is_empty value
    then err (codes "next_step is empty.")
    else if ltb (word_count value) 3
    then err (codes "next_step is too short.")
    else if contains_any u lower vague_words || contains_standalone_word u lower (codes "ок")
    then err (codes "next_step is too vague.")
    else if not (contains_any u lower coordination_words)
        && not (question && contains_any u lower factual_words)
    then err (codes "next_step has no concrete coordination artifact.")
    else ok tt

unfoldable pub validate_next_step : Unicode → Text → Text → Verdict
unfolding step_verdict is_question_like
validate_next_step u value transcript = step_verdict u value (is_question_like u transcript)

unfoldable pub validate_section : Unicode → Text → Text → Section → CardLimits → Verdict
unfolding validate_question_brief validate_answer_now validate_next_step
validate_section u value transcript question_brief_section limits = validate_question_brief value
validate_section u value transcript answer_now_section limits =
    validate_answer_now u value transcript limits.answer_min_words limits.answer_max_words
validate_section u value transcript next_step_section limits = validate_next_step u value transcript
