-- ===== src/Card/Repair.antt =====
-- What replaces a brief or an answer that cannot be shown: `repair_question_brief` and
-- `repair_answer_now` of src-tauri/src/card_v3.rs.
use replyline.Prelude.{
  Bool, List, Text, [], codes, ends_with, if◌then◌else◌, is_empty, leb, not, trim, word_count, ℕ,
  ◌&&◌, ◌++◌, ◌==◌, ◌∷◌,
}
use replyline.Prelude.Slices.{trim_end_matches}
use replyline.Prelude.Unicode.{Unicode}
use replyline.Card.{CardLimits, trim_line}
use replyline.Card.Words.{contains_any}
use replyline.Card.Fallback.{choose, variant_of}

abbrev is_dot : ℕ → Bool
is_dot c = c == b'.'

unfoldable pub repair_question_brief_text : Text → Text → Text
unfolding trim trim_end_matches word_count trim_line
repair_question_brief_text value transcript =
    let clean = trim_end_matches is_dot (trim value) in
    let snippet = trim_line transcript 90 in
    if not (is_empty clean) && leb 4 (word_count clean)
    then clean ++ codes "."
    else if is_empty snippet
    then codes "Собеседник поднимает рабочий вопрос, нужен ясный ответ и следующий шаг."
    else codes "Ключевой вопрос по фрагменту: " ++ snippet

unfoldable pub repair_question_brief : Text → Text → CardLimits → Text
unfolding repair_question_brief_text trim_line
repair_question_brief value transcript limits =
    trim_line (repair_question_brief_text value transcript) limits.question_brief

unfoldable pub clean_answer : Text → Text
unfolding trim trim_end_matches
clean_answer value = trim (trim_end_matches is_dot (trim value))

abbrev pub deadline_words : List Text
deadline_words =
    codes "когда" ∷ codes "срок" ∷ codes "deadline" ∷ codes "дедлайн" ∷ codes "дата" ∷ []

abbrev pub owner_words : List Text
owner_words = codes "кто" ∷ codes "владел" ∷ codes "owner" ∷ codes "ответствен" ∷ []

pub data AnswerTopic : Type 0 where
  deadline owners any_step : AnswerTopic

unfoldable pub answer_topic : Unicode → Text → Text → AnswerTopic
unfolding contains_any
answer_topic u clean transcript =
    let lower = u.to_lowercase (clean ++ 10 ∷ transcript) in
    if contains_any u lower deadline_words
    then deadline
    else if contains_any u lower owner_words
    then owners
    else any_step

unfoldable pub answer_text : AnswerTopic → ℕ → Text
answer_text deadline variant =
    choose variant
      (codes
        "Предлагаю зафиксировать срок прямо сейчас: назовите финальную дату и владельца подтверждения. Если дата сдвигается, сразу обозначим новый дедлайн и формат апдейта до конца дня. Все заинтересованные получат уведомление об изменении сроков и смогут оперативно скорректировать свои планы.")
      (codes
        "Давайте сверим дедлайн в этом треде: какая финальная дата и кто дает письменное подтверждение сегодня. После согласования отправлю краткий итог с владельцем и контрольной точкой всем участникам цепочки. Если нужна дополнительная информация, оперативно запрошу у ответственных и добавлю в документ.")
      (codes
        "Нужна конкретика по сроку: какую дату берем и кто фиксирует решение. Я подготовлю короткий итог с датой, владельцем и следующим чекпоинтом. Команда получит понятную картину и сможет скорректировать свои задачи при необходимости без дополнительных согласований.")
answer_text owners variant =
    choose variant
      (codes
        "Давайте назначим владельца шага и время статус-апдейта. Я зафиксирую ответственного, срок и формат следующего контроля в одном сообщении. Если владелец не подтвердится в течение дня, предложу альтернативного кандидата и сразу согласую с командой.")
      (codes
        "Предлагаю прямо сейчас определить ответственного и дедлайн. После этого отправлю краткий итог: кто ведет, что сдаем и когда сверяемся. Это стандартная практика, которая помогает держать все задачи под контролем и избегать потери договоренностей.")
      (codes
        "Нужно прояснить владельца и срок. Я оформлю это письменно: ответственный, следующий шаг и контрольная дата. Если ответственный не может взять задачу, обсудим альтернативное распределение в рабочем канале и зафиксируем новое решение.")
answer_text any_step variant =
    choose variant
      (codes
        "Предлагаю зафиксировать один конкретный шаг, владельца и срок до конца дня. После согласования отправлю короткий итог в рабочий канал. Если нужны дополнительные вводные, соберу их у команды и добавлю в итоговый документ для всех заинтересованных.")
      (codes
        "Давайте уточним следующий артефакт и время проверки сегодня. Я подготовлю краткий follow-up с решением и ответственным. После этого можно будет двигаться дальше с чётким пониманием следующего шага и распределением ответственности.")
      (codes
        "Сверим владельца, дедлайн и формат апдейта в этом обсуждении. Затем зафиксирую итог письменно, чтобы не потерять договоренность. Если потребуется согласование с другими командами, сразу обозначу и это в документе для общей прозрачности.")

unfoldable pub repair_answer_now_inner : Unicode → Text → Text → Text
unfolding clean_answer answer_topic answer_text variant_of
repair_answer_now_inner u value transcript =
    let clean = clean_answer value in
    if ends_with clean (codes "?")
    then clean
      ++ codes
          " После уточнения сразу зафиксирую решение, владельца и ближайший срок в рабочем канале. Это позволит всем участникам синхронизироваться и избежать повторных согласований."
    else answer_text (answer_topic u clean transcript) (variant_of transcript)

unfoldable pub repair_answer_now : Unicode → Text → Text → CardLimits → Text
unfolding repair_answer_now_inner trim_line
repair_answer_now u value transcript limits =
    trim_line (repair_answer_now_inner u value transcript) limits.answer_now
