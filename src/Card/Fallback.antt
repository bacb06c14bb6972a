-- ===== src/Card/Fallback.antt =====
-- The next step that is shown where the model gave none that can be used:
-- `detect_fallback_intent` and `build_fallback_next_step` of src-tauri/src/card_v3.rs.
use replyline.Prelude.{
  Bool, List, Option, Text, [], any, codes, if◌then◌else◌, leb, none, some, ℕ, ◌%◌, ◌&&◌, ◌++◌, ◌+◌,
  ◌==◌, ◌^◌, ◌||◌, ◌∷◌,
}
use replyline.Prelude.Unicode.{Unicode}
use replyline.Card.Words.{contains_any, is_question_like}

pub data FallbackIntent : Type 0 where
  factual email chat ticket meeting blocker approval owner document plan default : FallbackIntent

-- A row of the table: an intent, the words of the transcript and those of the whole that show it.
pub record IntentWords : Type 0 where
  pub intent : FallbackIntent
  pub transcript_tokens : List Text
  pub combined_tokens : List Text

abbrev pub intent_table : List IntentWords
intent_table =
    record {
      intent = email;
      transcript_tokens = codes "email" ∷ codes "e-mail" ∷ codes "письм" ∷ codes "почт" ∷ [];
      combined_tokens = codes "email" ∷ codes "e-mail" ∷ codes "письм" ∷ codes "почт" ∷ [];
    }
    ∷ record {
      intent = blocker;
      transcript_tokens = codes "блокер" ∷ codes "blocker" ∷ codes "риск" ∷ codes "эскалац" ∷ [];
      combined_tokens = codes "блокер" ∷ codes "blocker" ∷ codes "риск" ∷ codes "эскалац" ∷ [];
    }
    ∷ record {
      intent = plan;
      transcript_tokens = codes "план" ∷ codes "список" ∷ codes "приоритет" ∷ codes "roadmap" ∷ [];
      combined_tokens = codes "план" ∷ codes "список" ∷ codes "приоритет" ∷ codes "roadmap" ∷ [];
    }
    ∷ record {
      intent = ticket;
      transcript_tokens =
          codes "тикет" ∷ codes "ticket" ∷ codes "jira" ∷ codes "задач" ∷ codes "таск" ∷ [];
      combined_tokens =
          codes "тикет" ∷ codes "ticket" ∷ codes "jira" ∷ codes "задач" ∷ codes "таск" ∷ [];
    }
    ∷ record {
      intent = meeting;
      transcript_tokens =
          codes "созвон"
          ∷ codes "встреч"
          ∷ codes "meeting"
          ∷ codes "слот"
          ∷ codes "календар"
          ∷ codes "чекпоинт"
          ∷ codes "checkpoint"
          ∷ [];
      combined_tokens =
          codes "созвон"
          ∷ codes "встреч"
          ∷ codes "meeting"
          ∷ codes "слот"
          ∷ codes "календар"
          ∷ codes "чекпоинт"
          ∷ codes "checkpoint"
          ∷ [];
    }
    ∷ record {
      intent = approval;
      transcript_tokens =
          codes "согласован"
          ∷ codes "апрув"
          ∷ codes "approve"
          ∷ codes "sign-off"
          ∷ codes "подпис"
          ∷ [];
      combined_tokens =
          codes "согласован"
          ∷ codes "апрув"
          ∷ codes "approve"
          ∷ codes "sign-off"
          ∷ codes "подпис"
          ∷ [];
    }
    ∷ record {
      intent = owner;
      transcript_tokens =
          codes "владел"
          ∷ codes "owner"
          ∷ codes "ответствен"
          ∷ codes "срок"
          ∷ codes "дедлайн"
          ∷ codes "deadline"
          ∷ [];
      combined_tokens =
          codes "владел"
          ∷ codes "owner"
          ∷ codes "ответствен"
          ∷ codes "срок"
          ∷ codes "дедлайн"
          ∷ codes "deadline"
          ∷ codes "до "
          ∷ [];
    }
    ∷ record {
      intent = document;
      transcript_tokens =
          codes "документ"
          ∷ codes "doc"
          ∷ codes "summary"
          ∷ codes "резюме"
          ∷ codes "протокол"
          ∷ codes "спек"
          ∷ codes "правк"
          ∷ codes "черновик"
          ∷ [];
      combined_tokens =
          codes "документ"
          ∷ codes "doc"
          ∷ codes "summary"
          ∷ codes "резюме"
          ∷ codes "протокол"
          ∷ codes "спек"
          ∷ codes "правк"
          ∷ codes "черновик"
          ∷ [];
    }
    ∷ record {
      intent = chat;
      transcript_tokens = codes "чат" ∷ codes "slack" ∷ codes "teams" ∷ codes "канал" ∷ [];
      combined_tokens =
          codes "чат" ∷ codes "slack" ∷ codes "teams" ∷ codes "канал" ∷ codes "сообщен" ∷ [];
    }
    ∷ []

unfoldable pub first_intent : Unicode → Text → Text → List IntentWords → Option FallbackIntent
unfolding contains_any
first_intent u transcript_lower combined_lower [] = none
first_intent u transcript_lower combined_lower (row ∷ rows) =
    if contains_any u transcript_lower row.transcript_tokens
      || contains_any u combined_lower row.combined_tokens
    then some row.intent
    else first_intent u transcript_lower combined_lower rows

unfoldable pub detect_fallback_intent : Unicode → Text → Text → FallbackIntent
unfolding first_intent is_question_like
detect_fallback_intent u transcript_lower combined_lower =
    elim (first_intent u transcript_lower combined_lower intent_table) [
      | some intent ↦ intent
      | none ↦ if is_question_like u transcript_lower then factual else default
    ]

-- The sum of the characters with `wrapping_add` on a 64-bit `usize`.
unfoldable pub wrapping_sum : ℕ → Text → ℕ
wrapping_sum acc [] = acc
wrapping_sum acc (c ∷ s) = wrapping_sum ((acc + c) % 2 ^ 64) s

unfoldable pub variant_of : Text → ℕ
unfolding wrapping_sum
variant_of transcript = wrapping_sum 0 transcript % 3

abbrev pub is_cyrillic : ℕ → Bool
is_cyrillic c = leb 0x410 c && leb c 0x44f || c == 0x451 || c == 0x401

-- The arms `0`, `1` and `_` on the variant.
abbrev pub choose : ℕ → Text → Text → Text → Text
choose variant a b c = if variant == 0 then a else if variant == 1 then b else c

unfoldable pub fallback_text : FallbackIntent → ℕ → Bool → Text
fallback_text factual variant cyrillic =
    if cyrillic
    then codes "При необходимости проверю ответ по надежному источнику и уточню детали."
    else codes "If needed, I will verify the answer against a reliable source and clarify details."
fallback_text email variant cyrillic =
    choose variant (codes "Отправлю письмо с итогом, владельцем и дедлайном ответа до конца дня.")
      (codes "Подготовлю email-резюме: решение, владелец и срок следующего апдейта.")
      (codes "Зафиксирую договоренности письмом с владельцем и контрольной датой.")
fallback_text chat variant cyrillic =
    choose variant (codes "Зафиксирую в чате решение, владельца и время контрольного апдейта.")
      (codes "Опубликую в канале краткий итог: владелец, срок и следующий чекпоинт.")
      (codes "Отправлю в чат статус с владельцем и дедлайном проверки.")
fallback_text ticket variant cyrillic =
    choose variant (codes "Обновлю тикет: приоритет, владелец, срок и критерий готовности.")
      (codes "Перенесу договоренности в Jira: владелец, срок и критерий готовности.")
      (codes "Создам или обновлю тикет с владельцем, сроком и статусом проверки.")
fallback_text meeting variant cyrillic =
    choose variant (codes "Поставлю 15-минутный слот и чекпоинт с решением в календаре.")
      (codes "Назначу короткий созвон: решение, владелец, дедлайн.")
      (codes "Забронирую встречу-чекпоинт и зафиксирую итог в чате.")
fallback_text blocker variant cyrillic =
    choose variant (codes "Зафиксирую блокер, владельца разблокировки и время следующего статуса.")
      (codes "Подниму риск в треде с владельцем, impact и сроком решения.")
      (codes "Оформлю эскалацию: что блокирует, кто решает и когда апдейт.")
fallback_text approval variant cyrillic =
    choose variant (codes "Запрошу явный sign-off: критерий, владелец и срок финального апрува.")
      (codes "Зафиксирую согласование в письме с владельцем и датой подтверждения.")
      (codes "Оформлю чеклист апрува и назначу владельца финального решения.")
fallback_text owner variant cyrillic =
    choose variant (codes "Зафиксирую владельца, дедлайн и контрольную дату в чате команды.")
      (codes "Оформлю владельца и дедлайн в одном сообщении с временем апдейта.")
      (codes "Назначу ответственного и срок проверки в рабочем треде.")
fallback_text document variant cyrillic =
    choose variant (codes "Обновлю документ: решение, правки и план проверки с владельцем.")
      (codes "Внесу правки в summary и отправлю на review с дедлайном.")
      (codes "Подготовлю черновик протокола с владельцем и датой согласования.")
fallback_text plan variant cyrillic =
    choose variant (codes "Соберу план: шаги, владелец каждого шага и время следующей сверки.")
      (codes "Оформлю список приоритетов с владельцем и чекпоинтом на этой неделе.")
      (codes "Зафиксирую roadmap-шаги с ответственными и сроками проверки.")
fallback_text default variant cyrillic =
    choose variant
      (codes "Уточню в чате один блокер, назначу владельца и время следующего апдейта.")
      (codes "Зафиксирую следующий шаг, владельца и контрольную дату в рабочем канале.")
      (codes "Отправлю короткий follow-up: решение, ответственный и дедлайн проверки.")

unfoldable pub intent_of : Unicode → Text → Text → FallbackIntent
unfolding detect_fallback_intent
intent_of u say_now transcript =
    detect_fallback_intent u (u.to_lowercase transcript)
      (u.to_lowercase (say_now ++ 10 ∷ transcript))

unfoldable pub build_fallback_next_step : Unicode → Text → Text → Text
unfolding intent_of fallback_text variant_of
build_fallback_next_step u say_now transcript =
    fallback_text (intent_of u say_now transcript) (variant_of transcript)
      (any is_cyrillic transcript)
