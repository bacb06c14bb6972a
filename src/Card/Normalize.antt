-- ===== src/Card/Normalize.antt =====
-- The card that is shown for a parsed answer: `repair_section` and `normalize_card` of
-- src-tauri/src/card_v3.rs.
use replyline.Prelude.{
  Bool, Option, Result, Text, [], codes, contains, ends_with, err, false, if◌then◌else◌, is_empty,
  map_err, none, not, ok, some, text_eq, true, ℕ, ◌&&◌, ◌++◌, ◌>>=◌, ◌||◌, ◌∷◌,
}
use replyline.Prelude.Unicode.{Unicode}
use replyline.Profiles.{AnswerProfileConfig}
use replyline.Card.{
  CardFields, CardLimits, CardQualityFlags, ParsedCard, RawCardV3, RawCardV4, chars_band, legacy,
  limits_for_transcript, no_repairs, trim_line, v3, v4,
}
use replyline.Card.Parse.{CardFailure, FromStr, parse_card_json, refused}
use replyline.Card.Validate.{
  Section, answer_now_section, next_step_section, question_brief_section, validate_section,
}
use replyline.Card.Fallback.{build_fallback_next_step}
use replyline.Card.Repair.{repair_answer_now, repair_question_brief}
use replyline.Capture.{AnalysisCardDto}

-- `Option::filter(|s| !s.is_empty())`.
abbrev pub nonempty_text : Text → Option Text
nonempty_text [] = none
nonempty_text (c ∷ s) = some (c ∷ s)

unfoldable pub trim_risk : Option Text → Option Text
unfolding trim_line
trim_risk none = none
trim_risk (some risk) = nonempty_text (trim_line risk 120)

unfoldable pub map_v3_fields : RawCardV3 → CardLimits → CardFields
unfolding trim_line trim_risk
map_v3_fields card limits = record {
  gist = trim_line card.question_brief limits.question_brief;
  say_now = trim_line card.answer_now limits.answer_now;
  next_move = trim_line card.next_step limits.next_step;
  star_evidence = nonempty_text (trim_line card.star_evidence limits.star_evidence);
  risk_or_clarifier = trim_risk card.risk_or_clarifier;
  answer_short = none;
  answer_full = none;
  follow_up_line = none;
}

unfoldable pub join_answers : Text → Text → Text
join_answers answer_short answer_full =
    if not (is_empty answer_full) && not (text_eq answer_full answer_short)
    then answer_short
      ++ (if ends_with answer_short (codes ".")
            || ends_with answer_short (codes "?")
            || ends_with answer_short (codes "!")
          then codes " "
          else if not (is_empty answer_short)
          then codes ". "
          else [])
      ++ answer_full
    else answer_short

unfoldable pub map_v4_fields : RawCardV4 → CardLimits → CardFields
unfolding trim_line trim_risk join_answers
map_v4_fields card limits =
    let answer_short = trim_line card.answer_short limits.answer_now in
    let answer_full = trim_line card.answer_full limits.answer_now in
    record {
      gist = trim_line card.question_brief limits.question_brief;
      say_now = join_answers answer_short answer_full;
      next_move = trim_line card.next_step limits.next_step;
      star_evidence = nonempty_text (trim_line card.evidence limits.star_evidence);
      risk_or_clarifier = trim_risk card.risk_or_clarifier;
      answer_short = some answer_short;
      answer_full = some answer_full;
      follow_up_line = some (trim_line card.follow_up_line limits.next_step);
    }

unfoldable pub map_fields : ParsedCard → CardLimits → CardFields
unfolding map_v4_fields map_v3_fields trim_line
map_fields (v4 card) limits = map_v4_fields card limits
map_fields (v3 card) limits = map_v3_fields card limits
map_fields (legacy card) limits = record {
  gist = trim_line card.gist limits.question_brief;
  say_now = trim_line card.say_now limits.answer_now;
  next_move = trim_line card.next_move limits.next_step;
  star_evidence = none;
  risk_or_clarifier = none;
  answer_short = none;
  answer_full = none;
  follow_up_line = none;
}

abbrev pub section_max : Section → CardLimits → ℕ
section_max question_brief_section limits = limits.question_brief
section_max answer_now_section limits = limits.answer_now
section_max next_step_section limits = limits.next_step

-- The `match section` that repairs, with the flag that it sets.
unfoldable pub repaired :
    Unicode → Text → Text → Section → CardLimits → CardQualityFlags → CardQualityFlags × Text
unfolding repair_question_brief repair_answer_now build_fallback_next_step
repaired u current transcript question_brief_section limits quality =
    (record quality { repair_used = true }, repair_question_brief current transcript limits)
repaired u current transcript answer_now_section limits quality =
    (record quality { repair_used = true }, repair_answer_now u current transcript limits)
repaired u current transcript next_step_section limits quality =
    (record quality { fallback_used = true }, build_fallback_next_step u current transcript)

abbrev pub is_answer : Section → Bool
is_answer answer_now_section = true
is_answer _ = false

abbrev invalid_prefix : Text
invalid_prefix = codes "Card output invalid: "

-- The check of what was repaired. `reason` is what was wrong with the section before.
unfoldable pub recheck :
    Unicode
    → Text
    → Section
    → CardLimits
    → Text
    → CardQualityFlags × Text
    → Result (CardQualityFlags × Text) Text
unfolding trim_line validate_section
recheck u transcript section limits reason (quality, text) =
    let current = trim_line text (section_max section limits) in
    elim (validate_section u current transcript section limits) [
      | ok _ ↦ ok (quality, current)
      | err retry_err ↦ err (invalid_prefix ++ reason ++ codes " | repair_failed: " ++ retry_err)
    ]

unfoldable pub repair_section :
    Unicode
    → Text
    → Text
    → Section
    → CardLimits
    → CardQualityFlags
    → Result (CardQualityFlags × Text) Text
unfolding trim_line validate_section contains repaired recheck
repair_section u value transcript section limits quality =
    let current = trim_line value (section_max section limits) in
    elim (validate_section u current transcript section limits) [
      | ok _ ↦ ok (quality, current)
      | err reason ↦
          if is_answer section && contains reason (codes "apology-only")
          then err (invalid_prefix ++ reason)
          else recheck u transcript section limits reason
              (repaired u current transcript section limits quality)
    ]

unfoldable pub normalize_card :
    Unicode
    → ParsedCard
    → Text
    → AnswerProfileConfig
    → Result (AnalysisCardDto × CardQualityFlags) Text
unfolding limits_for_transcript map_fields repair_section chars_band
normalize_card u parsed transcript profile =
    let limits = limits_for_transcript transcript profile in
    let fields = map_fields parsed limits in
    repair_section u fields.gist transcript question_brief_section limits no_repairs
    >>= λ (q1, gist).
        repair_section u fields.say_now transcript answer_now_section limits q1 >>= λ (q2, say_now).
        repair_section u fields.next_move transcript next_step_section limits q2
        >>= λ (quality, next_move). ok (
          record {
            gist = gist;
            say_now = say_now;
            star_evidence = fields.star_evidence;
            risk_or_clarifier = fields.risk_or_clarifier;
            next_move = next_move;
            chars_band = chars_band transcript;
            interview_card_schema_v1 = none;
            answer_short = fields.answer_short;
            answer_full = fields.answer_full;
            follow_up_line = fields.follow_up_line;
            repair_used = quality.repair_used;
            fallback_used = quality.fallback_used;
          },
          quality,
        )

unfoldable pub normalize_parsed_card :
    FromStr
    → Unicode
    → Text
    → Text
    → AnswerProfileConfig
    → Result (AnalysisCardDto × CardQualityFlags) CardFailure
unfolding parse_card_json normalize_card
normalize_parsed_card json u raw_text transcript profile =
    parse_card_json json raw_text >>= λ parsed.
    map_err refused (normalize_card u parsed transcript profile)
