-- ===== src/Card/Tests.antt =====
-- Cards at concrete answers of a model.
use replyline.Prelude.{
  Bool, Text, [], codes, contains, err, false, if◌then◌else◌, none, ok, refl, trim, true, ◌++◌, ◌↔◌,
  ◌≡◌,
}
use replyline.Prelude.Unicode.{basic}
use replyline.Profiles.{resolve_answer_profile, work_default}
use replyline.Card.{RawCardLegacy, RawCardV4, legacy, limits_for_transcript, no_repairs, trim_line}
use replyline.Card.Parse.{FromStr, from_json, panicked}
use replyline.Card.Validate.{
  validate_section, answer_now_section, next_step_section, validate_answer_now, validate_next_step,
}
use replyline.Card.Fallback.{build_fallback_next_step, intent_of, variant_of}
use replyline.Card.Repair.{answer_text, answer_topic, clean_answer}
use replyline.Card.Normalize.{map_fields, normalize_card, normalize_parsed_card, repair_section}
use replyline.Card.Valid.{IsSpeakable, normalize_card-IsSpeakable}
use replyline.Card.Steps.{is_refused_choice, no_artifact, refused_next_step, step_now}
use replyline.Card.Answers.{refused_answer}
use replyline.Card.Panics.{IsReversed, normalize_panics_iff}
use replyline.Capture.{AnalysisCardDto}
use replyline.Card.Extraction.{Layout}

abbrev no_json : FromStr
no_json = record { raw_card_v4 = λ s. none; raw_card_v3 = λ s. none; raw_card_legacy = λ s. none }

-- A refused answer: an empty one, to a question about a deadline.
abbrev deadline_question : Text
deadline_question = codes "Когда сдаем релиз?"

refused_answer_example :
    repair_section basic [] deadline_question answer_now_section
      (limits_for_transcript deadline_question (resolve_answer_profile (codes "interview_star")))
      no_repairs
    ≡ ok (
      record { repair_used = true; fallback_used = false },
      answer_text
          (answer_topic basic (clean_answer (trim_line [] 800)) deadline_question)
          (variant_of deadline_question),
    )
unfolding validate_answer_now clean_answer limits_for_transcript resolve_answer_profile trim_line
    contains
refused_answer_example =
    refused_answer basic [] deadline_question (codes "interview_star") no_repairs
      (codes "answer_now is empty.") refl refl refl

-- A blocker named in a transcript whose characters sum to 2 modulo 3.
abbrev blocker_report : Text
blocker_report = codes "Нашли блокер."

refused_next_step_example :
    repair_section basic
      (codes "later")
      blocker_report
      next_step_section
      (limits_for_transcript blocker_report work_default)
      no_repairs
    ≡ (if is_refused_choice
          (intent_of basic (step_now (codes "later") blocker_report work_default) blocker_report)
          (variant_of blocker_report)
        then err (
            codes "Card output invalid: "
            ++ codes "next_step is too short."
            ++ codes " | repair_failed: "
            ++ no_artifact)
        else ok (
          record no_repairs { fallback_used = true },
          build_fallback_next_step basic
              (step_now (codes "later") blocker_report work_default)
              blocker_report,
        ))
unfolding validate_next_step limits_for_transcript trim_line
refused_next_step_example =
    refused_next_step basic (codes "later") blocker_report work_default no_repairs
      (codes "next_step is too short.") refl

-- Such a card fails, whatever else it holds.
blocker_is_refused :
    is_refused_choice (intent_of basic (codes "later") blocker_report) (variant_of blocker_report)
    ≡ true
unfolding intent_of variant_of
blocker_is_refused = refl

abbrev backwards : Text
backwards = codes "} or {"

normalize_panics_iff_example :
    (normalize_parsed_card no_json basic backwards [] work_default ≡ err panicked)
    ↔ ((from_json no_json (trim backwards) ≡ none) × IsReversed (trim backwards))
normalize_panics_iff_example = normalize_panics_iff no_json basic backwards [] work_default

backwards_panics : normalize_parsed_card no_json basic backwards [] work_default ≡ err panicked
unfolding normalize_parsed_card
backwards_panics = refl

abbrev some_layout : Layout
some_layout = record { gap = codes " "; separator = codes ", " }

abbrev cut_card : RawCardV4
cut_card = record {
  question_brief = codes "What is the plan";
  answer_short = codes "We ship";
  answer_full = codes "We ship today";
  follow_up_line = codes "Is it fine";
  evidence = [];
  next_step = codes "Send mail";
  risk_or_clarifier = none;
}

abbrev cut_text : Text
cut_text =
    codes
      "{\"question_brief\": \"What is the plan\", \"answer_short\": \"We ship\", \"answer_full\": \"We ship today\", \"follow_up_line\": \"Is it fine\", \"evidence\": \"\", \"next_step\": \"Send mail\", \"risk_or"

abbrev good_legacy : RawCardLegacy
good_legacy = record {
  gist = codes "Клиент просит назвать срок релиза.";
  say_now = codes "";
  next_move = codes "Отправлю письмо с владельцем и датой.";
}

abbrev shown_card : AnalysisCardDto
shown_card = record {
  gist = codes "Клиент просит назвать срок релиза.";
  say_now = answer_text (answer_topic basic [] deadline_question) (variant_of deadline_question);
  star_evidence = none;
  risk_or_clarifier = none;
  next_move = codes "Отправлю письмо с владельцем и датой.";
  chars_band = codes "short";
  interview_card_schema_v1 = none;
  answer_short = none;
  answer_full = none;
  follow_up_line = none;
  repair_used = true;
  fallback_used = false;
}

normalize_card-IsSpeakable_example :
    IsSpeakable basic deadline_question
      (limits_for_transcript deadline_question work_default)
      shown_card
    × ◌≡◌ {A = Bool} true true
    × ◌≡◌ {A = Bool} false false
    × ◌≡◌ {A = Bool} true true
    × ◌≡◌ {A = Bool} false false
unfolding normalize_card map_fields validate_section
normalize_card-IsSpeakable_example =
    normalize_card-IsSpeakable basic (legacy good_legacy) deadline_question work_default
      {card = shown_card} {q = record { repair_used = true; fallback_used = false }} refl
