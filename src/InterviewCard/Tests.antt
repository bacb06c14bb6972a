-- ===== src/InterviewCard/Tests.antt =====
-- A generation at concrete answers.
use replyline.Prelude.{
  ◌⊎◌, Text, [], codes, false, if◌then◌else◌, none, ok, refl, some, text_eq, true, ◌∷◌, ◌≡◌,
}
use replyline.Prelude.Unicode.{basic}
use replyline.Profiles.{work_default}
use replyline.InterviewCard.{
  InterviewGenerationOutcome, InterviewCardDto, direct_structure, high_confidence, interview_mode,
  management,
}
use replyline.InterviewCard.Parse.{extract_json_object}
use replyline.InterviewCard.Gate.{gate_of}
use replyline.InterviewCard.Generate.{
  Requests, generate_interview_card_with_conditional_repair, judge, passed_outcome,
}
use replyline.InterviewCard.Outcomes.{IsFirst, IsSecond, generate_interview_card_ends}

-- The object is cut out of the prose, and a brace in a string does not end it.
cuts_object :
    extract_json_object (codes "Sure: {\"a\": {\"b\": \"}\"}} as asked {")
    ≡ some (codes "{\"a\": {\"b\": \"}\"}}")
unfolding extract_json_object
cuts_object = refl

abbrev long_answer : Text
long_answer =
    codes
      "I would first confirm the exact scope of the work and then share a short plan with an owner today."

abbrev good_card : InterviewCardDto
good_card = record {
  mode = interview_mode;
  question = record {
    raw_transcript = codes "How do you plan?";
    clean_question = codes "How do you plan?";
    question_type = management;
    interviewer_intent = codes "planning";
    confidence = high_confidence;
  };
  answer = record {
    main = long_answer;
    short = codes "I would confirm the scope.";
    strong = long_answer;
    structure = direct_structure;
  };
  signals = record {
    must_mention = codes "scope" ∷ [];
    keywords = [];
    metrics = codes "plan" ∷ [];
    resume_anchors = [];
  };
  risks = record { weak_points = []; avoid = []; safe_reframe = codes "I keep to facts." };
  follow_ups = [];
  clarifier = record { needed = false; text = none };
  bilingual_meta = none;
}

-- The first answer is prose; the second holds the card.
abbrev repaired_requests : Requests
repaired_requests = record {
  from_str = λ s. if text_eq s (codes "{card}") then some good_card else none;
  first = λ system_prompt user_prompt max_tokens. ok (codes "no card");
  second = λ system_prompt user_prompt max_tokens. ok (codes "Here: {card}");
  first_ms = 900;
  second_ms = 700;
}

abbrev repaired_outcome : InterviewGenerationOutcome
repaired_outcome = passed_outcome good_card (gate_of []) (record {
  interview_generation_attempts = 2;
  interview_repair_attempted = true;
  interview_repair_success = true;
  duration_ms_per_attempt = 900 ∷ 700 ∷ [];
})

generate_interview_card_ends_example :
    IsFirst repaired_requests basic
      (codes "How do you plan?")
      []
      (codes "en")
      work_default
      repaired_outcome
    ⊎ IsSecond repaired_requests basic
        (codes "How do you plan?")
        []
        (codes "en")
        work_default
        repaired_outcome
unfolding generate_interview_card_with_conditional_repair judge
generate_interview_card_ends_example =
    generate_interview_card_ends repaired_requests basic (codes "How do you plan?") [] (codes "en")
      work_default refl
