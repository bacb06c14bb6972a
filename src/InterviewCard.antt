-- ===== src/InterviewCard.antt =====
-- The interview card of src-tauri/src/interview_card_v1.rs: its schema, the word limits that a profile
-- sets, the quality gate and what a generation reports. The children read and check an answer of the
-- model and repair it once.
pub mod Parse
pub mod Checks
pub mod Gate
pub mod Generate
pub mod Sound
pub mod Judging
pub mod Outcomes
mod Tests
use replyline.Prelude.{Bool, List, Option, Text, codes, ℕ}
use replyline.Profiles.{AnswerProfileConfig}

pub record BilingualMeta : Type 0 where
  pub session_id : Text
  pub source_segment_ids : List Text
  pub question_ru : Option Text
  pub listening_status : Text

pub data InterviewMode : Type 0 where
  interview_mode : InterviewMode

pub data InterviewQuestionType : Type 0 where
  behavioral technical_question product system_design : InterviewQuestionType
  management hr salary culture_fit unknown : InterviewQuestionType

pub data InterviewConfidence : Type 0 where
  low_confidence medium_confidence high_confidence : InterviewConfidence

pub record InterviewQuestion : Type 0 where
  pub raw_transcript : Text
  pub clean_question : Text
  pub question_type : InterviewQuestionType
  pub interviewer_intent : Text
  pub confidence : InterviewConfidence

pub data InterviewAnswerStructure : Type 0 where
  star_structure case_structure direct_structure clarify_structure : InterviewAnswerStructure

pub record InterviewAnswer : Type 0 where
  pub main : Text
  pub short : Text
  pub strong : Text
  pub structure : InterviewAnswerStructure

pub record InterviewSignals : Type 0 where
  pub must_mention : List Text
  pub keywords : List Text
  pub metrics : List Text
  pub resume_anchors : List Text

pub record InterviewRisks : Type 0 where
  pub weak_points : List Text
  pub avoid : List Text
  pub safe_reframe : Text

pub record InterviewFollowUp : Type 0 where
  pub question : Text
  pub bridge_answer : Text

pub record InterviewClarifier : Type 0 where
  pub needed : Bool
  pub text : Option Text

pub record InterviewCardDto : Type 0 where
  pub mode : InterviewMode
  pub question : InterviewQuestion
  pub answer : InterviewAnswer
  pub signals : InterviewSignals
  pub risks : InterviewRisks
  pub follow_ups : List InterviewFollowUp
  pub clarifier : InterviewClarifier
  pub bilingual_meta : Option BilingualMeta

pub record InterviewWordLimits : Type 0 where
  pub main_min : ℕ
  pub main_max : ℕ
  pub short_max : ℕ
  pub strong_min : ℕ
  pub strong_max : ℕ

unfoldable pub from_profile : AnswerProfileConfig → InterviewWordLimits
from_profile profile = record {
  main_min = profile.answer_word_min;
  main_max = profile.answer_word_max;
  short_max = profile.short_word_max;
  strong_min = profile.answer_word_min;
  strong_max = profile.strong_word_max;
}

pub data InterviewQualityFailureReason : Type 0 where
  invalid_json_after_repair answer_main_too_short : InterviewQualityFailureReason
  answer_main_too_generic missing_direct_answer : InterviewQualityFailureReason
  behavioral_missing_star hallucinated_metric_detected : InterviewQualityFailureReason
  mandatory_clarifier_not_needed empty_signals : InterviewQualityFailureReason

pub record InterviewQualityGate : Type 0 where
  pub passed : Bool
  pub score : ℕ
  pub failed_reasons : List InterviewQualityFailureReason
  pub repairable : Bool

pub record InterviewGenerationTelemetry : Type 0 where
  pub interview_generation_attempts : ℕ
  pub interview_repair_attempted : Bool
  pub interview_repair_success : Bool
  pub duration_ms_per_attempt : List ℕ

pub record InterviewGenerationOutcome : Type 0 where
  pub card : InterviewCardDto
  pub quality_gate : InterviewQualityGate
  pub telemetry : InterviewGenerationTelemetry
  pub risk_note : Option Text

-- `{:?}` of the enumerations.
abbrev pub question_type_debug : InterviewQuestionType → Text
question_type_debug behavioral = codes "Behavioral"
question_type_debug technical_question = codes "Technical"
question_type_debug product = codes "Product"
question_type_debug system_design = codes "SystemDesign"
question_type_debug management = codes "Management"
question_type_debug hr = codes "Hr"
question_type_debug salary = codes "Salary"
question_type_debug culture_fit = codes "CultureFit"
question_type_debug unknown = codes "Unknown"

abbrev pub confidence_debug : InterviewConfidence → Text
confidence_debug low_confidence = codes "Low"
confidence_debug medium_confidence = codes "Medium"
confidence_debug high_confidence = codes "High"

abbrev pub reason_debug : InterviewQualityFailureReason → Text
reason_debug invalid_json_after_repair = codes "InvalidJsonAfterRepair"
reason_debug answer_main_too_short = codes "AnswerMainTooShort"
reason_debug answer_main_too_generic = codes "AnswerMainTooGeneric"
reason_debug missing_direct_answer = codes "MissingDirectAnswer"
reason_debug behavioral_missing_star = codes "BehavioralMissingStar"
reason_debug hallucinated_metric_detected = codes "HallucinatedMetricDetected"
reason_debug mandatory_clarifier_not_needed = codes "MandatoryClarifierNotNeeded"
reason_debug empty_signals = codes "EmptySignals"
