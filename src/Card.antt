-- ===== src/Card.antt =====
-- The cards of src-tauri/src/card_v3.rs: the three shapes that a model may answer with, the limits
-- that a transcript and an answer profile set, and the marks of a repair. The children parse an
-- answer, check and repair its sections and build the card that is shown.
pub mod Words
pub mod Parse
pub mod Validate
pub mod Fallback
pub mod Repair
pub mod Normalize
pub mod Texts
pub mod Steps
pub mod Answers
pub mod Marks
pub mod Valid
pub mod Panics
pub mod Extraction
pub mod Recovery
mod Tests
use replyline.Prelude.{
  Bool, Option, Text, codes, false, if◌then◌else◌, leb, length, min, take, trim, ℕ,
}
use replyline.Prelude.Slices.{replace_char}
use replyline.Profiles.{AnswerProfileConfig}

pub record RawCardV4 : Type 0 where
  pub question_brief : Text
  pub answer_short : Text
  pub answer_full : Text
  pub follow_up_line : Text
  pub evidence : Text
  pub next_step : Text
  pub risk_or_clarifier : Option Text

pub record RawCardV3 : Type 0 where
  pub question_brief : Text
  pub answer_now : Text
  pub star_evidence : Text
  pub next_step : Text
  pub risk_or_clarifier : Option Text

pub record RawCardLegacy : Type 0 where
  pub gist : Text
  pub say_now : Text
  pub next_move : Text

pub data ParsedCard : Type 0 where
  v4 : RawCardV4 → ParsedCard
  v3 : RawCardV3 → ParsedCard
  legacy : RawCardLegacy → ParsedCard

pub record CardFields : Type 0 where
  pub gist : Text
  pub say_now : Text
  pub next_move : Text
  pub star_evidence : Option Text
  pub risk_or_clarifier : Option Text
  pub answer_short : Option Text
  pub answer_full : Option Text
  pub follow_up_line : Option Text

pub record CardLimits : Type 0 where
  pub question_brief : ℕ
  pub answer_now : ℕ
  pub star_evidence : ℕ
  pub next_step : ℕ
  pub answer_min_words : ℕ
  pub answer_max_words : ℕ

pub record CardQualityFlags : Type 0 where
  pub repair_used : Bool
  pub fallback_used : Bool

-- `CardQualityFlags::default()`.
abbrev pub no_repairs : CardQualityFlags
no_repairs = record { repair_used = false; fallback_used = false }

pub data Band : Type 0 where
  short medium long : Band

unfoldable pub band_of : Text → Band
band_of transcript =
    if leb (length transcript) 40
    then short
    else if leb (length transcript) 120
    then medium
    else long

abbrev pub band_text : Band → Text
band_text short = codes "short"
band_text medium = codes "medium"
band_text long = codes "long"

unfoldable pub chars_band : Text → Text
unfolding band_of
chars_band transcript = band_text (band_of transcript)

-- The arms on `chars_band` are those on the band itself.
unfoldable pub limits_for_band : Band → AnswerProfileConfig → CardLimits
limits_for_band short profile = record {
  question_brief = 120;
  answer_now = 800;
  star_evidence = 160;
  next_step = 140;
  answer_min_words = min profile.answer_word_min profile.short_word_max;
  answer_max_words = min profile.answer_word_max profile.short_word_max;
}
limits_for_band medium profile = record {
  question_brief = 140;
  answer_now = 1400;
  star_evidence = 220;
  next_step = 180;
  answer_min_words = profile.answer_word_min;
  answer_max_words = min profile.answer_word_max profile.strong_word_max;
}
limits_for_band long profile = record {
  question_brief = 160;
  answer_now = 1800;
  star_evidence = 260;
  next_step = 200;
  answer_min_words = profile.answer_word_min;
  answer_max_words = min profile.answer_word_max profile.strong_word_max;
}

unfoldable pub limits_for_transcript : Text → AnswerProfileConfig → CardLimits
unfolding band_of limits_for_band
limits_for_transcript transcript profile = limits_for_band (band_of transcript) profile

unfoldable pub trim_line : Text → ℕ → Text
unfolding replace_char trim
trim_line value max_chars =
    let clean = trim (replace_char 10 32 value) in
    if leb (length clean) max_chars then clean else take max_chars clean
