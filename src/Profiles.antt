-- ===== src/Profiles.antt =====
-- The answer profiles of src-tauri/src/prompt_registry.rs: their table, the aliases of former ids and
-- the lookup by id.
use replyline.Prelude.{List, Text, [], codes, find, if◌then◌else◌, none, some, text_eq, ℕ, ◌∷◌}

pub data AnswerProfileMode : Type 0 where
  work_conversation : AnswerProfileMode

pub data StructurePreference : Type 0 where
  star case direct technical executive : StructurePreference

pub data ClarifierPolicy : Type 0 where
  only_when_blocked allow_when_ambiguous never_default : ClarifierPolicy

pub data AntiHallucinationLevel : Type 0 where
  strict high standard : AntiHallucinationLevel

pub record AnswerProfileConfig : Type 0 where
  pub id : Text
  pub title : Text
  pub description : Text
  pub mode : AnswerProfileMode
  pub prompt_version : Text
  pub schema_version : Text
  pub answer_word_min : ℕ
  pub answer_word_max : ℕ
  pub short_word_max : ℕ
  pub strong_word_max : ℕ
  pub tone : Text
  pub structure_preference : StructurePreference
  pub clarifier_policy : ClarifierPolicy
  pub anti_hallucination_level : AntiHallucinationLevel

abbrev interview_prompt_version : Text
interview_prompt_version = codes "interview-v1"

abbrev interview_schema_version : Text
interview_schema_version = codes "InterviewCardSchemaV1"

abbrev pub default_answer_profile_id : Text
default_answer_profile_id = codes "work_default"

abbrev pub work_default : AnswerProfileConfig
work_default = record {
  id = codes "work_default";
  title = codes "Work Default";
  description = codes "Balanced answer: speakable reply with reasoning, concrete next step.";
  mode = work_conversation;
  prompt_version = interview_prompt_version;
  schema_version = interview_schema_version;
  answer_word_min = 18;
  answer_word_max = 180;
  short_word_max = 56;
  strong_word_max = 90;
  tone = codes "clear, calm, confident";
  structure_preference = direct;
  clarifier_policy = allow_when_ambiguous;
  anti_hallucination_level = high;
}

abbrev pub work_concise : AnswerProfileConfig
work_concise = record {
  id = codes "work_concise";
  title = codes "Work Concise";
  description = codes "Short answer first, then one concrete action.";
  mode = work_conversation;
  prompt_version = interview_prompt_version;
  schema_version = interview_schema_version;
  answer_word_min = 12;
  answer_word_max = 80;
  short_word_max = 42;
  strong_word_max = 56;
  tone = codes "brief, direct, practical";
  structure_preference = direct;
  clarifier_policy = only_when_blocked;
  anti_hallucination_level = strict;
}

abbrev pub work_structured : AnswerProfileConfig
work_structured = record {
  id = codes "work_structured";
  title = codes "Work Structured";
  description = codes "Structured answer with explicit situation-action-result logic.";
  mode = work_conversation;
  prompt_version = interview_prompt_version;
  schema_version = interview_schema_version;
  answer_word_min = 24;
  answer_word_max = 180;
  short_word_max = 60;
  strong_word_max = 100;
  tone = codes "structured, concrete, outcome-oriented";
  structure_preference = star;
  clarifier_policy = allow_when_ambiguous;
  anti_hallucination_level = high;
}

abbrev pub work_executive : AnswerProfileConfig
work_executive = record {
  id = codes "work_executive";
  title = codes "Work Executive";
  description = codes "Executive tone: crisp recommendation, risk framing, accountable next step.";
  mode = work_conversation;
  prompt_version = interview_prompt_version;
  schema_version = interview_schema_version;
  answer_word_min = 20;
  answer_word_max = 140;
  short_word_max = 54;
  strong_word_max = 84;
  tone = codes "confident, concise, accountable";
  structure_preference = executive;
  clarifier_policy = only_when_blocked;
  anti_hallucination_level = strict;
}

abbrev pub work_technical : AnswerProfileConfig
work_technical = record {
  id = codes "work_technical";
  title = codes "Work Technical";
  description = codes "Technical explanation with assumptions, mechanism, and tradeoffs.";
  mode = work_conversation;
  prompt_version = interview_prompt_version;
  schema_version = interview_schema_version;
  answer_word_min = 24;
  answer_word_max = 180;
  short_word_max = 64;
  strong_word_max = 100;
  tone = codes "technical, precise, direct";
  structure_preference = technical;
  clarifier_policy = allow_when_ambiguous;
  anti_hallucination_level = strict;
}

abbrev pub work_product : AnswerProfileConfig
work_product = record {
  id = codes "work_product";
  title = codes "Work Product";
  description = codes "Product framing with user impact, tradeoff, and decision path.";
  mode = work_conversation;
  prompt_version = interview_prompt_version;
  schema_version = interview_schema_version;
  answer_word_min = 22;
  answer_word_max = 160;
  short_word_max = 58;
  strong_word_max = 92;
  tone = codes "product-minded, pragmatic, user-focused";
  structure_preference = case;
  clarifier_policy = allow_when_ambiguous;
  anti_hallucination_level = high;
}

abbrev pub work_people : AnswerProfileConfig
work_people = record {
  id = codes "work_people";
  title = codes "Work People";
  description = codes "Professional people-oriented framing with policy-safe wording.";
  mode = work_conversation;
  prompt_version = interview_prompt_version;
  schema_version = interview_schema_version;
  answer_word_min = 18;
  answer_word_max = 140;
  short_word_max = 52;
  strong_word_max = 82;
  tone = codes "professional, respectful, policy-aware";
  structure_preference = direct;
  clarifier_policy = only_when_blocked;
  anti_hallucination_level = strict;
}

abbrev pub profiles : List AnswerProfileConfig
profiles =
    work_default ∷ work_concise ∷ work_structured ∷ work_executive ∷ work_technical ∷ work_product
    ∷ work_people ∷ []

abbrev profile_aliases : List (Text × Text)
profile_aliases =
    (codes "interview_default", codes "work_default")
    ∷ (codes "interview_concise", codes "work_concise")
    ∷ (codes "interview_star", codes "work_structured")
    ∷ (codes "interview_executive", codes "work_executive")
    ∷ (codes "interview_technical", codes "work_technical")
    ∷ (codes "interview_product", codes "work_product")
    ∷ (codes "interview_hr", codes "work_people")
    ∷ []

resolve_in : List (Text × Text) → Text → Text
resolve_in [] id = id
resolve_in ((alias, target) ∷ aliases) id =
    if text_eq alias id then target else resolve_in aliases id

unfoldable pub resolve_alias : Text → Text
unfolding resolve_in
resolve_alias id = resolve_in profile_aliases id

-- `expect`: the default stands in the table, so its absence is not modelled.
unfoldable pub default_answer_profile : AnswerProfileConfig
default_answer_profile = elim (find (λ p. text_eq p.id default_answer_profile_id) profiles) [
  | some profile ↦ profile
  | none ↦ work_default
]

unfoldable pub resolve_answer_profile : Text → AnswerProfileConfig
unfolding resolve_alias default_answer_profile
resolve_answer_profile id = elim (find (λ p. text_eq p.id (resolve_alias id)) profiles) [
  | some profile ↦ profile
  | none ↦ default_answer_profile
]
