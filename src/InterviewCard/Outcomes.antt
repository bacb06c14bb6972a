-- ===== src/InterviewCard/Outcomes.antt =====
-- How a generation of src-tauri/src/interview_card_v1.rs ends: with a sound card after one or two
-- requests, or with the safe card.
use replyline.Prelude.{
  List, [], length, ◌∷◌, Bool, Result, Text, ap, err, false, first_step, inl, inr, map_err, not, ok,
  refl, some, subst, sym, true, ℕ, ◌==◌, ◌||◌, ◌≡◌, ◌⊎◌,
}
use replyline.Prelude.Unicode.{Unicode}
use replyline.Profiles.{AnswerProfileConfig}
use replyline.Card.Parse.{CardFailure, refused}
use replyline.InterviewCard.{
  InterviewCardDto, InterviewGenerationOutcome, InterviewQualityGate, from_profile,
}
use replyline.InterviewCard.Generate.{
  Requests, attempt, build_interview_repair_user_prompt, build_interview_system_prompt,
  build_interview_user_prompt, evaluate_quality_gate, first_card,
  generate_interview_card_with_conditional_repair, judge, passed_outcome, repair_once,
}
use replyline.InterviewCard.Judging.{
  IsFallback, IsPassed, judge-cases, outcome-eq, evaluated-repairable, passed-IsPassed, if-no,
  cannot_stop, ok_eq,
}

-- What the telemetry says: how many requests, how long each took, and whether the second repaired.
pub record Took (durations : List ℕ) (success : Bool) (o : InterviewGenerationOutcome)
    : Type 0 where
  pub attempts : o.telemetry.interview_generation_attempts ≡ length durations
  pub attempted : o.telemetry.interview_repair_attempted ≡ (length durations == 2)
  pub succeeded : o.telemetry.interview_repair_success ≡ success
  pub lasted : o.telemetry.duration_ms_per_attempt ≡ durations

module _ (requests : Requests) (u : Unicode) (t context language : Text)
    (p : AnswerProfileConfig) where
  -- An answer of the model, and the judgement of the gate on it.
  pub record Judged (answer : Result Text Text) (raw : Text) (gate : InterviewQualityGate)
      : Type 0 where
    pub answered : answer ≡ ok raw
    pub found :
        evaluate_quality_gate u (attempt requests u raw t (from_profile p)) t (from_profile p)
        ≡ some gate

  abbrev first_answer : Result Text Text
  first_answer =
      requests.first (build_interview_system_prompt language)
        (build_interview_user_prompt t context language) 700

  abbrev second_answer : InterviewQualityGate → Text → Result Text Text
  second_answer gate raw =
      requests.second (build_interview_system_prompt language)
        (build_interview_repair_user_prompt t context language gate
          (first_card (attempt requests u raw t (from_profile p))))
        700

  -- One request: the gate passes the card of its answer, and whatever a second one would have
  -- brought the outcome is this.
  pub record IsFirst (o : InterviewGenerationOutcome) : Type 0 where
    pub raw : Text
    pub judged : Judged first_answer raw o.quality_gate
    pub made : attempt requests u raw t (from_profile p) ≡ ok o.card
    pub passed : IsPassed u t (from_profile p) o
    pub took : Took (requests.first_ms ∷ []) false o
    pub alone :
        (second : Text → Text → ℕ → Result Text Text) (second_ms : ℕ)
        → generate_interview_card_with_conditional_repair
            (record requests { second = second; second_ms = second_ms })
            u
            t
            context
            language
            p
          ≡ ok o

  -- Two requests: the gate refuses the answer to the first, and judges that to the second, which
  -- names what was refused.
  pub record IsSecond (o : InterviewGenerationOutcome) : Type 0 where
    pub raw : Text
    pub first_gate : InterviewQualityGate
    pub judged : Judged first_answer raw first_gate
    pub refused : first_gate.passed ≡ false
    pub again : Text
    pub judged_again : Judged (second_answer first_gate raw) again o.quality_gate
    pub ended :
        (IsPassed u t (from_profile p) o
          × (attempt requests u again t (from_profile p) ≡ ok o.card)
          × Took (requests.first_ms ∷ requests.second_ms ∷ []) true o)
        ⊎ (IsFallback t o × Took (requests.first_ms ∷ requests.second_ms ∷ []) false o)

map_err-ok : {A E F : Type 0} (f : E → F) (r : Result A E) {a : A} → map_err f r ≡ ok a → r ≡ ok a
map_err-ok f (ok b) e = ap (λ x. ok x) (ok_eq e)
map_err-ok f (err x) e = cc

module _ (requests : Requests) (u : Unicode) (t context language : Text)
    (p : AnswerProfileConfig) where
  abbrev tried : Text → Result InterviewCardDto CardFailure
  tried raw = attempt requests u raw t (from_profile p)

  repair_once-IsSecond :
      (raw : Text) (gate : InterviewQualityGate)
      → Judged requests u t context language p
          (first_answer requests u t context language p)
          raw
          gate
      → gate.passed ≡ false
      → {o : InterviewGenerationOutcome}
      → repair_once requests u t context language (from_profile p) gate (tried raw) ≡ ok o
      → IsSecond requests u t context language p o
  unfolding repair_once
  repair_once-IsSecond raw gate judged refused_first {o} e =
      let limits = from_profile p in
      let answer = second_answer requests u t context language p gate raw in
      let (again, chain, answered) = first_step (map_err refused answer) _ (sym e) in
      let (second, found, cases) = judge-cases u (tried again) t limits _ _ (sym chain) in
      let at : InterviewGenerationOutcome → Type 0 = IsSecond requests u t context language p in
      elim cases [
        | inl (passed, (card, same, ended)) ↦ subst at (outcome-eq ended) (record {
          raw = raw;
          first_gate = gate;
          judged = judged;
          refused = refused_first;
          again = again;
          judged_again = record { answered = map_err-ok refused answer answered; found = found };
          ended = inl (
            passed-IsPassed requests u again t limits _ found passed same,
            same,
            record { attempts = refl; attempted = refl; succeeded = refl; lasted = refl },
          );
        })
        | inr (failed, ended) ↦ subst at (outcome-eq ended) (record {
          raw = raw;
          first_gate = gate;
          judged = judged;
          refused = refused_first;
          again = again;
          judged_again = record { answered = map_err-ok refused answer answered; found = found };
          ended = inr (
            record { refused_gate = failed; safe = refl; noted = (_, refl) },
            record { attempts = refl; attempted = refl; succeeded = refl; lasted = refl },
          );
        })
      ]

  -- A first answer that passes ends the generation.
  passes_first :
      (raw : Text) (gate : InterviewQualityGate) (card : InterviewCardDto)
      → first_answer requests u t context language p ≡ ok raw
      → evaluate_quality_gate u (tried raw) t (from_profile p) ≡ some gate
      → gate.passed ≡ true
      → tried raw ≡ ok card
      → generate_interview_card_with_conditional_repair requests u t context language p
        ≡ ok (
            passed_outcome card gate (record {
              interview_generation_attempts = 1;
              interview_repair_attempted = false;
              interview_repair_success = false;
              duration_ms_per_attempt = requests.first_ms ∷ [];
            }))
  unfolding generate_interview_card_with_conditional_repair judge
  passes_first raw gate card answered found passed same =
      rw (answered, generate_interview_card_with_conditional_repair, found, judge, passed, same)

-- A generation that ends without an error ends in one of two ways. The gate passes the card of the
-- answer to the first request: then no second is made, the outcome being the same whatever it would
-- bring, and the telemetry has one request, without a repair. Or the gate refuses that answer, the
-- second request names the failures to the model, and its answer is judged: the outcome has its card,
-- if the gate passes it, and a repair that succeeded, or else the safe card with a note and a repair
-- that failed, and the telemetry has two requests with their times. A card of the model is validated:
-- every metric and anchor of it stands in the transcript, its words are within the limits of the
-- profile and it has an answer, signals and no needless clarifier.
pub generate_interview_card_ends :
    (requests : Requests) (u : Unicode) (t context language : Text) (p : AnswerProfileConfig)
    {o : InterviewGenerationOutcome}
    → generate_interview_card_with_conditional_repair requests u t context language p ≡ ok o
    → IsFirst requests u t context language p o ⊎ IsSecond requests u t context language p o
unfolding generate_interview_card_with_conditional_repair attempt
generate_interview_card_ends requests u t context language p e =
    let limits = from_profile p in
    let answer = first_answer requests u t context language p in
    let (raw, chain, answered) = first_step (map_err refused answer) _ (sym e) in
    let asked = map_err-ok refused answer answered in
    let (gate, found, cases) =
      judge-cases u (tried requests u t context language p raw) t limits _ _ (sym chain) in
    elim cases [
      | inl (passed, (card, same, ended)) ↦ inl (
          subst (IsFirst requests u t context language p) (outcome-eq ended) (record {
            raw = raw;
            judged = record { answered = asked; found = found };
            made = same;
            passed = passed-IsPassed requests u raw t limits _ found passed same;
            took = record { attempts = refl; attempted = refl; succeeded = refl; lasted = refl };
            alone = λ second second_ms.
                passes_first (record requests { second = second; second_ms = second_ms }) u t
                  context language p raw gate card asked found passed same;
          }))
      | inr (failed, ended) ↦ inr (
          repair_once-IsSecond requests u t context language p raw gate
            (record { answered = asked; found = found }) failed
            (if-no (not gate.repairable || 1 == 0) _ _
              (cannot_stop gate
                (evaluated-repairable u (tried requests u t context language p raw) t limits found))
              ended))
    ]
