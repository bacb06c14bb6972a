-- ===== src/InterviewCard/Judging.antt =====
-- The judgement of the gate on a card: src-tauri/src/interview_card_v1.rs.
use replyline.Prelude.{
  Bool, Option-cases, Result, Text, ap, err, false, first_step, if◌then◌else◌, inl, inr, none, not,
  ok, refl, some, sym, true, ◌==◌, ◌||◌, ◌∙◌, ◌≡◌, ◌⊎◌,
}
use replyline.Prelude.Unicode.{Unicode}
use replyline.Card.Parse.{CardFailure, panicked, refused}
use replyline.InterviewCard.{
  InterviewCardDto, InterviewGenerationOutcome, InterviewGenerationTelemetry, InterviewQualityGate,
  InterviewWordLimits,
}
use replyline.InterviewCard.Parse.{parse_interview_card_json}
use replyline.InterviewCard.Gate.{card_reasons, gate_of}
use replyline.InterviewCard.Generate.{
  Requests, attempt, build_safe_fallback_card, evaluate_quality_gate, judge, passed_outcome,
}
use replyline.InterviewCard.Sound.{
  IsFree, IsValidated, card_reasons-IsFree, normalize_and_validate-IsValidated,
}

-- The card of the model, which the validation and the gate let pass.
pub record IsPassed (u : Unicode) (t : Text) (limits : InterviewWordLimits)
    (o : InterviewGenerationOutcome) : Type 0 where
  pub passed : o.quality_gate.passed ≡ true
  pub validated : IsValidated u t limits o.card
  pub free : IsFree u t o.card
  pub no_note : o.risk_note ≡ none

-- The safe card, with a note.
pub record IsFallback (t : Text) (o : InterviewGenerationOutcome) : Type 0 where
  pub refused_gate : o.quality_gate.passed ≡ false
  pub safe : o.card ≡ build_safe_fallback_card t o.quality_gate.failed_reasons
  pub noted : (note : Text) × (o.risk_note ≡ some note)

abbrev Continue : Type 0
Continue = Result InterviewGenerationOutcome CardFailure

if-either {ℓ} :
    {A : Type ℓ} (b : Bool) (x y : A) {r : A}
    → (if b then x else y) ≡ r
    → ((b ≡ true) × (x ≡ r)) ⊎ ((b ≡ false) × (y ≡ r))
if-either true x y e = inl (refl, e)
if-either false x y e = inr (refl, e)

pub judge-cases :
    (u : Unicode) (tried : Result InterviewCardDto CardFailure) (t : Text)
    (limits : InterviewWordLimits) (pass : InterviewCardDto → InterviewQualityGate → Continue)
    (fail : InterviewQualityGate → Continue) {o : InterviewGenerationOutcome}
    → judge u tried t limits pass fail ≡ ok o
    → (gate : InterviewQualityGate) × (evaluate_quality_gate u tried t limits ≡ some gate)
      × (((gate.passed ≡ true)
            × ((card : InterviewCardDto) × (tried ≡ ok card) × (pass card gate ≡ ok o)))
          ⊎ ((gate.passed ≡ false) × (fail gate ≡ ok o)))
unfolding judge
judge-cases u tried t limits pass fail e =
    elim (Option-cases (evaluate_quality_gate u tried t limits)) [
      | inl nothing ↦ cc (rw (nothing, judge) at e)
      | inr (gate, found) ↦ elim (if-either gate.passed _ _ (rw (found, judge) at e)) [
        | inl (passed, chain) ↦
            let (card, later, same) = first_step tried (λ card. pass card gate) (sym chain) in
            (gate, found, inl (passed, (card, same, sym later)))
        | inr (failed, ended) ↦ (gate, found, inr (failed, ended))
      ]
    ]

attempt-IsValidated :
    (requests : Requests) (u : Unicode) (raw t : Text) (limits : InterviewWordLimits)
    {card : InterviewCardDto}
    → attempt requests u raw t limits ≡ ok card
    → IsValidated u t limits card
unfolding attempt
attempt-IsValidated requests u raw t limits e =
    let (parsed, checked, _) =
      first_step (parse_interview_card_json requests.from_str u raw) _ (sym e) in
    normalize_and_validate-IsValidated u parsed t limits (sym checked)

gate-eq : {a b : InterviewQualityGate} → some a ≡ some b → a ≡ b
gate-eq e = cc

pub ok_eq {ℓ κ} : {A : Type ℓ} {E : Type κ} {a b : A} → ◌≡◌ {A = Result A E} (ok a) (ok b) → a ≡ b
ok_eq e = cc

pub outcome-eq : {a b : InterviewGenerationOutcome} → ◌≡◌ {A = Continue} (ok a) (ok b) → a ≡ b
outcome-eq e = cc

gate-IsFree :
    (u : Unicode) (tried : Result InterviewCardDto CardFailure) (t : Text)
    (limits : InterviewWordLimits) {gate : InterviewQualityGate} {card : InterviewCardDto}
    → tried ≡ ok card
    → evaluate_quality_gate u tried t limits ≡ some gate
    → gate.passed ≡ true
    → IsFree u t card
unfolding evaluate_quality_gate gate_of
gate-IsFree u tried t limits {gate} {card} same found passed =
    let judged : some (gate_of (card_reasons u card t limits)) ≡ some gate = rw same at found in
    card_reasons-IsFree u card t limits (ap (λ g. g.passed) (gate-eq judged) ∙ passed)

pub evaluated-repairable :
    (u : Unicode) (tried : Result InterviewCardDto CardFailure) (t : Text)
    (limits : InterviewWordLimits) {gate : InterviewQualityGate}
    → evaluate_quality_gate u tried t limits ≡ some gate
    → gate.repairable ≡ true
unfolding evaluate_quality_gate gate_of
evaluated-repairable u (ok card) t limits e = ap (λ g. g.repairable) (sym (gate-eq e))
evaluated-repairable u (err (refused reason)) t limits e = ap (λ g. g.repairable) (sym (gate-eq e))
evaluated-repairable u (err panicked) t limits e = cc

pub passed-IsPassed :
    (requests : Requests) (u : Unicode) (raw t : Text) (limits : InterviewWordLimits)
    (telemetry : InterviewGenerationTelemetry) {gate : InterviewQualityGate}
    {card : InterviewCardDto}
    → evaluate_quality_gate u (attempt requests u raw t limits) t limits ≡ some gate
    → gate.passed ≡ true
    → attempt requests u raw t limits ≡ ok card
    → IsPassed u t limits (passed_outcome card gate telemetry)
passed-IsPassed requests u raw t limits telemetry found passed same = record {
  passed = passed;
  validated = attempt-IsValidated requests u raw t limits same;
  free = gate-IsFree u (attempt requests u raw t limits) t limits same found passed;
  no_note = refl;
}

pub if-no {ℓ} :
    {A : Type ℓ} (b : Bool) (x y : A) {r : A} → b ≡ false → (if b then x else y) ≡ r → y ≡ r
if-no true x y h e = cc
if-no false x y h e = e

pub cannot_stop :
    (gate : InterviewQualityGate) → gate.repairable ≡ true → (not gate.repairable || 1 == 0) ≡ false
cannot_stop gate e = ap (λ b. not b || 1 == 0) e
