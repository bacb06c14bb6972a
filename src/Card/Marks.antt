-- ===== src/Card/Marks.antt =====
-- When a card is marked as repaired or as fallen back: src-tauri/src/card_v3.rs.
use replyline.Prelude.{
  Bool, Bool-cases, Result, Result-cases, Text, ap, arith, codes, contains, false, if◌then◌else◌,
  inl, inr, is_ok, not, ok, refl, sym, true, ◌&&◌, ◌||◌, ◌∙◌, ◌≡◌,
}
use replyline.Prelude.Unicode.{Unicode}
use replyline.Card.{CardLimits, CardQualityFlags, no_repairs, trim_line}
use replyline.Card.Validate.{
  Section, answer_now_section, next_step_section, question_brief_section, validate_section,
}
use replyline.Card.Normalize.{is_answer, recheck, repair_section, repaired, section_max}

-- Whether the check refuses a section as the model answered it.
abbrev pub is_refused : Unicode → Text → Text → Section → CardLimits → Bool
is_refused u value t section limits =
    not (is_ok (validate_section u (trim_line value (section_max section limits)) t section limits))

abbrev is_step : Section → Bool
is_step next_step_section = true
is_step _ = false

-- The mark of a repaired section.
abbrev pub marked : Section → CardQualityFlags → CardQualityFlags
marked question_brief_section q = record q { repair_used = true }
marked answer_now_section q = record q { repair_used = true }
marked next_step_section q = record q { fallback_used = true }

repaired-marked :
    (u : Unicode) (current t : Text) (section : Section) (limits : CardLimits)
    (q : CardQualityFlags)
    → (repaired u current t section limits q).0 ≡ marked section q
unfolding repaired
repaired-marked u current t question_brief_section limits q = refl
repaired-marked u current t answer_now_section limits q = refl
repaired-marked u current t next_step_section limits q = refl

ok-flags :
    {q q' : CardQualityFlags} {s t : Text}
    → ◌≡◌ {A = Result (CardQualityFlags × Text) Text} (ok (q, s)) (ok (q', t))
    → q ≡ q'
ok-flags e = cc

recheck-flags :
    (u : Unicode) (t : Text) (section : Section) (limits : CardLimits) (reason : Text)
    (made : CardQualityFlags × Text) {q' : CardQualityFlags} {s : Text}
    → recheck u t section limits reason made ≡ ok (q', s)
    → made.0 ≡ q'
unfolding recheck
recheck-flags u t section limits reason (quality, text) e =
    elim (Result-cases
      (validate_section u (trim_line text (section_max section limits)) t section limits)) [
        | inl (retry, f) ↦ cc (rw (f, recheck) at e)
        | inr (tt, f) ↦ ok-flags (rw (f, recheck) at e)
      ]

-- A section that is returned is marked exactly if the check refused it.
pub repair_section-marked :
    (u : Unicode) (value t : Text) (section : Section) (limits : CardLimits) (q : CardQualityFlags)
    {q' : CardQualityFlags} {s : Text}
    → repair_section u value t section limits q ≡ ok (q', s)
    → (if is_refused u value t section limits then marked section q else q) ≡ q'
unfolding repair_section
repair_section-marked u value t section limits q e =
    let current = trim_line value (section_max section limits) in
    elim (Result-cases (validate_section u current t section limits)) [
      | inl (reason, f) ↦
          elim (Bool-cases (is_answer section && contains reason (codes "apology-only"))) [
            | inl apology ↦ cc (rw (f, repair_section, apology) at e)
            | inr sincere ↦ rw f (
                sym (repaired-marked u current t section limits q)
                ∙ recheck-flags u t section limits reason (repaired u current t section limits q)
                    (rw (f, repair_section, sincere) at e))
          ]
      | inr (tt, f) ↦ rw f (ok-flags (rw (f, repair_section) at e))
    ]

repairs-marked :
    (section : Section) (refused : Bool) (q q' : CardQualityFlags)
    → (if refused then marked section q else q) ≡ q'
    → (q'.repair_used ≡ (refused && not (is_step section) || q.repair_used))
      × (q'.fallback_used ≡ (refused && is_step section || q.fallback_used))
repairs-marked question_brief_section true q q' e =
    (sym (ap (λ r. r.repair_used) e), sym (ap (λ r. r.fallback_used) e))
repairs-marked answer_now_section true q q' e =
    (sym (ap (λ r. r.repair_used) e), sym (ap (λ r. r.fallback_used) e))
repairs-marked next_step_section true q q' e =
    (sym (ap (λ r. r.repair_used) e), sym (ap (λ r. r.fallback_used) e))
repairs-marked section false q q' e =
    (sym (ap (λ r. r.repair_used) e), sym (ap (λ r. r.fallback_used) e))

-- The marks of the three sections together.
pub three_marks :
    (brief answer step : Bool) (q1 q2 q3 : CardQualityFlags)
    → (if brief then marked question_brief_section no_repairs else no_repairs) ≡ q1
    → (if answer then marked answer_now_section q1 else q1) ≡ q2
    → (if step then marked next_step_section q2 else q2) ≡ q3
    → (q3.repair_used ≡ (brief || answer)) × (q3.fallback_used ≡ step)
three_marks brief answer step q1 q2 q3 e1 e2 e3 =
    let (r1, f1) = repairs-marked question_brief_section brief no_repairs q1 e1 in
    let (r2, f2) = repairs-marked answer_now_section answer q1 q2 e2 in
    let (r3, f3) = repairs-marked next_step_section step q2 q3 e3 in
    ground (arith, r1, r2, r3, f1, f2, f3)
