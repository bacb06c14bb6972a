-- ===== src/Card/Recovery.antt =====
-- An answer that was cut off before its closing brace still gives the card, once all its fields but
-- the last are there.
use replyline.Prelude.{
  List, Text, [], all, codes, false, is_empty, not, text_eq, true, ◌++◌, ◌||◌, ◌∷◌, ◌≡◌,
}
use replyline.Card.{RawCardV4}
use replyline.Card.Extraction.{IsLayout, Layout, no_quote, print_fields}

abbrev v4_keys : List Text
v4_keys =
    codes "question_brief"
    ∷ codes "answer_short"
    ∷ codes "answer_full"
    ∷ codes "follow_up_line"
    ∷ codes "evidence"
    ∷ codes "next_step"
    ∷ []

-- The fields of a card in the order in which the model prints them.
abbrev pub v4_fields : RawCardV4 → List (Text × Text)
v4_fields c =
    (codes "question_brief", c.question_brief)
    ∷ (codes "answer_short", c.answer_short)
    ∷ (codes "answer_full", c.answer_full)
    ∷ (codes "follow_up_line", c.follow_up_line)
    ∷ (codes "evidence", c.evidence)
    ∷ (codes "next_step", c.next_step)
    ∷ []

-- A value with no quote in it that is none of the keys.
pub record IsPlainValue (value : Text) : Type 0 where
  pub unquoted : no_quote value ≡ true
  pub no_keys : all (λ key. not (text_eq value key)) v4_keys ≡ true

-- Plain values, of which only the evidence may be empty.
pub record IsPrintable (c : RawCardV4) : Type 0 where
  pub question_brief : IsPlainValue c.question_brief
  pub answer_short : IsPlainValue c.answer_short
  pub answer_full : IsPlainValue c.answer_full
  pub follow_up_line : IsPlainValue c.follow_up_line
  pub evidence : IsPlainValue c.evidence
  pub next_step : IsPlainValue c.next_step
  pub filled :
      (is_empty c.question_brief
        || is_empty c.answer_short
        || is_empty c.answer_full
        || is_empty c.follow_up_line
        || is_empty c.next_step)
      ≡ false

module _ (layout : Layout) (plain : IsLayout layout) (before rest : Text)
    (lead : no_quote before ≡ true) (c : RawCardV4) (v : IsPrintable c) where
  abbrev printed : Text
  printed = before ++ print_fields layout (v4_fields c) rest
