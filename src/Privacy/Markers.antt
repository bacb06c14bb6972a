-- ===== src/Privacy/Markers.antt =====
-- What follows a marker is redacted.
use mathlib.Core.List.{append_assoc}
use replyline.Prelude.{
  ==_iff, Bool, Bool-cases, Option-cases, Text, [], all, ap, arith, codes, contains, contains_char,
  drop, false, inl, inr, is_empty, length, length-append, length_pos, map, none, not, refl, some,
  starts_with, subst, sym, true, ℕ, ◌&&◌, ◌++◌, ◌<◌, ◌==◌, ◌||◌, ◌∙◌, ◌∷◌, ◌≡◌, ◌≤◌,
}
use replyline.Prelude.Slices.{before_first}
use replyline.Prelude.Unicode.{basic_lower, is_basic}
use replyline.Card.Texts.{and-both, some-injective}
use replyline.Privacy.{redacted_mark}

-- Wherever the marker stands in the text, the mark of a redaction follows.
abbrev pub guarded : Text → Text → Bool
guarded m [] = true
guarded m (c ∷ s) =
    (not (starts_with (c ∷ s) m) || starts_with (drop (length m) (c ∷ s)) redacted_mark)
    && guarded m s

-- A marker in lower case that has nothing in common with the mark of a redaction.
pub record IsMarker (m : Text) : Type 0 where
  pub known : all is_basic m ≡ true
  pub lower : map basic_lower m ≡ m
  pub filled : is_empty m ≡ false
  pub no_open : contains_char m b'[' ≡ false
  pub no_close : contains_char m b']' ≡ false
  pub apart : contains (codes "redacted") m ≡ false

starts_with_self : (m s : Text) → starts_with (m ++ s) m ≡ true
starts_with_self [] s = refl
starts_with_self (c ∷ m) s = ground (arith, starts_with_self m s)

-- A part that starts before `d` and does not have it ends before it.
starts_with-before :
    (x : Text) (d : ℕ) (y m : Text)
    → contains_char m d ≡ false
    → starts_with (x ++ d ∷ y) m ≡ starts_with x m
starts_with-before [] d y [] h = refl
starts_with-before [] d y (c ∷ m) h = ground arith
starts_with-before (e ∷ x) d y [] h = refl
starts_with-before (e ∷ x) d y (c ∷ m) h = ground (arith, starts_with-before x d y m)

starts_with-long : (x y m : Text) → length m ≤ length x → starts_with (x ++ y) m ≡ starts_with x m
starts_with-long x y [] h = refl
starts_with-long [] y (c ∷ m) h = absurd (omega arith)
starts_with-long (e ∷ x) y (c ∷ m) h = rw (starts_with-long x y m (omega arith))

starts_with-short : (x m : Text) → length x < length m → starts_with x m ≡ false
starts_with-short x [] h = elim h [ ]
starts_with-short [] (c ∷ m) h = refl
starts_with-short (e ∷ x) (c ∷ m) h = ground (arith, starts_with-short x m)

pub starts_with-drop : (s m : Text) → starts_with s m ≡ true → m ++ drop (length m) s ≡ s
starts_with-drop s [] h = refl
starts_with-drop [] (c ∷ m) h = cc
starts_with-drop (e ∷ s) (c ∷ m) h =
    let (same, later) = and-both (e == c) (starts_with s m) h in
    rw ((==_iff e c).0 same) (ap (◌∷◌ c) (starts_with-drop s m later))

drop-length : (m s : Text) → drop (length m) (m ++ s) ≡ s
drop-length [] s = refl
drop-length (c ∷ m) s = drop-length m s

or-left : (a b : Bool) → (a || b) ≡ false → a ≡ false
or-left a b h = ground arith

or-right : (a b : Bool) → (a || b) ≡ false → b ≡ false
or-right a b h = ground arith

module _ (m : Text) (marker : IsMarker m) where
  -- No place of `front` begins a marker in the text.
  abbrev pub Fresh : Text → Text → Type 0
  Fresh [] rest = Unit {0}
  Fresh (c ∷ front) rest = (starts_with (c ∷ (front ++ m ++ rest)) m ≡ false) × Fresh front rest

  pub first-split :
      (s front : Text)
      → before_first s m ≡ some front
      → (rest : Text) × (s ≡ front ++ m ++ rest) × Fresh front rest
  unfolding before_first
  first-split [] front e = cc (rw marker.filled at e)
  first-split (c ∷ s) front e = elim (Bool-cases (starts_with (c ∷ s) m)) [
    | inl here ↦
        subst (λ f. (rest : Text) × (c ∷ s ≡ f ++ m ++ rest) × Fresh f rest)
          (some-injective (rw here at e))
          (drop (length m) (c ∷ s), sym (starts_with-drop (c ∷ s) m here), tt)
    | inr there ↦ elim (Option-cases (before_first s m)) [
      | inl none_left ↦ cc (rw (there, none_left) at e)
      | inr (later, found) ↦
          let (rest, split, fresh) = first-split s later found in
          subst (λ f. (rest : Text) × (c ∷ s ≡ f ++ m ++ rest) × Fresh f rest)
            (some-injective (rw (there, found) at e))
            (rest, ap (◌∷◌ c) split, (rw (← split) there, fresh))
    ]
  ]

  pub none-guarded : (s : Text) → before_first s m ≡ none → guarded m s ≡ true
  unfolding before_first
  none-guarded [] e = refl
  none-guarded (c ∷ s) e = elim (Bool-cases (starts_with (c ∷ s) m)) [
    | inl here ↦ cc (rw here at e)
    | inr there ↦ elim (Option-cases (before_first s m)) [
      | inl none_left ↦ rw there (none-guarded s none_left)
      | inr (later, found) ↦ cc (rw (there, found) at e)
    ]
  ]

  -- The mark itself, and whatever stands behind it.
  redacted-guarded :
      (part z : Text)
      → contains part m ≡ false
      → guarded m z ≡ true
      → guarded m (part ++ b']' ∷ z) ≡ true
  unfolding contains
  redacted-guarded [] z h g =
      rw
        (
          starts_with-before [] b']' z m marker.no_close,
          starts_with-short [] m (length_pos m marker.filled),
        )
        g
  redacted-guarded (c ∷ part) z h g =
      rw
        (
          starts_with-before (c ∷ part) b']' z m marker.no_close,
          or-left (starts_with (c ∷ part) m) (contains part m) h,
        )
        (redacted-guarded part z (or-right (starts_with (c ∷ part) m) (contains part m) h) g)

  mark-guarded : (z : Text) → guarded m z ≡ true → guarded m (redacted_mark ++ z) ≡ true
  mark-guarded z g =
      rw
        (
          starts_with-before [] b'[' (codes "redacted]" ++ z) m marker.no_open,
          starts_with-short [] m (length_pos m marker.filled),
        )
        (redacted-guarded (codes "redacted") z marker.apart g)

  -- Behind the beginning of a marker no other begins before the mark.
  tail-guarded :
      (part z : Text)
      → length part < length m
      → guarded m z ≡ true
      → guarded m (part ++ (redacted_mark ++ z)) ≡ true
  tail-guarded [] z h g = mark-guarded z g
  tail-guarded (c ∷ part) z h g =
      rw
        (
          starts_with-before (c ∷ part) b'[' (codes "redacted]" ++ z) m marker.no_open,
          starts_with-short (c ∷ part) m h,
        )
        (tail-guarded part z (omega arith) g)

  from_marker :
      (part z : Text)
      → part ≡ m
      → is_empty part ≡ false
      → guarded m z ≡ true
      → guarded m (part ++ (redacted_mark ++ z)) ≡ true
  from_marker [] z e filled g = cc
  from_marker (c ∷ part) z e filled g =
      let all_of_it : starts_with ((c ∷ part) ++ (redacted_mark ++ z)) m ≡ true =
        rw (← e) (starts_with_self (c ∷ part) (redacted_mark ++ z)) in
      let behind : drop (length m) ((c ∷ part) ++ (redacted_mark ++ z)) ≡ redacted_mark ++ z =
        rw (← e) (drop-length (c ∷ part) (redacted_mark ++ z)) in
      rw (all_of_it, behind) (tail-guarded part z (omega (arith, ap length e)) g)

  -- What is false of a place before the marker is false whatever stands behind the marker.
  inside :
      (c : ℕ) (front rest z : Text)
      → starts_with (c ∷ (front ++ m ++ rest)) m ≡ false
      → starts_with (c ∷ (front ++ (m ++ z))) m ≡ false
  inside c front rest z h =
      let long : length m ≤ length (c ∷ (front ++ m)) = omega (arith, length-append front m) in
      rw (← (append_assoc front m z), starts_with-long (c ∷ (front ++ m)) z m long)
        (sym (starts_with-long (c ∷ (front ++ m)) rest m long) ∙ h)

  marker-guarded : (z : Text) → guarded m z ≡ true → guarded m (m ++ (redacted_mark ++ z)) ≡ true
  marker-guarded z g = from_marker m z refl marker.filled g

  pub front-guarded :
      (front rest z : Text)
      → Fresh front rest
      → guarded m z ≡ true
      → guarded m (front ++ (m ++ (redacted_mark ++ z))) ≡ true
  front-guarded [] rest z fresh g = marker-guarded z g
  front-guarded (c ∷ front) rest z fresh g =
      rw (inside c front rest (redacted_mark ++ z) fresh.0) (front-guarded front rest z fresh.1 g)
