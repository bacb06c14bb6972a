-- ===== src/Privacy/Redaction.antt =====
-- The loop over a marker in src-tauri/src/privacy.rs.
use mathlib.Core.List.{append_assoc, map-append}
use replyline.Prelude.{
  All, Bool-cases, Option-cases, Text, [], all, ap, arith, byte_len, contains, drop, false, inl,
  inr, length, length-append, length-drop, length_pos, ltb, map, none, refl, some, starts_with, suc,
  sym, take, take-append-drop, true, utf8_width, zero, ℕ, ◌++◌, ◌+◌, ◌-◌, ◌<◌, ◌==◌, ◌∙◌, ◌∷◌, ◌≡◌,
  ◌≤◌,
}
use replyline.Prelude.Slices.{before_first, split_at_byte}
use replyline.Prelude.Unicode.{Unicode, basic_lower, is_basic}
use replyline.Card.Texts.{and-both}
use replyline.Privacy.{
  drop_value, ends_value, marker_loop, marker_round, markers, redact_after_marker, redacted_mark,
}
use replyline.Privacy.Values.{Redacts, clean, cut, rest_of, rest_of-IsValue}
use replyline.Privacy.Markers.{IsMarker, first-split, front-guarded, guarded, none-guarded}

utf8_width-lower : (c : ℕ) → is_basic c ≡ true → utf8_width (basic_lower c) ≡ utf8_width c
utf8_width-lower c h = ground arith

utf8_width_pos : (c : ℕ) → 1 ≤ utf8_width c
utf8_width_pos c = ground arith

byte_len-lower : (s : Text) → all is_basic s ≡ true → byte_len (map basic_lower s) ≡ byte_len s
byte_len-lower [] h = refl
byte_len-lower (c ∷ s) h =
    let (first, others) = and-both (is_basic c) (all is_basic s) h in
    rw (utf8_width-lower c first, byte_len-lower s others)

byte_len-append : (x y : Text) → byte_len (x ++ y) ≡ byte_len x + byte_len y
byte_len-append [] y = omega arith
byte_len-append (c ∷ x) y = omega (arith, byte_len-append x y)

split_at_byte-zero : (y : Text) → split_at_byte y 0 ≡ some ([], y)
unfolding split_at_byte
split_at_byte-zero [] = refl
split_at_byte-zero (c ∷ y) = refl

not_zero : (n : ℕ) → 1 ≤ n → (n == 0) ≡ false
not_zero n h = ground arith

not_below : (a b : ℕ) → b ≤ a → ltb a b ≡ false
not_below a b h = ground arith

-- The bytes of a part split the text behind it.
split_at_byte-append :
    (x y : Text) (n : ℕ) → n ≡ byte_len x → split_at_byte (x ++ y) n ≡ some (x, y)
unfolding split_at_byte
split_at_byte-append [] y n e = rw e (split_at_byte-zero y)
split_at_byte-append (c ∷ x) y n e =
    let pos = utf8_width_pos c in
    let more : (n == 0) ≡ false = not_zero n (omega arith) in
    let fits : ltb n (utf8_width c) ≡ false = not_below n (utf8_width c) (omega arith) in
    rw (more, fits, split_at_byte-append x y (n - utf8_width c) (omega arith))

all-take : (k : ℕ) (s : Text) → all is_basic s ≡ true → all is_basic (take k s) ≡ true
all-take zero s h = refl
all-take (suc k) [] h = refl
all-take (suc k) (c ∷ s) h =
    let (first, others) = and-both (is_basic c) (all is_basic s) h in
    rw (first, all-take k s others)

all-drop : (k : ℕ) (s : Text) → all is_basic s ≡ true → all is_basic (drop k s) ≡ true
all-drop zero s h = h
all-drop (suc k) [] h = refl
all-drop (suc k) (c ∷ s) h = all-drop k s (and-both (is_basic c) (all is_basic s) h).1

all-drop_value : (s : Text) → all is_basic s ≡ true → all is_basic (drop_value s) ≡ true
unfolding drop_value
all-drop_value [] h = refl
all-drop_value (c ∷ s) h = elim (Bool-cases (ends_value c)) [
  | inl over ↦ rw over h
  | inr inside ↦ rw inside (all-drop_value s (and-both (is_basic c) (all is_basic s) h).1)
]

drop_value_le : (s : Text) → length (drop_value s) ≤ length s
unfolding drop_value
drop_value_le [] = omega arith
drop_value_le (c ∷ s) = elim (Bool-cases (ends_value c)) [
  | inl over ↦ rw over (omega arith)
  | inr inside ↦ rw inside (omega (arith, drop_value_le s))
]

take-map : (k : ℕ) (s : Text) → take k (map basic_lower s) ≡ map basic_lower (take k s)
take-map zero s = refl
take-map (suc k) [] = refl
take-map (suc k) (c ∷ s) = ap (◌∷◌ (basic_lower c)) (take-map k s)

take-length : (x y : Text) → take (length x) (x ++ y) ≡ x
take-length [] y = refl
take-length (c ∷ x) y = ap (◌∷◌ c) (take-length x y)

length-lower : (s : Text) → length (map basic_lower s) ≡ length s
length-lower [] = refl
length-lower (c ∷ s) = ap suc (length-lower s)

rest_of-basic : (s : Text) → all is_basic s ≡ true → all is_basic (rest_of s) ≡ true
rest_of-basic s h = elim (Bool-cases (starts_with s redacted_mark)) [
  | inl done ↦ rw done (all-drop 10 s h)
  | inr unmasked ↦ rw unmasked (all-drop_value s h)
]

rest_of_le : (s : Text) → length (rest_of s) ≤ length s
rest_of_le s = elim (Bool-cases (starts_with s redacted_mark)) [
  | inl done ↦ rw done (omega (arith, length-drop 10 s))
  | inr unmasked ↦ rw unmasked (drop_value_le s)
]

module _ (u : Unicode) (m : Text) (marker : IsMarker m) where
  lower_marker : u.to_lowercase m ≡ m
  lower_marker = u.lower_basic m marker.known ∙ marker.lower

  module _ (tail : Text) (known : all is_basic tail ≡ true) where
    marker_round-none :
        before_first (map basic_lower tail) m ≡ none → marker_round u m tail ≡ some none
    unfolding marker_round
    marker_round-none e = rw (u.lower_basic tail known, lower_marker, e, marker_round)

    module _ (front rest : Text) (split : map basic_lower tail ≡ front ++ m ++ rest) where
      abbrev cut_at : ℕ
      cut_at = length (front ++ m)

      head-lower : map basic_lower (take cut_at tail) ≡ front ++ m
      head-lower =
          sym (take-map cut_at tail) ∙ ap (take cut_at) split ∙ take-length (front ++ m) rest

      head-bytes : byte_len front + byte_len m ≡ byte_len (take cut_at tail)
      head-bytes =
          sym (byte_len-append front m)
          ∙ ap byte_len (sym head-lower)
          ∙ byte_len-lower (take cut_at tail) (all-take cut_at tail known)

      head-split :
          split_at_byte tail (byte_len front + byte_len m)
          ≡ some (take cut_at tail, drop cut_at tail)
      head-split =
          ap (λ s. split_at_byte s (byte_len front + byte_len m))
            (sym (take-append-drop cut_at tail))
          ∙ split_at_byte-append (take cut_at tail) (drop cut_at tail) _ head-bytes

      marker_round-some :
          before_first (map basic_lower tail) m ≡ some front
          → marker_round u m tail
            ≡ some (some (take cut_at tail ++ redacted_mark, rest_of (drop cut_at tail)))
      unfolding marker_round
      marker_round-some e = rw (u.lower_basic tail known, lower_marker, e, marker_round, head-split)

  lowered :
      (head out front : Text)
      → map basic_lower head ≡ front ++ m
      → map basic_lower ((head ++ redacted_mark) ++ out)
        ≡ front ++ (m ++ (redacted_mark ++ map basic_lower out))
  lowered head out front e =
      rw
        (
          map-append basic_lower (head ++ redacted_mark) out,
          map-append basic_lower head redacted_mark,
          e,
        )
        (append_assoc (front ++ m) redacted_mark (map basic_lower out)
          ∙ append_assoc front m (redacted_mark ++ map basic_lower out))

  marker_loop-guarded :
      (fuel : ℕ) (tail : Text)
      → length tail < fuel
      → all is_basic tail ≡ true
      → (out : Text) × (marker_loop u m fuel tail ≡ some out)
        × (guarded m (map basic_lower out) ≡ true)
        × Redacts m tail out
  unfolding marker_loop
  marker_loop-guarded zero tail h known = absurd (omega arith)
  marker_loop-guarded (suc fuel) tail h known =
      elim (Option-cases (before_first (map basic_lower tail) m)) [
        | inl nothing ↦ (
          tail,
          rw (marker_round-none tail known nothing, marker_loop),
          none-guarded m marker (map basic_lower tail) nothing,
          clean tail nothing,
        )
        | inr (front, found) ↦
            let (rest, split, fresh) = first-split m marker (map basic_lower tail) front found in
            let k = length (front ++ m) in
            let shorter : length (rest_of (drop k tail)) < fuel = omega (
              arith,
              rest_of_le (drop k tail),
              length-drop k tail,
              length-append front m,
              length-append (front ++ m) rest,
              ap length split,
              length-lower tail,
              length_pos m marker.filled,
            ) in
            let (value, parts, taken) = rest_of-IsValue (drop k tail) in
            let (out, run, safe, redacts) =
              marker_loop-guarded fuel (rest_of (drop k tail)) shorter
                (rest_of-basic (drop k tail) (all-drop k tail known)) in
            (
              (take k tail ++ redacted_mark) ++ out,
              rw (marker_round-some tail known front rest split found, marker_loop, run),
              rw (lowered (take k tail) out front (head-lower tail known front rest split))
                  (front-guarded m marker front rest (map basic_lower out) fresh safe),
              cut tail front (take k tail) value (rest_of (drop k tail)) out found
                  (head-lower tail known front rest split)
                  (sym (take-append-drop k tail) ∙ ap (λ s. take k tail ++ s) parts) taken redacts,
            )
      ]

pub markers-AllMarkers : All IsMarker markers
unfolding contains
markers-AllMarkers = ground arith

-- On a text of ASCII and Russian letters the redaction after a marker does not panic. What it
-- returns is the text in which behind each place of the marker, in capitals or not, a mark stands in
-- place of the value, all up to the next blank, quote, `;`, `,`, `&` or `?`, unless a mark stood there
-- already, and in which all else is kept; so in it every place of the marker is followed by a mark. The
-- marker is one in lower case that has no bracket and does not stand within the mark, as each of those
-- of the code is.
pub redact_after_marker-guarded :
    (u : Unicode) (input m : Text)
    → IsMarker m
    → all is_basic input ≡ true
    → (out : Text) × (redact_after_marker u input m ≡ some out)
      × (guarded m (map basic_lower out) ≡ true)
      × Redacts m input out
unfolding redact_after_marker
redact_after_marker-guarded u input m marker known =
    marker_loop-guarded u m marker (length input + 1) input (omega arith) known
