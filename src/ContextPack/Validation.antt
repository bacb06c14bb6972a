-- ===== src/ContextPack/Validation.antt =====
-- The checks on a pack: `validate_id` to `validate_pack` of src-tauri/src/context_pack.rs.
use replyline.Prelude.{
  Bool, Bool-cases, Result, Text, [], all, ap, arith, byte_len, codes, contains, contains_char, err,
  false, if◌then◌else◌, inl, inr, is_empty, leb, length, length_pos, ltb, nonempty, not, ok, refl,
  true, ℕ, ◌&&◌, ◌==◌, ◌>>=◌, ◌||◌, ◌↔◌, ◌∷◌, ◌≡◌, ◌≤◌,
}

abbrev pub context_pack_max_content_len : ℕ
context_pack_max_content_len = 100_000

abbrev pub context_pack_max_title_len : ℕ
context_pack_max_title_len = 200

abbrev pub context_pack_max_id_len : ℕ
context_pack_max_id_len = 64

pub record ContextPackDto : Type 0 where
  pub id : Text
  pub title : Text
  pub content : Text
  pub is_active : Bool
  pub created_at : Text
  pub updated_at : Text

pub data ContextPackValidationError : Type 0 where
  id_empty id_too_long id_invalid_chars id_path_traversal : ContextPackValidationError
  title_empty title_too_long content_empty content_too_long : ContextPackValidationError
  not_found : ContextPackValidationError

unfoldable pub is_ascii_alphanumeric : ℕ → Bool
is_ascii_alphanumeric c =
    leb b'0' c && leb c b'9' || leb b'A' c && leb c b'Z' || leb b'a' c && leb c b'z'

abbrev pub is_id_char : ℕ → Bool
is_id_char c = is_ascii_alphanumeric c || c == b'_' || c == b'-'

unfoldable pub validate_id : Text → Result (Unit {0}) ContextPackValidationError
validate_id id =
    if is_empty id
    then err id_empty
    else if ltb context_pack_max_id_len (byte_len id)
    then err id_too_long
    else if contains id (codes "..") || contains_char id b'/' || contains_char id b'\\'
    then err id_path_traversal
    else if not (all is_id_char id)
    then err id_invalid_chars
    else ok tt

unfoldable pub validate_title : Text → Result (Unit {0}) ContextPackValidationError
validate_title title =
    if is_empty title
    then err title_empty
    else if ltb context_pack_max_title_len (byte_len title)
    then err title_too_long
    else ok tt

unfoldable pub validate_content : Text → Result (Unit {0}) ContextPackValidationError
validate_content content =
    if is_empty content
    then err content_empty
    else if ltb context_pack_max_content_len (byte_len content)
    then err content_too_long
    else ok tt

unfoldable pub validate_pack : ContextPackDto → Result (Unit {0}) ContextPackValidationError
validate_pack pack = do
  _ ← validate_id pack.id
  _ ← validate_title pack.title
  validate_content pack.content

-- The limits of the code: those of the module's header, but that a title and a content are counted in
-- bytes where it says characters.
pub record IsValidPack (pack : ContextPackDto) : Type 0 where
  pub id_nonempty : 1 ≤ length pack.id
  pub id_short : length pack.id ≤ context_pack_max_id_len
  pub id_chars : all is_id_char pack.id ≡ true
  pub title_nonempty : 1 ≤ length pack.title
  pub title_short : byte_len pack.title ≤ context_pack_max_title_len
  pub content_nonempty : 1 ≤ length pack.content
  pub content_short : byte_len pack.content ≤ context_pack_max_content_len

length-le-byte_len : (s : Text) → length s ≤ byte_len s
length-le-byte_len [] = omega arith
length-le-byte_len (c ∷ s) = ground (arith, length-le-byte_len s)

-- An id of letters, digits, `_` and `-` is ASCII, so it is as many bytes as characters, and has
-- no dot and no separator: the traversal test refuses nothing that the character test admits.
byte_len-id : (s : Text) → all is_id_char s ≡ true → byte_len s ≡ length s
unfolding is_ascii_alphanumeric
byte_len-id [] h = refl
byte_len-id (c ∷ s) h = ground (arith, byte_len-id s)

id_no_char :
    (s : Text) (d : ℕ) → is_id_char d ≡ false → all is_id_char s ≡ true → contains_char s d ≡ false
unfolding is_ascii_alphanumeric
id_no_char [] d n h = refl
id_no_char (c ∷ s) d n h = elim (Bool-cases (c == d)) [
  | inl e ↦
      let same : c ≡ d = ground arith in
      let good : is_id_char c ≡ true = ground arith in
      absurd (ground (arith, ap is_id_char same, good, n))
  | inr e ↦ rw e (id_no_char s d n (ground arith))
]

id_no_dots : (s : Text) → all is_id_char s ≡ true → contains s (codes "..") ≡ false
unfolding contains is_ascii_alphanumeric
id_no_dots [] h = refl
id_no_dots (c ∷ s) h = ground (arith, id_no_dots s)

not_slash : is_id_char b'/' ≡ false
unfolding is_ascii_alphanumeric
not_slash = refl

not_backslash : is_id_char b'\\' ≡ false
unfolding is_ascii_alphanumeric
not_backslash = refl

validate_id_complete :
    (id : Text)
    → 1 ≤ length id
    → length id ≤ context_pack_max_id_len
    → all is_id_char id ≡ true
    → validate_id id ≡ ok tt
unfolding validate_id
validate_id_complete id some_char short chars =
    rw (nonempty id some_char, byte_len-id id chars, id_no_dots id chars)
      (rw (id_no_char id b'/' not_slash chars, id_no_char id b'\\' not_backslash chars, chars)
        (ground arith))

validate_id_sound :
    (id : Text)
    → validate_id id ≡ ok tt
    → (1 ≤ length id) × (length id ≤ context_pack_max_id_len) × (all is_id_char id ≡ true)
unfolding validate_id
validate_id_sound id h = ground (arith, length_pos id, length-le-byte_len id)

validate_title_iff :
    (title : Text)
    → (validate_title title ≡ ok tt)
      ↔ ((1 ≤ length title) × (byte_len title ≤ context_pack_max_title_len))
unfolding validate_title
validate_title_iff title =
    (λ h. ground (arith, length_pos title), λ h. ground (arith, nonempty title))

validate_content_iff :
    (content : Text)
    → (validate_content content ≡ ok tt)
      ↔ ((1 ≤ length content) × (byte_len content ≤ context_pack_max_content_len))
unfolding validate_content
validate_content_iff content =
    (λ h. ground (arith, length_pos content), λ h. ground (arith, nonempty content))

validate_pack_parts :
    (pack : ContextPackDto)
    → validate_pack pack ≡ ok tt
    → (validate_id pack.id ≡ ok tt)
      × (validate_title pack.title ≡ ok tt)
      × (validate_content pack.content ≡ ok tt)
unfolding validate_pack
validate_pack_parts pack h = ground arith

-- The checks pass on exactly the packs whose id has 1 to 64 letters, digits, `_` and `-`, whose
-- title has 1 to 200 bytes and whose content has 1 to 100,000 bytes.
pub validate_pack_iff : (pack : ContextPackDto) → (validate_pack pack ≡ ok tt) ↔ IsValidPack pack
unfolding validate_pack
validate_pack_iff pack = (
  λ h.
      let (id_ok, title_ok, content_ok) = validate_pack_parts pack h in
      let (a, b, c) = validate_id_sound pack.id id_ok in
      let (d, e) = (validate_title_iff pack.title).0 title_ok in
      let (f, g) = (validate_content_iff pack.content).0 content_ok in
      record {
        id_nonempty = a;
        id_short = b;
        id_chars = c;
        title_nonempty = d;
        title_short = e;
        content_nonempty = f;
        content_short = g;
      },
  λ v.
      rw
        (
          validate_id_complete pack.id v.id_nonempty v.id_short v.id_chars,
          (validate_title_iff pack.title).1 (v.title_nonempty, v.title_short),
        )
        ((validate_content_iff pack.content).1 (v.content_nonempty, v.content_short)),
)
