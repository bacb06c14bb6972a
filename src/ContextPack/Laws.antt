-- ===== src/ContextPack/Laws.antt =====
-- Laws of the changes to the list of packs: lookup, the single active pack, distinct ids.
use replyline.Prelude.{
  All, Bool, Bool-cases, List, Option, Text, [], arith, false, if◌then◌else◌, inl, inr, max, none,
  refl, text_eq, text_eq_iff, true, ℕ, ◌+◌, ◌∷◌, ◌≡◌, ◌≤◌,
}
use replyline.ContextPack.Validation.{ContextPackDto, IsValidPack}
use replyline.ContextPack.Store.{
  activate, activated_by, deactivate_all, has_id, saved, upsert, without,
}

-- How many packs are active.
abbrev pub active_count : List ContextPackDto → ℕ
active_count [] = 0
active_count (pack ∷ packs) = (if pack.is_active then 1 else 0) + active_count packs

-- How many packs have this id.
abbrev pub id_count : Text → List ContextPackDto → ℕ
id_count id [] = 0
id_count id (pack ∷ packs) = (if has_id id pack then 1 else 0) + id_count id packs

-- At most one pack is active, no id is used twice, and every pack has passed the checks.
pub record IsConsistent (packs : List ContextPackDto) : Type 0 where
  pub one_active : active_count packs ≤ 1
  pub distinct : (id : Text) → id_count id packs ≤ 1
  pub checked : All IsValidPack packs

pub active_count-deactivate_all :
    (packs : List ContextPackDto) → active_count (deactivate_all packs) ≡ 0
unfolding deactivate_all
active_count-deactivate_all [] = refl
active_count-deactivate_all (pack ∷ packs) = omega (arith, active_count-deactivate_all packs)

id_count-deactivate_all :
    (id : Text) (packs : List ContextPackDto)
    → id_count id (deactivate_all packs) ≡ id_count id packs
unfolding deactivate_all
id_count-deactivate_all id [] = refl
id_count-deactivate_all id (pack ∷ packs) = omega (arith, id_count-deactivate_all id packs)

All-deactivate_all :
    (packs : List ContextPackDto) → All IsValidPack packs → All IsValidPack (deactivate_all packs)
unfolding deactivate_all
All-deactivate_all [] h = tt
All-deactivate_all (pack ∷ packs) h = (ground arith, All-deactivate_all packs h.1)

active_count-upsert :
    (pack : ContextPackDto) (packs : List ContextPackDto)
    → active_count (upsert pack packs) ≤ (if pack.is_active then 1 else 0) + active_count packs
unfolding upsert
active_count-upsert pack [] = omega arith
active_count-upsert pack (old ∷ packs) = ground (arith, active_count-upsert pack packs)

id_count-upsert :
    (id : Text) (pack : ContextPackDto) (packs : List ContextPackDto)
    → id_count id (upsert pack packs)
      ≡ (if text_eq pack.id id then max 1 (id_count id packs) else id_count id packs)
unfolding upsert
id_count-upsert id pack [] = ground arith
id_count-upsert id pack (old ∷ packs) = ground (
  arith,
  id_count-upsert id pack packs,
  text_eq_iff pack.id id,
  text_eq_iff old.id id,
  text_eq_iff old.id pack.id,
)

All-upsert :
    (pack : ContextPackDto) (packs : List ContextPackDto)
    → IsValidPack pack
    → All IsValidPack packs
    → All IsValidPack (upsert pack packs)
unfolding upsert
All-upsert pack [] v h = (v, tt)
All-upsert pack (old ∷ packs) v h = elim (Bool-cases (has_id pack.id old)) [
  | inl same ↦ rw same (v, h.1)
  | inr differs ↦ rw differs (h.0, All-upsert pack packs v h.1)
]

All-deactivate_if :
    (active : Bool) (packs : List ContextPackDto)
    → All IsValidPack packs
    → All IsValidPack (if active then deactivate_all packs else packs)
All-deactivate_if true packs h = All-deactivate_all packs h
All-deactivate_if false packs h = h

saved-IsConsistent :
    (pack : ContextPackDto) (packs : List ContextPackDto)
    → IsValidPack pack
    → IsConsistent packs
    → IsConsistent (saved pack packs)
unfolding saved
saved-IsConsistent pack packs v h = record {
  one_active = ground (
    arith,
    active_count-upsert pack packs,
    active_count-upsert pack (deactivate_all packs),
    active_count-deactivate_all packs,
  );
  distinct = λ id. ground (
    arith,
    id_count-upsert id pack packs,
    id_count-upsert id pack (deactivate_all packs),
    id_count-deactivate_all id packs,
    h.distinct id,
  );
  checked = All-upsert pack _ v (All-deactivate_if pack.is_active packs h.checked);
}

id_count-without :
    (id j : Text) (packs : List ContextPackDto) → id_count j (without id packs) ≤ id_count j packs
unfolding without
id_count-without id j [] = omega arith
id_count-without id j (pack ∷ packs) = ground (arith, id_count-without id j packs)

active_count-without :
    (id : Text) (packs : List ContextPackDto) → active_count (without id packs) ≤ active_count packs
unfolding without
active_count-without id [] = omega arith
active_count-without id (pack ∷ packs) = ground (arith, active_count-without id packs)

All-without :
    (id : Text) (packs : List ContextPackDto)
    → All IsValidPack packs
    → All IsValidPack (without id packs)
unfolding without
All-without id [] h = tt
All-without id (pack ∷ packs) h = elim (Bool-cases (has_id id pack)) [
  | inl same ↦ rw same (All-without id packs h.1)
  | inr differs ↦ rw differs (h.0, All-without id packs h.1)
]

without-IsConsistent :
    (id : Text) (packs : List ContextPackDto) → IsConsistent packs → IsConsistent (without id packs)
without-IsConsistent id packs h = record {
  one_active = omega (arith, active_count-without id packs);
  distinct = λ j. omega (arith, id_count-without id j packs, h.distinct j);
  checked = All-without id packs h.checked;
}

-- The packs after the loop of `set_active_context_pack`, whatever `activated` was.
active_count-activate :
    (id : Text) (a : Option ContextPackDto) (packs : List ContextPackDto)
    → active_count (activate id a packs).0 ≡ id_count id packs
unfolding activate
active_count-activate id a [] = refl
active_count-activate id a (pack ∷ packs) =
    omega (arith, active_count-activate id (activated_by id a pack) packs)

id_count-activate :
    (id j : Text) (a : Option ContextPackDto) (packs : List ContextPackDto)
    → id_count j (activate id a packs).0 ≡ id_count j packs
unfolding activate
id_count-activate id j a [] = refl
id_count-activate id j a (pack ∷ packs) =
    omega (arith, id_count-activate id j (activated_by id a pack) packs)

All-activate :
    (id : Text) (a : Option ContextPackDto) (packs : List ContextPackDto)
    → All IsValidPack packs
    → All IsValidPack (activate id a packs).0
unfolding activate
All-activate id a [] h = tt
All-activate id a (pack ∷ packs) h =
    (ground arith, All-activate id (activated_by id a pack) packs h.1)

activate-IsConsistent :
    (id : Text) (packs : List ContextPackDto)
    → IsConsistent packs
    → IsConsistent (activate id none packs).0
activate-IsConsistent id packs h = record {
  one_active = omega (arith, active_count-activate id none packs, h.distinct id);
  distinct = λ j. omega (arith, id_count-activate id j none packs, h.distinct j);
  checked = All-activate id none packs h.checked;
}

deactivate_all-IsConsistent :
    (packs : List ContextPackDto) → IsConsistent packs → IsConsistent (deactivate_all packs)
deactivate_all-IsConsistent packs h = record {
  one_active = omega (arith, active_count-deactivate_all packs);
  distinct = λ j. omega (arith, id_count-deactivate_all j packs, h.distinct j);
  checked = All-deactivate_all packs h.checked;
}

-- Each of the four changes keeps the list consistent: at most one pack active, no id twice, every
-- pack within the limits that the checks set.
pub change-IsConsistent :
    (packs : List ContextPackDto)
    → IsConsistent packs
    → ((pack : ContextPackDto) → IsValidPack pack → IsConsistent (saved pack packs))
      × ((id : Text) → IsConsistent (without id packs))
      × ((id : Text) → IsConsistent (activate id none packs).0)
      × IsConsistent (deactivate_all packs)
change-IsConsistent packs h = (
  λ pack v. saved-IsConsistent pack packs v h,
  λ id. without-IsConsistent id packs h,
  λ id. activate-IsConsistent id packs h,
  deactivate_all-IsConsistent packs h,
)
