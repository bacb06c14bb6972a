-- ===== src/ContextPack/Lookup.antt =====
-- What a lookup finds after each change to the list of packs.
use replyline.Prelude.{
  List, Option, Text, [], arith, false, if◌then◌else◌, none, refl, some, sym, text_eq, text_eq_iff,
  true, ◌∙◌, ◌∷◌, ◌≡◌, ◌≤◌,
}
use replyline.ContextPack.Validation.{ContextPackDto}
use replyline.ContextPack.Store.{
  activate, activated_by, deactivate_all, find_active, find_pack, has_id, saved, upsert, without,
}
use replyline.ContextPack.Laws.{active_count, active_count-deactivate_all, id_count}
use mathlib.Core.Option

abbrev pub inactive : ContextPackDto → ContextPackDto
inactive pack = record pack { is_active = false }

find_pack-upsert :
    (id : Text) (pack : ContextPackDto) (packs : List ContextPackDto)
    → find_pack id (upsert pack packs)
      ≡ (if text_eq pack.id id then some pack else find_pack id packs)
unfolding upsert
find_pack-upsert id pack [] = refl
find_pack-upsert id pack (old ∷ packs) = ground (
  arith,
  find_pack-upsert id pack packs,
  text_eq_iff pack.id id,
  text_eq_iff old.id id,
  text_eq_iff old.id pack.id,
)

find_pack-deactivate_all :
    (id : Text) (packs : List ContextPackDto)
    → find_pack id (deactivate_all packs) ≡ Option.map inactive (find_pack id packs)
unfolding deactivate_all
find_pack-deactivate_all id [] = refl
find_pack-deactivate_all id (pack ∷ packs) = ground (arith, find_pack-deactivate_all id packs)

find_active-upsert :
    (pack : ContextPackDto) (packs : List ContextPackDto)
    → pack.is_active ≡ true
    → active_count packs ≡ 0
    → find_active (upsert pack packs) ≡ some pack
unfolding upsert
find_active-upsert pack [] active quiet = ground arith
find_active-upsert pack (old ∷ packs) active quiet =
    ground (arith, find_active-upsert pack packs active)

pub find_pack-without :
    (id j : Text) (packs : List ContextPackDto)
    → find_pack j (without id packs) ≡ (if text_eq id j then none else find_pack j packs)
unfolding without
find_pack-without id j [] = ground arith
find_pack-without id j (pack ∷ packs) = ground (
  arith,
  find_pack-without id j packs,
  text_eq_iff id j,
  text_eq_iff pack.id id,
  text_eq_iff pack.id j,
)

-- After a save the id finds the pack that was saved, and every other id what it found before, made
-- inactive if the saved pack is active. An active pack that is saved is the active one.
pub lookup_after_save :
    (id : Text) (pack : ContextPackDto) (packs : List ContextPackDto)
    → (find_pack id (saved pack packs) ≡ (
        if text_eq pack.id id
        then some pack
        else if pack.is_active
        then Option.map inactive (find_pack id packs)
        else find_pack id packs))
      × (pack.is_active ≡ true → find_active (saved pack packs) ≡ some pack)
unfolding saved
lookup_after_save id pack packs = (
  ground (
    arith,
    find_pack-upsert id pack packs,
    find_pack-upsert id pack (deactivate_all packs),
    find_pack-deactivate_all id packs,
  ),
  λ active. simp active (find_active-upsert pack _ active (active_count-deactivate_all packs)),
)

abbrev pub with_active : Text → ContextPackDto → ContextPackDto
with_active id pack = record pack { is_active = has_id id pack }

find_pack-activate :
    (id j : Text) (a : Option ContextPackDto) (packs : List ContextPackDto)
    → find_pack j (activate id a packs).0 ≡ Option.map (with_active id) (find_pack j packs)
unfolding activate
find_pack-activate id j a [] = refl
find_pack-activate id j a (pack ∷ packs) =
    ground (arith, find_pack-activate id j (activated_by id a pack) packs)

find_active-activate :
    (id : Text) (a : Option ContextPackDto) (packs : List ContextPackDto)
    → find_active (activate id a packs).0 ≡ Option.map (with_active id) (find_pack id packs)
unfolding activate
find_active-activate id a [] = refl
find_active-activate id a (pack ∷ packs) =
    ground (arith, find_active-activate id (activated_by id a pack) packs)

activate-absent :
    (id : Text) (a : Option ContextPackDto) (packs : List ContextPackDto)
    → id_count id packs ≡ 0
    → (activate id a packs).1 ≡ a
unfolding activate
activate-absent id a [] h = refl
activate-absent id a (pack ∷ packs) h = ground (arith, activate-absent id a packs)

activate-returns :
    (id : Text) (packs : List ContextPackDto)
    → id_count id packs ≤ 1
    → (activate id none packs).1 ≡ Option.map (with_active id) (find_pack id packs)
unfolding activate
activate-returns id [] h = refl
activate-returns id (pack ∷ packs) h = ground (
  arith,
  activate-returns id packs,
  activate-absent id (some (record pack { is_active = true })) packs,
)

-- When no id is used twice, setting an id active returns its pack, if there is one, marked active,
-- and that is the pack which is then the active one. Every other pack is inactive, and no pack is
-- changed in anything else.
pub lookup_after_activate :
    (id j : Text) (packs : List ContextPackDto)
    → id_count id packs ≤ 1
    → let (packs', activated) = activate id none packs in
      (activated ≡ Option.map (with_active id) (find_pack id packs))
      × (find_active packs' ≡ activated)
      × (find_pack j packs' ≡ Option.map (with_active id) (find_pack j packs))
lookup_after_activate id j packs h = (
  activate-returns id packs h,
  find_active-activate id none packs ∙ sym (activate-returns id packs h),
  find_pack-activate id j none packs,
)
