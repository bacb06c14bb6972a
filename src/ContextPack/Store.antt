-- ===== src/ContextPack/Store.antt =====
-- The changes that the operations of src-tauri/src/context_pack.rs make to the list of packs.
use replyline.Prelude.{
  Bool, List, Option, Text, [], false, find, if◌then◌else◌, none, some, text_eq, true, ℕ, ◌∷◌,
}
use replyline.ContextPack.Validation.{ContextPackDto}

pub record ContextPackStore : Type 0 where
  pub packs : List ContextPackDto

pub record ContextPackStatusDto : Type 0 where
  pub total_count : ℕ
  pub active_id : Option Text

abbrev pub has_id : Text → ContextPackDto → Bool
has_id id pack = text_eq pack.id id

-- `store.packs.iter().find(|p| p.id == id)`.
abbrev pub find_pack : Text → List ContextPackDto → Option ContextPackDto
find_pack id packs = find (has_id id) packs

-- `store.packs.iter().find(|p| p.is_active)`.
abbrev pub find_active : List ContextPackDto → Option ContextPackDto
find_active packs = find (λ pack. pack.is_active) packs

-- `for p in &mut store.packs { p.is_active = false; }`.
unfoldable pub deactivate_all : List ContextPackDto → List ContextPackDto
deactivate_all [] = []
deactivate_all (pack ∷ packs) = record pack { is_active = false } ∷ deactivate_all packs

-- The pack with this id is overwritten where it stands, or the new one is pushed at the end.
unfoldable pub upsert : ContextPackDto → List ContextPackDto → List ContextPackDto
upsert pack [] = pack ∷ []
upsert pack (old ∷ packs) = if has_id pack.id old then pack ∷ packs else old ∷ upsert pack packs

-- `created_at` of the pack that has the id now, or the present time.
unfoldable pub created_at_for : Text → Text → List ContextPackDto → Text
created_at_for now id packs = elim (find_pack id packs) [
  | some existing ↦ existing.created_at
  | none ↦ now
]

-- The pack that `save_context_pack` stores.
unfoldable pub stamped : Text → ContextPackDto → List ContextPackDto → ContextPackDto
stamped now input packs = record input {
  created_at = created_at_for now input.id packs;
  updated_at = now;
}

unfoldable pub saved : ContextPackDto → List ContextPackDto → List ContextPackDto
saved pack packs = upsert pack (if pack.is_active then deactivate_all packs else packs)

-- `store.packs.retain(|p| p.id != id)`.
unfoldable pub without : Text → List ContextPackDto → List ContextPackDto
without id [] = []
without id (pack ∷ packs) = if has_id id pack then without id packs else pack ∷ without id packs

-- The loop of `set_active_context_pack`, with the variable `activated`.
abbrev pub activated_by : Text → Option ContextPackDto → ContextPackDto → Option ContextPackDto
activated_by id activated pack =
    if has_id id pack then some (record pack { is_active = true }) else activated

unfoldable pub activate :
    Text → Option ContextPackDto → List ContextPackDto → List ContextPackDto × Option ContextPackDto
activate id activated [] = ([], activated)
activate id activated (pack ∷ packs) =
    let (packs', activated') = activate id (activated_by id activated pack) packs in
    (record pack { is_active = has_id id pack } ∷ packs', activated')
