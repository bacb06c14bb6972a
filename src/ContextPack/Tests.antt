-- ===== src/ContextPack/Tests.antt =====
-- The store on small examples, and each theorem at an input that meets its hypotheses.
use replyline.Prelude.{
  Bool, List, Option, Text, [], arith, codes, contains, err, false, none, ok, refl, some, trim,
  true, ◌∷◌, ◌≡◌,
}
use replyline.FsAtomic.{
  Disk, put, reserve_from, reserve_temp_path, temp_candidate, write_bytes_atomically,
  write_json_atomically, write_through,
}
use replyline.ContextPack.Validation.{
  ContextPackDto, title_too_long, IsValidPack, id_path_traversal, is_ascii_alphanumeric,
  validate_content, validate_id, validate_pack, validate_pack_iff, validate_title,
}
use replyline.ContextPack.Store.{
  ContextPackStore, activate, created_at_for, deactivate_all, find_active, find_pack, saved,
  stamped, upsert, without,
}
use replyline.ContextPack.Files.{
  PackEnv, StoreFormat, context_packs_path, get_active_context_pack, load_store, load_store_at_path,
  save_context_pack, save_loaded, save_store, save_store_at_path,
}
use replyline.ContextPack.Laws.{IsConsistent, change-IsConsistent}
use replyline.ContextPack.Lookup.{find_pack-without, lookup_after_activate, lookup_after_save}
use replyline.ContextPack.Prompt.{compact_for_prompt, compact_for_prompt_bound}

abbrev make_pack : Text → Bool → ContextPackDto
make_pack id active = record {
  id = id;
  title = codes "Role";
  content = codes "Senior engineer";
  is_active = active;
  created_at = codes "t0";
  updated_at = codes "t0";
}

abbrev pack_a : ContextPackDto
pack_a = make_pack (codes "pack-a") true

abbrev pack_b : ContextPackDto
pack_b = make_pack (codes "pack_b") true

accepts_pack : validate_pack pack_a ≡ ok tt
unfolding validate_pack validate_id validate_title validate_content contains is_ascii_alphanumeric
accepts_pack = refl

rejects_path_traversal : validate_id (codes "../etc/passwd") ≡ err id_path_traversal
unfolding validate_id contains is_ascii_alphanumeric
rejects_path_traversal = refl

-- 101 letters of two bytes each are more than the 200 bytes of a title.
counts_bytes :
    validate_title (
      codes
        "ааааааааааааааааааааааааааааааааааааааааааааааааааааааааааааааааааааааааааааааааааааааааааааааааааааа")
    ≡ err title_too_long
unfolding validate_title
counts_bytes = refl

validate_pack_iff_example : IsValidPack pack_a
validate_pack_iff_example = (validate_pack_iff pack_a).0 accepts_pack

accepts_pack_b : validate_pack pack_b ≡ ok tt
unfolding validate_pack validate_id validate_title validate_content contains is_ascii_alphanumeric
accepts_pack_b = refl

abbrev one_pack : List ContextPackDto
one_pack = pack_a ∷ []

one_pack-IsConsistent : IsConsistent one_pack
one_pack-IsConsistent = record {
  one_active = omega arith;
  distinct = λ id. ground arith;
  checked = ((validate_pack_iff pack_a).0 accepts_pack, tt);
}

change-IsConsistent_example : IsConsistent (saved pack_b one_pack)
change-IsConsistent_example =
    (change-IsConsistent one_pack one_pack-IsConsistent).0 pack_b
      ((validate_pack_iff pack_b).0 accepts_pack_b)

lookup_after_save_example : find_active (saved pack_b one_pack) ≡ some pack_b
lookup_after_save_example = (lookup_after_save (codes "pack-a") pack_b one_pack).1 refl

lookup_after_activate_example :
    find_active (activate (codes "pack-a") none one_pack).0 ≡ some pack_a
unfolding activate
lookup_after_activate_example =
    (lookup_after_activate (codes "pack-a") (codes "x") one_pack (omega arith)).1

find_pack-without_example : find_pack (codes "pack-a") (without (codes "pack-a") one_pack) ≡ none
find_pack-without_example = find_pack-without (codes "pack-a") (codes "pack-a") one_pack

-- A format whose files are the stores themselves; `none` is a file that does not parse.
abbrev plain : StoreFormat (Option ContextPackStore)
plain = record {
  from_slice = λ bytes. bytes;
  to_vec_pretty = λ store. some (some store);
  empty = none;
}

abbrev env : PackEnv (Option ContextPackStore)
env = record {
  config_dir = some (codes "/home");
  now = codes "t1";
  ts = codes "20260101T000000";
  read_fails = false;
  quarantine_fails = false;
  faults = record {
    create_dir_all = false;
    open_file = false;
    write_all = none;
    sync_all = false;
    replace = false;
    remove_file = false;
  };
}

abbrev no_files : Disk (Option ContextPackStore)
no_files path = none

save_then_active :
    let after = (save_context_pack plain env pack_a no_files).0 in
    (get_active_context_pack plain env after).1
    ≡ ok (some (record pack_a { created_at = codes "t1"; updated_at = codes "t1" }))
unfolding save_context_pack get_active_context_pack save_loaded load_store load_store_at_path
    context_packs_path save_store save_store_at_path write_json_atomically write_bytes_atomically
    reserve_temp_path reserve_from temp_candidate write_through put validate_pack validate_id
    validate_title validate_content contains is_ascii_alphanumeric stamped created_at_for saved
    upsert deactivate_all
save_then_active = refl

compact_for_prompt_bound_example : compact_for_prompt (codes " hi ") ≡ codes "hi"
unfolding trim
compact_for_prompt_bound_example = (compact_for_prompt_bound (codes " hi ")).0 (omega arith)
