-- ===== src/ContextPack/Files.antt =====
-- The operations of src-tauri/src/context_pack.rs on the disk.
use replyline.Prelude.{
  Bool, List, Option, Result, Text, [], codes, err, if◌then◌else◌, length, map_err, none, ok, some,
  ◌++◌, ◌==◌,
}
use replyline.FsAtomic.{
  Disk, Faults, FilePath, IoErrorKind, rename, with_file_name, write_json_atomically,
}
use replyline.FsAtomic.Atomic.{start}
use replyline.ContextPack.Validation.{
  ContextPackDto, ContextPackValidationError, not_found, validate_id, validate_pack,
}
use replyline.ContextPack.Store.{
  ContextPackStatusDto, ContextPackStore, activate, deactivate_all, find_active, saved, stamped,
  without,
}
use mathlib.Core.Option

pub data PackError : Type 0 where
  config_dir_unavailable : PackError
  io : IoErrorKind → PackError
  invalid : ContextPackValidationError → PackError

-- serde_json on the store, and the contents of an empty file.
pub record StoreFormat (B : Type 0) : Type 0 where
  pub from_slice : B → Option ContextPackStore
  pub to_vec_pretty : ContextPackStore → Option B
  pub empty : B

-- What one call finds outside: the configuration directory, the clock (`now` in RFC 3339 and `ts`
-- for the name of a backup) and the calls of the system that fail.
pub record PackEnv (B : Type 0) : Type 0 where
  pub config_dir : Option Text
  pub now : Text
  pub ts : Text
  pub read_fails : Bool
  pub quarantine_fails : Bool
  pub faults : Faults B

unfoldable pub context_packs_path : Option Text → Result FilePath PackError
context_packs_path none = err config_dir_unavailable
context_packs_path (some base) =
    ok (record {
      parent = base ++ codes "/com.replyline.app";
      file_name = codes "context-packs.json";
    })

abbrev pub M : Type 0 → Type 0 → Type 0
M B A = Disk B → Disk B × Result A PackError

-- The `?` operator: an error ends the operation, with the disk as it is.
infixl 5 ◌>>=◌
abbrev pub ◌>>=◌ : {B A C : Type 0} → M B A → (A → M B C) → M B C
◌>>=◌ m f disk = let (disk', r) = m disk in elim r [ ok a ↦ f a disk' | err e ↦ (disk', err e) ]

abbrev pub of_result : {B A : Type 0} → Result A PackError → M B A
of_result r disk = (disk, r)

abbrev pub return : {B A : Type 0} → A → M B A
return a disk = (disk, ok a)

module _ {B : Type 0} (format : StoreFormat B) (env : PackEnv B) where
  -- `let _ = fs::rename(path, &corrupt_path)`.
  unfoldable pub quarantine_corrupt_context_packs : FilePath → Disk B → Disk B
  quarantine_corrupt_context_packs path disk =
      let corrupt_path = with_file_name path (codes "context-packs.json.corrupt." ++ env.ts) in
      if env.quarantine_fails then disk else rename path corrupt_path disk

  unfoldable pub load_store_at_path : FilePath → M B ContextPackStore
  load_store_at_path path disk = elim (disk path) [
    | none ↦ (disk, ok (record { packs = [] }))
    | some raw ↦
        if env.read_fails
        then (quarantine_corrupt_context_packs path disk, ok (record { packs = [] }))
        else elim (format.from_slice raw) [
          | some store ↦ (disk, ok store)
          | none ↦ (quarantine_corrupt_context_packs path disk, ok (record { packs = [] }))
        ]
  ]

  unfoldable pub save_store_at_path : FilePath → ContextPackStore → M B (Unit {0})
  save_store_at_path path store disk =
      let (w, r) =
        write_json_atomically format.to_vec_pretty env.faults format.empty path store
          (start disk) in
      (w.disk, map_err io r)

  unfoldable pub load_store : M B ContextPackStore
  load_store = do path ← of_result (context_packs_path env.config_dir); load_store_at_path path

  unfoldable pub save_store : ContextPackStore → M B (Unit {0})
  save_store store = do
    path ← of_result (context_packs_path env.config_dir)
    save_store_at_path path store

  unfoldable pub list_context_packs : M B (List ContextPackDto)
  list_context_packs = do store ← load_store; return store.packs

  -- Each operation that changes the store, from where the store is loaded.
  unfoldable pub save_loaded : ContextPackDto → ContextPackStore → M B ContextPackDto
  save_loaded input store = do
    let pack = stamped env.now input store.packs
    _ ← save_store (record { packs = saved pack store.packs })
    return pack

  unfoldable pub save_context_pack : ContextPackDto → M B ContextPackDto
  save_context_pack input = do
    _ ← of_result (map_err invalid (validate_pack input))
    store ← load_store
    save_loaded input store

  unfoldable pub delete_loaded : Text → ContextPackStore → M B (Unit {0})
  delete_loaded id store =
      let packs = without id store.packs in
      let rest = save_store (record { packs = packs }) in
      if length packs == length store.packs then of_result (err (invalid not_found)) else rest

  unfoldable pub delete_context_pack : Text → M B (Unit {0})
  delete_context_pack id = do
    _ ← of_result (map_err invalid (validate_id id))
    store ← load_store
    delete_loaded id store

  unfoldable pub activate_loaded : Text → ContextPackStore → M B ContextPackDto
  activate_loaded id store =
      let (packs, activated) = activate id none store.packs in
      elim activated [
        | some pack ↦ save_store (record { packs = packs }) >>= λ _. return pack
        | none ↦ of_result (err (invalid not_found))
      ]

  unfoldable pub set_active_context_pack : Text → M B ContextPackDto
  set_active_context_pack id = do
    _ ← of_result (map_err invalid (validate_id id))
    store ← load_store
    activate_loaded id store

  unfoldable pub clear_loaded : ContextPackStore → M B (Unit {0})
  clear_loaded store = save_store (record { packs = deactivate_all store.packs })

  unfoldable pub clear_active_context_pack : M B (Unit {0})
  clear_active_context_pack = do store ← load_store; clear_loaded store

  unfoldable pub get_active_context_pack : M B (Option ContextPackDto)
  get_active_context_pack = do store ← load_store; return (find_active store.packs)

  unfoldable pub status : M B ContextPackStatusDto
  status = do
    store ← load_store
    return (record {
      total_count = length store.packs;
      active_id = Option.map (λ (pack : ContextPackDto). pack.id) (find_active store.packs);
    })
