-- ===== src/ContextPack/Persistence.antt =====
-- The operations of src-tauri/src/context_pack.rs against the list of packs on the disk.
use replyline.Prelude.{
  Bool, Option, Result, Result-cases, Text, err, false, inl, inr, is_ok, map_err, ok, refl, some,
  true, ◌≡◌,
}
use replyline.FsAtomic.{Disk, FilePath, put}
use replyline.FsAtomic.Atomic.{put_self, write_json_effect}
use replyline.ContextPack.Store.{ContextPackStore}
use replyline.ContextPack.Files.{
  PackEnv, StoreFormat, context_packs_path, load_store, load_store_at_path, save_store,
  save_store_at_path,
}

-- serde_json reads back what it has printed.
abbrev pub RoundTrips : {B : Type 0} → StoreFormat B → Type 0
RoundTrips {B} format =
    (store : ContextPackStore) (bytes : B)
    → format.to_vec_pretty store ≡ some bytes
    → format.from_slice bytes ≡ some store

is_ok-map_err : {A E F : Type 0} (f : E → F) (r : Result A E) → is_ok (map_err f r) ≡ is_ok r
is_ok-map_err f (ok a) = refl
is_ok-map_err f (err e) = refl

module _ {B : Type 0} (format : StoreFormat B) (env : PackEnv B) where
  -- A save that succeeds replaces the file by the printed store; one that fails, if the removal of
  -- the temporary file does not fail too, changes nothing.
  save_store_effect :
      (store : ContextPackStore) (disk : Disk B)
      → let (disk', r) = save_store format env store disk in
        (is_ok r ≡ true
          → (path : FilePath) × (bytes : B) × (context_packs_path env.config_dir ≡ ok path)
            × (format.to_vec_pretty store ≡ some bytes)
            × (disk' ≡ put path (some bytes) disk))
        × (is_ok r ≡ false → env.faults.remove_file ≡ false → disk' ≡ disk)
  unfolding save_store save_store_at_path
  save_store_effect store disk = elim (Result-cases (context_packs_path env.config_dir)) [
    | inl (e, q) ↦ rw (q, save_store) (λ h. cc, λ _ _. refl)
    | inr (path, q) ↦
        let (written, same) =
          write_json_effect format.to_vec_pretty env.faults format.empty path store disk in
        rw (q, is_ok-map_err)
          (λ h. let (bytes, printed, e) = written h in (path, bytes, refl, printed, e), same)
  ]

-- A later read that does not fail sees this store, and changes nothing.
abbrev pub Stores : {B : Type 0} → StoreFormat B → Option Text → Disk B → ContextPackStore → Type 0
Stores {B} format config_dir disk store =
    (env : PackEnv B)
    → env.config_dir ≡ config_dir
    → env.read_fails ≡ false
    → load_store format env disk ≡ (disk, ok store)

put_get : {B : Type 0} (path : FilePath) (c : Option B) (disk : Disk B) → put path c disk path ≡ c
put_get path c disk = put_self path c disk

module _ {B : Type 0} (format : StoreFormat B) (round_trips : RoundTrips format)
    (env : PackEnv B) where
  load-put :
      (later : PackEnv B) (path : FilePath) (bytes : B) (store : ContextPackStore) (disk : Disk B)
      → context_packs_path later.config_dir ≡ ok path
      → format.to_vec_pretty store ≡ some bytes
      → later.read_fails ≡ false
      → load_store format later (put path (some bytes) disk)
        ≡ (put path (some bytes) disk, ok store)
  unfolding load_store load_store_at_path
  load-put later path bytes store disk q printed reads =
      rw (q, put_self path (some bytes) disk, load_store_at_path)
        (rw (reads, round_trips store bytes printed, load_store_at_path))

  -- How `save_store` ends: with the store on the disk, or with the disk as it was.
  abbrev pub Commits : ContextPackStore → Disk B → Disk B → Bool → Type 0
  Commits store disk disk' done =
      (done ≡ true → Stores format env.config_dir disk' store)
      × (done ≡ false → env.faults.remove_file ≡ false → disk' ≡ disk)

  pub save_store-Commits :
      (store : ContextPackStore) (disk : Disk B)
      → let (disk', r) = save_store format env store disk in Commits store disk disk' (is_ok r)
  save_store-Commits store disk =
      let (written, same) = save_store_effect format env store disk in
      (
        λ h later dir reads.
            let (path, bytes, q, printed, e) = written h in
            rw e (load-put later path bytes store disk (rw dir q) printed reads),
        same,
      )
