-- ===== src/ContextPack/Decisions.antt =====
-- When the operations of src-tauri/src/context_pack.rs refuse, and that otherwise only the write
-- can fail.
use replyline.ContextPack.Files.{
  M, PackEnv, PackError, StoreFormat, activate_loaded, clear_active_context_pack, clear_loaded,
  delete_loaded, invalid, load_store, of_result, return, save_loaded, save_store, ◌>>=◌,
}
use replyline.Prelude.{
  suc, Bool, Bool-cases, List, Option, Result, Result-cases, Text, [], any, ap, arith, err, false,
  if◌then◌else◌, inl, inr, is_ok, length, map_err, none, not, ok, refl, some, subst, sym, true, ℕ,
  ◌<◌, ◌==◌, ◌∙◌, ◌∷◌, ◌≡◌, ◌≤◌,
}
use replyline.FsAtomic.{Disk}
use replyline.ContextPack.Validation.{
  ContextPackDto, ContextPackValidationError, not_found, validate_id,
}
use replyline.ContextPack.Store.{
  ContextPackStore, activate, deactivate_all, has_id, saved, stamped, without,
}

pub bind-ok :
    {B A C : Type 0} (m : M B A) (f : A → M B C) (disk disk' : Disk B) (a : A)
    → m disk ≡ (disk', ok a)
    → (m >>= f) disk ≡ f a disk'
bind-ok {B} {A} m f disk disk' a e =
    ap (λ (o : Disk B × Result A PackError). ◌>>=◌ (λ _. o) f disk) e

pub bind-err :
    {B A C : Type 0} (m : M B A) (f : A → M B C) (disk disk' : Disk B) (x : PackError)
    → m disk ≡ (disk', err x)
    → (m >>= f) disk ≡ (disk', err x)
bind-err {B} {A} m f disk disk' x e =
    ap (λ (o : Disk B × Result A PackError). ◌>>=◌ (λ _. o) f disk) e

pub ok_tt : {r : Result (Unit {0}) PackError} → is_ok r ≡ true → r ≡ ok tt
ok_tt {r} h = ground arith

-- The value returned once the store is saved.
unfoldable pub finish :
    {B A : Type 0} → A → Disk B × Result (Unit {0}) PackError → Disk B × Result A PackError
finish value (disk, ok u) = (disk, ok value)
finish value (disk, err e) = (disk, err e)

pub finish_lem :
    {B A : Type 0} (m : M B (Unit {0})) (value : A) (disk : Disk B)
    → (m >>= λ _. return value) disk ≡ finish value (m disk)
unfolding finish
finish_lem {B} {A} m value disk = go (m disk)
  where
    go :
        (o : Disk B × Result (Unit {0}) PackError)
        → ◌>>=◌ (λ _. o) (λ _. return value) disk ≡ finish value o
    go (disk', ok u) = refl
    go (disk', err e) = refl

is_ok-finish :
    {B A : Type 0} (value : A) (o : Disk B × Result (Unit {0}) PackError)
    → is_ok (finish value o).1 ≡ is_ok o.1
unfolding finish
is_ok-finish value (disk, ok u) = refl
is_ok-finish value (disk, err e) = refl

-- Whether some pack has the id.
abbrev pub has_pack : Text → List ContextPackDto → Bool
has_pack id packs = any (has_id id) packs

-- The first of two checks that refuses.
abbrev pub both :
    Result (Unit {0}) ContextPackValidationError
    → Result (Unit {0}) ContextPackValidationError
    → Result (Unit {0}) ContextPackValidationError
both (err e) r = err e
both (ok u) r = r

abbrev pub found_by : Bool → Result (Unit {0}) ContextPackValidationError
found_by there = if there then ok tt else err not_found

-- The id is well-formed and some pack has it.
abbrev pub names_pack : Text → List ContextPackDto → Result (Unit {0}) ContextPackValidationError
names_pack id packs = both (validate_id id) (found_by (has_pack id packs))

length-without_le :
    (id : Text) (packs : List ContextPackDto) → length (without id packs) ≤ length packs
unfolding without
length-without_le id [] = omega arith
length-without_le id (pack ∷ packs) = elim (Bool-cases (has_id id pack)) [
  | inl same ↦ rw same (omega (arith, length-without_le id packs))
  | inr differing ↦ rw differing (omega (arith, length-without_le id packs))
]

differs : (a b : ℕ) → a < b → (a == b) ≡ false
differs a b h = ground arith

step_eq : (a b : ℕ) → (suc a == suc b) ≡ (a == b)
step_eq a b = ground arith

-- Removing an id shortens the list exactly if some pack has it.
length-without :
    (id : Text) (packs : List ContextPackDto)
    → (length (without id packs) == length packs) ≡ not (has_pack id packs)
unfolding without
length-without id [] = refl
length-without id (pack ∷ packs) = elim (Bool-cases (has_id id pack)) [
  | inl same ↦ rw same (differs _ _ (omega (arith, length-without_le id packs)))
  | inr differing ↦ rw differing (step_eq _ _ ∙ length-without id packs)
]

activate-absent :
    (id : Text) (activated : Option ContextPackDto) (packs : List ContextPackDto)
    → has_pack id packs ≡ false
    → (activate id activated packs).1 ≡ activated
unfolding activate
activate-absent id activated [] h = refl
activate-absent id activated (pack ∷ packs) h = elim (Bool-cases (has_id id pack)) [
  | inl same ↦ cc (rw same at h)
  | inr differing ↦ rw differing (activate-absent id activated packs (rw differing at h))
]

activate-some :
    (id : Text) (pack : ContextPackDto) (packs : List ContextPackDto)
    → (p : ContextPackDto) × ((activate id (some pack) packs).1 ≡ some p)
unfolding activate
activate-some id pack [] = (pack, refl)
activate-some id pack (next ∷ packs) = elim (Bool-cases (has_id id next)) [
  | inl same ↦ rw same (activate-some id _ packs)
  | inr differing ↦ rw differing (activate-some id pack packs)
]

activate-present :
    (id : Text) (activated : Option ContextPackDto) (packs : List ContextPackDto)
    → has_pack id packs ≡ true
    → (p : ContextPackDto) × ((activate id activated packs).1 ≡ some p)
unfolding activate
activate-present id activated [] h = cc
activate-present id activated (pack ∷ packs) h = elim (Bool-cases (has_id id pack)) [
  | inl same ↦ rw same (activate-some id _ packs)
  | inr differing ↦ rw differing (activate-present id activated packs (rw differing at h))
]

module _ {B : Type 0} (format : StoreFormat B) (env : PackEnv B) where
  -- What the checks refuse is refused with their error and changes nothing; what they pass succeeds
  -- exactly if the changed list can be written.
  abbrev pub Decides :
      {A : Type 0}
      → Result (Unit {0}) ContextPackValidationError
      → List ContextPackDto
      → Disk B
      → Disk B × Result A PackError
      → Type 0
  Decides {A} checks packs disk outcome =
      ((e : ContextPackValidationError) → checks ≡ err e → outcome ≡ (disk, err (invalid e)))
      × (checks ≡ ok tt
          → is_ok outcome.1 ≡ is_ok (save_store format env (record { packs = packs }) disk).1)

  finish-Decides :
      {A : Type 0} (packs : List ContextPackDto) (value : A) (disk : Disk B)
      → Decides
          (ok tt)
          packs
          disk
          ((save_store format env (record { packs = packs }) >>= λ _. return value) disk)
  finish-Decides packs value disk = (
    λ e h. cc,
    λ _.
        ap (λ o. is_ok o.1) (finish_lem (save_store format env _) value disk)
        ∙ is_ok-finish value (save_store format env (record { packs = packs }) disk),
  )

  module _ (store : ContextPackStore) (disk : Disk B)
      (loads : load_store format env disk ≡ (disk, ok store)) where
    pub checked_run :
        {A : Type 0} (check : Result (Unit {0}) ContextPackValidationError)
        (k : ContextPackStore → M B A)
        → check ≡ ok tt
        → (of_result (map_err invalid check) >>= λ _. load_store format env >>= k) disk
          ≡ k store disk
    checked_run check k q = rw q (bind-ok (load_store format env) k disk disk store loads)

    -- The checks before the load and those after it.
    pub checked_Decides :
        {A : Type 0} (check found : Result (Unit {0}) ContextPackValidationError)
        (k : ContextPackStore → M B A) (packs : List ContextPackDto)
        → Decides found packs disk (k store disk)
        → Decides
            (both check found)
            packs
            disk
            ((of_result (map_err invalid check) >>= λ _. load_store format env >>= k) disk)
    checked_Decides check found k packs h = elim (Result-cases check) [
      | inl (e, q) ↦ rw q (λ x same. cc, λ no. cc)
      | inr (u, q) ↦
          subst (Decides (both check found) packs disk) (sym (checked_run check k q))
            (subst (λ c. Decides (both c found) packs disk (k store disk)) (sym q) h)
    ]

    pub save_loaded-Decides :
        (input : ContextPackDto)
        → Decides
            (ok tt)
            (saved (stamped env.now input store.packs) store.packs)
            disk
            (save_loaded format env input store disk)
    unfolding save_loaded
    save_loaded-Decides input = finish-Decides _ (stamped env.now input store.packs) disk

    pub delete_loaded-Decides :
        (id : Text)
        → Decides
            (found_by (has_pack id store.packs))
            (without id store.packs)
            disk
            (delete_loaded format env id store disk)
    unfolding delete_loaded
    delete_loaded-Decides id = elim (Bool-cases (has_pack id store.packs)) [
      | inl there ↦ rw (length-without id store.packs, there) (λ e h. cc, λ _. refl)
      | inr absent ↦ rw (length-without id store.packs, absent) (λ e h. cc, λ h. cc)
    ]

    pub activate_loaded-Decides :
        (id : Text)
        → Decides
            (found_by (has_pack id store.packs))
            (activate id none store.packs).0
            disk
            (activate_loaded format env id store disk)
    unfolding activate_loaded
    activate_loaded-Decides id = elim (Bool-cases (has_pack id store.packs)) [
      | inl there ↦
          let (pack, found) = activate-present id none store.packs there in
          rw (there, found, activate_loaded) (finish-Decides _ pack disk)
      | inr absent ↦
          rw (absent, activate-absent id none store.packs absent, activate_loaded)
            (λ e h. cc, λ h. cc)
    ]

    pub clear_loaded-Decides :
        Decides
          (ok tt)
          (deactivate_all store.packs)
          disk
          (clear_active_context_pack format env disk)
    unfolding clear_active_context_pack clear_loaded
    clear_loaded-Decides =
        subst (Decides (ok tt) (deactivate_all store.packs) disk)
          (sym (bind-ok (load_store format env) (clear_loaded format env) disk disk store loads))
          (λ e h. cc, λ _. refl)
