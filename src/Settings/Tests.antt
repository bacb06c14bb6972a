-- ===== src/Settings/Tests.antt =====
-- The settings on concrete inputs, and each theorem about them at an input that meets its
-- hypotheses.
use replyline.Prelude.{
  Bool, List, Text, [], arith, codes, false, if◌then◌else◌, is_ok, join, none, refl, some, trim,
  true, ℕ, ◌∷◌, ◌≡◌,
}
use replyline.FsAtomic.{Disk, FilePath, path_eq}
use replyline.Settings.{is_reserved_hotkey, split, to_ascii_lowercase}
use replyline.Settings.Migration.{
  Json, get, insert, migrate_object, migrate_v8_to_v9, migrate_v9_to_v10, or_insert, remove,
  trace_include_content,
}
use replyline.Settings.Files.{Env, load}
use replyline.Settings.Valid.{load-valid}
use replyline.Settings.TraceMode.{migrated_trace_mode}
use replyline.Settings.Migrated.{migrate_object_keeps}

-- A value of an entry: the migrations do not look further.
data Leaf : Type 0 where
  number : ℕ → Leaf
  truth : Bool → Leaf
  text : Text → Leaf

abbrev leaf_json : Json Leaf
leaf_json = record {
  as_object = λ v. none;
  of_object = λ obj. number 0;
  as_u64 = λ v. elim v [ number n ↦ some n | truth b ↦ none | text s ↦ none ];
  as_bool = λ v. elim v [ number n ↦ none | truth b ↦ some b | text s ↦ none ];
  as_str = λ v. elim v [ number n ↦ none | truth b ↦ none | text s ↦ some s ];
  of_num = number;
  of_bool = truth;
  of_str = text;
}

abbrev v8 : List (Text × Leaf)
v8 =
    (codes "schemaVersion", number 8)
    ∷ (codes "hotkey", text (codes "Alt+Space"))
    ∷ (codes "traceIncludeContent", truth true)
    ∷ []

traces_follow_the_old_switch :
    get (codes "debugTraceMode") (migrate_object leaf_json 8 v8) ≡ some (text (codes "full_local"))
unfolding migrate_object migrate_v8_to_v9 migrate_v9_to_v10 trace_include_content get insert
    or_insert remove
traces_follow_the_old_switch = refl

migrate_object_keeps_example :
    get (codes "schemaVersion") (migrate_object leaf_json 8 v8) ≡ some (number 10)
migrate_object_keeps_example = (migrate_object_keeps leaf_json 8 v8 (omega arith)).0

migrated_trace_mode_example :
    get (codes "debugTraceMode") (migrate_object leaf_json 8 v8) ≡ some (text (codes "full_local"))
unfolding trace_include_content get
migrated_trace_mode_example = migrated_trace_mode leaf_json (λ b. refl) 8 v8 (omega arith)

reserved_hotkeys_are_case_insensitive : is_reserved_hotkey (codes " CTRL + Shift+r") ≡ true
unfolding is_reserved_hotkey split to_ascii_lowercase join trim
reserved_hotkeys_are_case_insensitive = refl

abbrev settings_file : FilePath
settings_file = record { parent = codes "/config"; file_name = codes "settings.json" }

-- A disk whose files hold a number, which no parser takes.
abbrev env : Env ℕ Leaf
env = record {
  settings_path = some settings_file;
  read_fails = false;
  quarantine_fails = false;
  ts = codes "20261126T180000";
  faults = record {
    create_dir_all = false;
    open_file = false;
    write_all = none;
    sync_all = false;
    replace = false;
    remove_file = false;
  };
  empty = 0;
  json = leaf_json;
  from_slice = λ raw. none;
  from_value = λ v. none;
  to_vec_pretty = λ settings. some 5;
  parse_url = λ s. none;
  parse_ip = λ s. none;
}

abbrev corrupt : Disk ℕ
corrupt p = if path_eq settings_file p then some 3 else none

load-valid_example : is_ok (load env corrupt).1 ≡ true
load-valid_example = (load-valid env corrupt).1 settings_file refl refl
