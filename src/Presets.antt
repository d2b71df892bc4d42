-- ===== src/Presets.antt =====
-- 9router_WatchEdit/core/combo_manager.py: `Preset` and `PresetManager`. What a file gives a preset is any
-- JSON value, since the load checks only that a preset is an object. The texts of the load errors
-- are left out; `now` is the time that a call reads.
pub mod Saving
pub mod Sessions
pub mod Loading
mod Examples
use Prim.Native.String.{◌++◌ as join}
use router_extra.Prelude.{
  String, Bool, true, false, not, Option, none, some, List, [], ◌∷◌, ◌++◌, is_none, if◌then◌else◌,
  get, put, delete_all,
}
use router_extra.Storage.{
  Json, null, bool, integer, other, str, arr, done, obj, Fields, end, field, field_or, items_of,
  Content, raw, text, Disk, Faults, Stage, write_file, LoadState, absent_file, loaded_file,
  malformed_json, invalid_record, io_error, quarantine_at,
}

pub record Preset : Type 0 where
  pub name : Json
  pub models : Json
  pub description : Json
  pub updated_at : Json

pub record PresetManager : Type 0 where
  pub presets : List (String × Preset)
  pub load_state : LoadState
  pub quarantined : Bool  -- `quarantine_path` is set

abbrev pub default_presets : List (String × List String)
default_presets =
    (
      "SAIFREN_FREE",
      "cog/swe-1.6-slow" ∷ "ag/gemini-3.8-flash-high" ∷ "wb/hy3" ∷ "bai/deepseek-v4-flash"
          ∷ "oc/muse-spark-1.3-contributor-free" ∷ "moyuu/deepseek-v4-flash"
          ∷ "oc/deepseek-v4-flash-free" ∷ [],
    )
    ∷ (
      "SAIFREN_FAST",
      "ag/gemini-3.8-flash-high" ∷ "cl/z-ai/glm-5.3-flash" ∷ "cl/deepseek/deepseek-v4-flash"
          ∷ "wb/hy4-preview" ∷ "moyuu/glm-5.3-flash" ∷ [],
    )
    ∷ (
      "CODING_FREE",
      "cog/swe-1.6-slow" ∷ "ag/gemini-3.8-flash-high" ∷ "wb/hy3" ∷ "cl/deepseek/deepseek-v4-flash"
          ∷ "ocg/deepseek-v4-flash" ∷ "dahl/deepseek-ai/DeepSeek-V4-Flash-0731" ∷ [],
    )
    ∷ (
      "EMERGENCY_FALLBACK",
      "ag/gemini-3.8-flash-high" ∷ "wb/hy3" ∷ "gorouter/claude-opus-5-thinking"
          ∷ "tb/claude-opus-5-thinking" ∷ [],
    )
    ∷ []

unfoldable pub new_preset : String → String → List String → String → Preset
unfolding items_of
new_preset now name models description = record {
  name = str name;
  models = arr (items_of models);
  description = str description;
  updated_at = str now;
}

unfoldable pub seed :
    String → List (String × List String) → List (String × Preset) → List (String × Preset)
unfolding put new_preset
seed now [] held = held
seed now ((name, models) ∷ rest) held =
    seed now rest (put name (new_preset now name models (join "Built-in preset: " name)) held)

unfoldable pub as_dict : Preset → Json
as_dict p = obj (
    field "name" p.name (
      field "models" p.models
        (field "description" p.description (field "updated_at" p.updated_at end))))

unfoldable pub presets_json : List (String × Preset) → Fields
unfolding as_dict
presets_json [] = end
presets_json ((name, p) ∷ rest) = field name (as_dict p) (presets_json rest)

-- The manager stays; the disk is changed, or the stage that failed is raised.
unfoldable pub save : Option Stage → PresetManager → Disk → Disk × Option Stage
unfolding write_file presets_json
save fails m d = write_file fails (obj (presets_json m.presets)) d

unfoldable pub preset_from : String → Fields → Preset
unfolding field_or
preset_from name item = record {
  name = str name;
  models = field_or "models" (arr done) item;
  description = field_or "description" (str "") item;
  updated_at = field_or "updated_at" (str "") item;
}

-- `none` where a preset is no object.
unfoldable pub read_presets : Fields → List (String × Preset) → Option (List (String × Preset))
unfolding put preset_from
read_presets end held = some held
read_presets (field name (obj item) rest) held =
    read_presets rest (put name (preset_from name item) held)
read_presets (field name j rest) held = none

-- The state of a manager whose presets are the defaults.
unfoldable pub seeded : String → LoadState → Bool → PresetManager
unfolding seed
seeded now state kept = record {
  presets = seed now default_presets [];
  load_state = state;
  quarantined = kept;
}

-- `_preserve_and_seed`: the defaults are saved only over bytes that are in the quarantine.
unfoldable pub preserve_and_seed :
    String → Option Stage → Faults → LoadState → Content → Disk → PresetManager × Disk
unfolding seeded save quarantine_at
preserve_and_seed now fails f state c d =
    let (after, kept) = quarantine_at f.left c d in
    let m = seeded now state kept in (m, if kept then (save fails m after).0 else after)

unfoldable pub accept :
    String
    → Option Stage
    → Faults
    → Content
    → Disk
    → Option (List (String × Preset))
    → PresetManager × Disk
unfolding preserve_and_seed
accept now fails f c d none = preserve_and_seed now fails f invalid_record c d
accept now fails f c d (some found) =
    (record { presets = found; load_state = loaded_file; quarantined = false }, d)

unfoldable pub load_content : String → Option Stage → Faults → Content → Disk → PresetManager × Disk
unfolding accept preserve_and_seed read_presets
load_content now fails f (raw t) d = preserve_and_seed now fails f malformed_json (raw t) d
load_content now fails f (text (obj fs)) d =
    accept now fails f (text (obj fs)) d (read_presets fs [])
load_content now fails f (text j) d = preserve_and_seed now fails f invalid_record (text j) d

unfoldable pub load_file :
    String → Option Stage → Faults → Option Content → Disk → PresetManager × Disk
unfolding load_content seeded save
load_file now fails f none d = let m = seeded now absent_file false in (m, (save fails m d).0)
load_file now fails f (some c) d =
    if f.unreadable then (seeded now io_error false, d) else load_content now fails f c d

-- The constructor and `load`; `fails` is what becomes of the save of the defaults.
unfoldable pub load : String → Option Stage → Faults → Disk → PresetManager × Disk
unfolding load_file
load now fails f d = load_file now fails f d.file d

-- `self.presets[name] = previous`, or `pop` where there was none.
unfoldable pub roll_back : String → Option Preset → List (String × Preset) → List (String × Preset)
unfolding put delete_all
roll_back name none held = delete_all (name ∷ []) held
roll_back name (some previous) held = put name previous held

-- The manager, the disk and the stage that was raised.
unfoldable pub finish_save :
    String
    → Option Preset
    → PresetManager
    → Disk × Option Stage
    → PresetManager × Disk × Option Stage
unfolding roll_back
finish_save name previous m (d, none) = (m, d, none)
finish_save name previous m (d, some stage) =
    (record m { presets = roll_back name previous m.presets }, d, some stage)

unfoldable pub save_preset :
    String
    → Option Stage
    → String
    → List String
    → String
    → PresetManager
    → Disk
    → PresetManager × Disk × Option Stage
unfolding finish_save save get put new_preset
save_preset now fails name models description m d =
    let held = record m { presets = put name (new_preset now name models description) m.presets } in
    finish_save name (get name m.presets) held (save fails held d)

unfoldable pub delete_held :
    Option Stage
    → String
    → Option Preset
    → PresetManager
    → Disk
    → PresetManager × Disk × Option Stage × Bool
unfolding finish_save save delete_all
delete_held fails name none m d = (m, d, none, false)
delete_held fails name (some previous) m d =
    let rest = record m { presets = delete_all (name ∷ []) m.presets } in
    let (after, e, raised) = finish_save name (some previous) rest (save fails rest d) in
    (after, e, raised, is_none raised)

-- Also whether it returns that the preset was deleted.
unfoldable pub delete_preset :
    Option Stage → String → PresetManager → Disk → PresetManager × Disk × Option Stage × Bool
unfolding get delete_held
delete_preset fails name m d = delete_held fails name (get name m.presets) m d
