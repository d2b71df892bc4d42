-- ===== src/Presets/Examples.antt =====
-- The preset manager at concrete files, and the theorems about it at such files.
use router_extra.Prelude.{String, ◌≡◌, refl, false, none, some, List, [], ◌∷◌, get}
use router_extra.Storage.{raw, Disk, Faults, mkdir, fsync, loaded_file}
use router_extra.Presets.{Preset, PresetManager, new_preset, save_preset, delete_preset, load}
use router_extra.Presets.Saving.{failed_save_lem}
use router_extra.Presets.Sessions.{PresetEdit, saves, deletes, edit_all, presets_agree}

abbrev free_preset : Preset
unfolding new_preset
free_preset = new_preset "t0" "FREE" ("a" ∷ []) ""

abbrev manager : PresetManager
manager = record {
  presets = ("FREE", free_preset) ∷ [];
  load_state = loaded_file;
  quarantined = false;
}

abbrev bare : Disk
bare = record { file = none; quarantine = none }

abbrev broken : Disk
broken = record { file = some (raw "{"); quarantine = none }

abbrev no_fault : Faults
no_fault = record { unreadable = false; left = none; kept_source = false }

abbrev full_quarantine : Faults
full_quarantine = record { unreadable = false; left = some none; kept_source = false }

abbrev calls : List PresetEdit
calls =
    saves "t1" none "MINE" ("a" ∷ "b" ∷ []) ""
    ∷ deletes (some fsync) "FREE"
    ∷ saves "t2" (some mkdir) "MINE" [] ""
    ∷ []

failed_save_example :
    (save_preset "t1" (some fsync) "FREE" ("a" ∷ []) "" manager bare ≡ (manager, bare, some fsync))
    × ((q : Preset)
        → get "FREE" manager.presets ≡ some q
        → let (after, e, raised, done) = delete_preset (some fsync) "FREE" manager bare in
          (e ≡ bare)
          × (raised ≡ some fsync)
          × (done ≡ false)
          × ((other : String) → get other after.presets ≡ get other manager.presets))
failed_save_example = failed_save_lem "t1" fsync "FREE" ("a" ∷ []) "" manager bare

presets_agree_example :
    let (m, e) = edit_all calls (load "t0" none no_fault bare) in
    let (next, after) = load "t3" none no_fault e in
    (next.load_state ≡ loaded_file)
    × (after ≡ e)
    × ((id : String) → get id next.presets ≡ get id m.presets)
presets_agree_example = presets_agree "t0" "t3" none no_fault no_fault bare calls refl refl
