-- ===== src/Presets/Sessions.antt =====
-- Whole sessions of the preset manager: what is in memory is what the file holds.
use router_extra.Prelude.{
  String, ◌≡◌, refl, sym, ◌∙◌, subst, false, Option, none, some, List, [], ◌∷◌, get, put,
  delete_all, Apart-none, Option-cases, inl, inr,
}
use router_extra.Storage.{obj, text, Disk, Faults, Stage, write_file, loaded_file, absent_file}
use router_extra.Presets.{
  Preset, PresetManager, default_presets, seed, presets_json, new_preset, save, save_preset,
  delete_preset, finish_save, roll_back, delete_held, load, load_file, load_content, accept, seeded,
}
use router_extra.Presets.Saving.{
  IsKeyed, put-IsKeyed, delete_all-IsKeyed, get-IsKeyed, read_presets-presets_json, failed_save_lem,
  get-deleted_back,
}

-- A call with the stage at which its save fails, if it does.
pub data PresetEdit : Type 0 where
  saves :
      (now : String)
      → (fails : Option Stage) → (name : String) → (models : List String) → (description : String)
      → PresetEdit
  deletes : (fails : Option Stage) → (name : String) → PresetEdit

unfoldable pub edit_presets : PresetEdit → PresetManager × Disk → PresetManager × Disk
unfolding save_preset delete_preset
edit_presets (saves now fails name models description) (m, d) =
    let (after, e, raised) = save_preset now fails name models description m d in (after, e)
edit_presets (deletes fails name) (m, d) =
    let (after, e, raised, done) = delete_preset fails name m d in (after, e)

unfoldable pub edit_all : List PresetEdit → PresetManager × Disk → PresetManager × Disk
unfolding edit_presets
edit_all [] s = s
edit_all (e ∷ es) s = edit_all es (edit_presets e s)

-- The file holds presets that are found as those in memory are.
record Agrees (m : PresetManager) (d : Disk) : Type 0 where
  held : List (String × Preset)
  on_disk : d.file ≡ some (text (obj (presets_json held)))
  held_keyed : IsKeyed held
  keyed : IsKeyed m.presets
  same : (id : String) → get id held ≡ get id m.presets

saved-Agrees : (m : PresetManager) (d : Disk) → IsKeyed m.presets → Agrees m (save none m d).0
unfolding save write_file
saved-Agrees m d k = record {
  held = m.presets;
  on_disk = refl;
  held_keyed = k;
  keyed = k;
  same = λ id. refl;
}

save_preset-Agrees :
    (now : String) (fails : Option Stage) (name : String) (models : List String)
    (description : String) (m : PresetManager) (d : Disk)
    → Agrees m d
    → let r = save_preset now fails name models description m d in Agrees r.0 r.1
unfolding save_preset finish_save save write_file new_preset
save_preset-Agrees now none name models description m d h =
    saved-Agrees
      (record m { presets = put name (new_preset now name models description) m.presets }) d
      (put-IsKeyed name (new_preset now name models description) m.presets refl h.keyed)
save_preset-Agrees now (some stage) name models description m d h =
    subst (λ (r : PresetManager × Disk × Option Stage). Agrees r.0 r.1)
      (sym (failed_save_lem now stage name models description m d).0) h

delete_held-Agrees :
    (fails : Option Stage) (name : String) (q : Preset) (m : PresetManager) (d : Disk)
    → get name m.presets ≡ some q
    → Agrees m d
    → let r = delete_held fails name (some q) m d in Agrees r.0 r.1
unfolding delete_held finish_save save write_file roll_back
delete_held-Agrees none name q m d e h =
    saved-Agrees (record m { presets = delete_all (name ∷ []) m.presets }) d
      (delete_all-IsKeyed (name ∷ []) m.presets h.keyed)
delete_held-Agrees (some stage) name q m d e h = record {
  held = h.held;
  on_disk = h.on_disk;
  held_keyed = h.held_keyed;
  keyed =
      put-IsKeyed name q (delete_all (name ∷ []) m.presets) (get-IsKeyed name q m.presets h.keyed e)
        (delete_all-IsKeyed (name ∷ []) m.presets h.keyed);
  same = λ id. h.same id ∙ sym (get-deleted_back name id q m.presets e);
}

delete_preset-Agrees :
    (fails : Option Stage) (name : String) (m : PresetManager) (d : Disk)
    → Agrees m d
    → let r = delete_preset fails name m d in Agrees r.0 r.1
unfolding delete_preset delete_held
delete_preset-Agrees fails name m d h = elim (Option-cases (get name m.presets)) [
  | inl e ↦ rw e h
  | inr (q, e) ↦ rw e (delete_held-Agrees fails name q m d e h)
]

edit_all-Agrees :
    (es : List PresetEdit) (s : PresetManager × Disk)
    → Agrees s.0 s.1
    → Agrees (edit_all es s).0 (edit_all es s).1
unfolding edit_all edit_presets
edit_all-Agrees [] s h = h
edit_all-Agrees (saves now fails name models description ∷ es) (m, d) h =
    edit_all-Agrees es _ (save_preset-Agrees now fails name models description m d h)
edit_all-Agrees (deletes fails name ∷ es) (m, d) h =
    edit_all-Agrees es _ (delete_preset-Agrees fails name m d h)

seed-IsKeyed :
    (now : String) (given : List (String × List String)) (held : List (String × Preset))
    → IsKeyed held
    → IsKeyed (seed now given held)
unfolding seed new_preset
seed-IsKeyed now [] held h = h
seed-IsKeyed now ((name, models) ∷ rest) held h =
    seed-IsKeyed now rest _ (put-IsKeyed name _ held refl h)

load-Agrees :
    (now : String) (fails : Option Stage) (f : Faults) (m : PresetManager) (d : Disk)
    → Agrees m d
    → f.unreadable ≡ false
    → let (next, e) = load now fails f d in
      (next.load_state ≡ loaded_file)
      × (e ≡ d)
      × ((id : String) → get id next.presets ≡ get id m.presets)
unfolding load load_file load_content accept
load-Agrees now fails f m d h r = rw h.on_disk (
    rw r (
      rw (read_presets-presets_json h.held [] h.held_keyed (Apart-none h.held))
        (refl, refl, h.same)))

first_start-Agrees :
    (now : String) (f : Faults) (d : Disk)
    → d.file ≡ none
    → Agrees (load now none f d).0 (load now none f d).1
unfolding load load_file seeded
first_start-Agrees now f d h = rw h (
    saved-Agrees (seeded now absent_file false) (record d { file = none })
      (seed-IsKeyed now default_presets [] tt))

-- From a first start on, whichever presets are saved and deleted and whichever of these saves
-- fail, memory and file do not part: a manager that reads the file then loads it, leaves it as it
-- is, and finds under every name what the running manager has there.
pub presets_agree :
    (now later : String) (fails : Option Stage) (f g : Faults) (d : Disk) (es : List PresetEdit)
    → d.file ≡ none
    → g.unreadable ≡ false
    → let (m, e) = edit_all es (load now none f d) in
      let (next, after) = load later fails g e in
      (next.load_state ≡ loaded_file)
      × (after ≡ e)
      × ((id : String) → get id next.presets ≡ get id m.presets)
presets_agree now later fails f g d es h r =
    load-Agrees later fails g (edit_all es (load now none f d)).0
      (edit_all es (load now none f d)).1
      (edit_all-Agrees es (load now none f d) (first_start-Agrees now f d h)) r
