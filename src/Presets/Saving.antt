-- ===== src/Presets/Saving.antt =====
-- Saving and deleting a preset, where the save succeeds and where it fails.
use router_extra.Prelude.{
  put-put, delete_all-put, String, ◌≡◌, refl, sym, ap, subst, ◌∙◌, false, Option, none, some, List,
  [], ◌∷◌, ◌++◌, arith, str_eq, eq_iff, eq_refl, keep, contains, get, put, delete_all, get-put,
  get-delete_all, Apart, put-Apart, put-append, append-nil, inl, inr, Bool-cases,
}
use router_extra.Storage.{str, field_or, Disk, Stage, write_file}
use router_extra.Presets.{
  Preset, PresetManager, presets_json, as_dict, preset_from, read_presets, new_preset, save,
  save_preset, delete_preset, finish_save, roll_back, delete_held,
}

abbrev pub IsKeyed : List (String × Preset) → Type 0
IsKeyed [] = Unit {0}
IsKeyed ((name, p) ∷ rest) = (p.name ≡ str name) × (get name rest ≡ none) × IsKeyed rest

pub put-IsKeyed :
    (name : String) (p : Preset) (m : List (String × Preset))
    → p.name ≡ str name
    → IsKeyed m
    → IsKeyed (put name p m)
unfolding put get
put-IsKeyed name p [] e h = (e, refl, tt)
put-IsKeyed name p ((k, q) ∷ rest) e h = elim (Bool-cases (str_eq k name)) [
  | inl s ↦ rw s (ground (arith, eq_iff k name, ap (λ i. get i rest)))
  | inr s ↦ rw s (
      ground
        (arith, eq_iff name k, put-IsKeyed name p rest e h.2, get-put name k p rest, eq_refl k))
]

pub delete_all-IsKeyed :
    (ids : List String) (m : List (String × Preset)) → IsKeyed m → IsKeyed (delete_all ids m)
unfolding delete_all keep
delete_all-IsKeyed ids [] h = tt
delete_all-IsKeyed ids ((k, q) ∷ rest) h = elim (Bool-cases (contains k ids)) [
  | inl s ↦ rw s (delete_all-IsKeyed ids rest h.2)
  | inr s ↦ rw s (ground (arith, delete_all-IsKeyed ids rest h.2, get-delete_all k ids rest))
]

pub get-IsKeyed :
    (name : String) (p : Preset) (m : List (String × Preset))
    → IsKeyed m
    → get name m ≡ some p
    → p.name ≡ str name
unfolding get
get-IsKeyed name p [] h e = cc
get-IsKeyed name p ((k, q) ∷ rest) h e = ground (arith, eq_iff k name, get-IsKeyed name p rest h.2)

pub read_presets-presets_json :
    (m held : List (String × Preset))
    → IsKeyed m
    → Apart held m
    → read_presets (presets_json m) held ≡ some (held ++ m)
unfolding read_presets presets_json as_dict preset_from field_or
read_presets-presets_json [] held k a = ap some (sym (append-nil held))
read_presets-presets_json ((name, p) ∷ rest) held k a =
    subst
      (λ n.
        read_presets (presets_json rest) (put name (record p { name = n }) held)
        ≡ some (held ++ (name, p) ∷ rest))
      k.0
      (read_presets-presets_json rest (put name p held) k.2 (put-Apart name p held rest k.1 a.1)
        ∙ ap some (put-append name p held rest a.0))

pub get-deleted_back :
    (name other : String) (q : Preset) (m : List (String × Preset))
    → get name m ≡ some q
    → get other (put name q (delete_all (name ∷ []) m)) ≡ get other m
unfolding contains
get-deleted_back name other q m e = ground (
  arith,
  get-put name other q (delete_all (name ∷ []) m),
  get-delete_all other (name ∷ []) m,
  eq_iff name other,
  ap (λ i. get i m),
)

save_back :
    (name : String) (p : Preset) (m : PresetManager) (o : Option Preset)
    → get name m.presets ≡ o
    → roll_back name o (put name p m.presets) ≡ m.presets
unfolding roll_back
save_back name p m none e = delete_all-put name p m.presets e
save_back name p m (some q) e = put-put name p q m.presets e

-- A save that fails at any stage is raised with that stage and leaves everything as it was: after
-- `save_preset` the manager and the disk are the same as before, after `delete_preset` of a
-- preset that is there the disk is, and every preset is found as before.
pub failed_save_lem :
    (now : String) (stage : Stage) (name : String) (models : List String) (description : String)
    (m : PresetManager) (d : Disk)
    → (save_preset now (some stage) name models description m d ≡ (m, d, some stage))
      × ((q : Preset)
          → get name m.presets ≡ some q
          → let (after, e, raised, done) = delete_preset (some stage) name m d in
            (e ≡ d)
            × (raised ≡ some stage)
            × (done ≡ false)
            × ((other : String) → get other after.presets ≡ get other m.presets))
unfolding save_preset finish_save save write_file delete_preset delete_held roll_back
failed_save_lem now stage name models description m d = (
  ap (λ held. (record m { presets = held }, d, some stage))
      (save_back name (new_preset now name models description) m (get name m.presets) refl),
  λ q e. rw e (refl, refl, refl, λ other. get-deleted_back name other q m.presets e),
)
