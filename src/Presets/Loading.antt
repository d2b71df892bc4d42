-- ===== src/Presets/Loading.antt =====
-- What a load of the presets does to a file that it cannot use.
use router_extra.Prelude.{
  String, ◌≡◌, refl, sym, subst, ◌⊎◌, inl, inr, true, Option, none, some, List, [], Bool-cases,
  Option-cases,
}
use router_extra.Storage.{
  null, bool, integer, other, str, arr, obj, Content, raw, text, Disk, Faults, Stage, write_file,
  LoadState, loaded_file, malformed_json, invalid_record, quarantine_at,
}
use router_extra.Presets.{
  Preset, PresetManager, default_presets, seed, read_presets, preserve_and_seed, save, seeded, load,
  load_file, load_content, accept,
}

abbrev Kept : String → Content → Disk → PresetManager × Disk → Type 0
Kept now c d (m, e) =
    ((e.file ≡ some c) ⊎ ((e.quarantine ≡ some c) × (m.quarantined ≡ true)))
    × (((m.load_state ≡ loaded_file) × (e ≡ d)) ⊎ (m.presets ≡ seed now default_presets []))

preserve_and_seed-Kept :
    (now : String) (fails : Option Stage) (f : Faults) (state : LoadState) (c : Content) (d : Disk)
    → d.file ≡ some c
    → Kept now c d (preserve_and_seed now fails f state c d)
unfolding preserve_and_seed quarantine_at seeded save write_file
preserve_and_seed-Kept now none f state c d h = elim (Option-cases f.left) [
  | inl e ↦ rw e (inr (refl, refl), inr refl)
  | inr (q, e) ↦ rw e (inl h, inr refl)
]
preserve_and_seed-Kept now (some stage) f state c d h = elim (Option-cases f.left) [
  | inl e ↦ rw e (inr (refl, refl), inr refl)
  | inr (q, e) ↦ rw e (inl h, inr refl)
]

accept-Kept :
    (now : String) (fails : Option Stage) (f : Faults) (c : Content) (d : Disk)
    (found : Option (List (String × Preset)))
    → d.file ≡ some c
    → Kept now c d (accept now fails f c d found)
unfolding accept
accept-Kept now fails f c d none h = preserve_and_seed-Kept now fails f invalid_record c d h
accept-Kept now fails f c d (some held) h = (inl h, inl (refl, refl))

load_content-Kept :
    (now : String) (fails : Option Stage) (f : Faults) (c : Content) (d : Disk)
    → d.file ≡ some c
    → Kept now c d (load_content now fails f c d)
unfolding load_content
load_content-Kept now fails f (raw t) d h =
    preserve_and_seed-Kept now fails f malformed_json (raw t) d h
load_content-Kept now fails f (text (obj fs)) d h =
    accept-Kept now fails f (text (obj fs)) d (read_presets fs []) h
load_content-Kept now fails f (text null) d h =
    preserve_and_seed-Kept now fails f invalid_record (text null) d h
load_content-Kept now fails f (text (bool b)) d h =
    preserve_and_seed-Kept now fails f invalid_record (text (bool b)) d h
load_content-Kept now fails f (text (integer n)) d h =
    preserve_and_seed-Kept now fails f invalid_record (text (integer n)) d h
load_content-Kept now fails f (text (other n t)) d h =
    preserve_and_seed-Kept now fails f invalid_record (text (other n t)) d h
load_content-Kept now fails f (text (str t)) d h =
    preserve_and_seed-Kept now fails f invalid_record (text (str t)) d h
load_content-Kept now fails f (text (arr xs)) d h =
    preserve_and_seed-Kept now fails f invalid_record (text (arr xs)) d h

load_file-Kept :
    (now : String) (fails : Option Stage) (f : Faults) (c : Content) (d : Disk)
    → d.file ≡ some c
    → Kept now c d (load_file now fails f (some c) d)
unfolding load_file seeded
load_file-Kept now fails f c d h = elim (Bool-cases f.unreadable) [
  | inl e ↦ rw e (inl h, inr refl)
  | inr e ↦ rw e (load_content-Kept now fails f c d h)
]

-- Loading the presets of an existing file loses nothing of it, whatever fails: its content is
-- still in place, or in the quarantine where the manager says so. Either the file was loaded
-- and nothing on the disk changed, or the presets in memory are the defaults.
pub load_preserves :
    (now : String) (fails : Option Stage) (f : Faults) (c : Content) (d : Disk)
    → d.file ≡ some c
    → let (m, e) = load now fails f d in
      ((e.file ≡ some c) ⊎ ((e.quarantine ≡ some c) × (m.quarantined ≡ true)))
      × (((m.load_state ≡ loaded_file) × (e ≡ d)) ⊎ (m.presets ≡ seed now default_presets []))
unfolding load
load_preserves now fails f c d h =
    subst (λ o. Kept now c d (load_file now fails f o d)) (sym h) (load_file-Kept now fails f c d h)
