-- ===== src/Activation/Loading.antt =====
-- What a load keeps of a file that it cannot use.
use router_extra.Prelude.{
  String, ◌≡◌, ◌↔◌, refl, sym, ap, subst, ◌⊎◌, inl, inr, Bool, true, false, Option, none, some,
  List, [], arith, Bool-cases, Option-cases, ltb,
}
use router_extra.Storage.{
  Json, null, bool, integer, other, str, arr, obj, Fields, Items, done, item, end, field, field_of,
  equals, is_true, Content, raw, text, Disk, Faults, set_aside, aside_at, LoadState, loaded_file,
  malformed_json, invalid_record,
}
use router_extra.Activation.{ComboActivation}
use router_extra.Activation.Record.{BadRecord}
use router_extra.Activation.Store.{
  ActivationStore, corrupt, read_records, load, load_file, load_content, load_combos, accept,
  combos_of, iterated,
}

-- Of a file with the content c: it is in place, or in the quarantine, which the store then says;
-- and a store that did not load it is empty.
abbrev Kept : Content → Option (ActivationStore × Disk) → Type 0
Kept c none = Unit {0}
Kept c (some (s, d)) =
    ((d.file ≡ some c) ⊎ ((d.quarantine ≡ some c) × (s.quarantined ≡ true)))
    × ((s.load_state ≡ loaded_file) ⊎ (s.records ≡ []))

corrupt-Kept :
    (state : LoadState) (f : Faults) (c : Content) (s : ActivationStore) (d : Disk)
    → d.file ≡ some c
    → Kept c (some (corrupt state f c s d))
unfolding corrupt set_aside aside_at
corrupt-Kept state f c s d h = elim (Option-cases f.left) [
  | inl e ↦ rw e (inr (refl, refl), inr refl)
  | inr (q, e) ↦ rw e (inl h, inr refl)
]

accept-Kept :
    (f : Faults) (c : Content) (s : ActivationStore) (d : Disk)
    (v : BadRecord ⊎ List (String × ComboActivation))
    → d.file ≡ some c
    → Kept c (some (accept f c s d v))
unfolding accept
accept-Kept f c s d (inl e) h = corrupt-Kept invalid_record f c s d h
accept-Kept f c s d (inr m) h = (inl h, inl refl)

load_combos-Kept :
    (repr : Json → String) (f : Faults) (c : Content) (s : ActivationStore) (d : Disk)
    (xs? : Option Items)
    → d.file ≡ some c
    → Kept c (load_combos repr f c s d xs?)
unfolding load_combos
load_combos-Kept repr f c s d none h = tt
load_combos-Kept repr f c s d (some xs) h = accept-Kept f c s d (read_records repr xs []) h

load_content-Kept :
    (repr : Json → String) (f : Faults) (c : Content) (s : ActivationStore) (d : Disk)
    → d.file ≡ some c
    → Kept c (load_content repr f c s d)
unfolding load_content
load_content-Kept repr f (raw t) s d h = corrupt-Kept malformed_json f (raw t) s d h
load_content-Kept repr f (text (obj fs)) s d h =
    elim (Bool-cases (equals 1 (field_of "schema" fs))) [
      | inl e ↦
          rw e (load_combos-Kept repr f (text (obj fs)) s d (combos_of (field_of "combos" fs)) h)
      | inr e ↦ rw e (corrupt-Kept invalid_record f (text (obj fs)) s d h)
    ]
load_content-Kept repr f (text null) s d h = corrupt-Kept invalid_record f (text null) s d h
load_content-Kept repr f (text (bool b)) s d h = corrupt-Kept invalid_record f (text (bool b)) s d h
load_content-Kept repr f (text (integer n)) s d h =
    corrupt-Kept invalid_record f (text (integer n)) s d h
load_content-Kept repr f (text (other n t)) s d h =
    corrupt-Kept invalid_record f (text (other n t)) s d h
load_content-Kept repr f (text (str t)) s d h = corrupt-Kept invalid_record f (text (str t)) s d h
load_content-Kept repr f (text (arr xs)) s d h = corrupt-Kept invalid_record f (text (arr xs)) s d h

load_file-Kept :
    (repr : Json → String) (f : Faults) (c : Content) (s : ActivationStore) (d : Disk)
    → d.file ≡ some c
    → Kept c (load_file repr f (some c) s d)
unfolding load_file
load_file-Kept repr f c s d h = elim (Bool-cases f.unreadable) [
  | inl e ↦ rw e (inl h, inr refl)
  | inr e ↦ rw e (load_content-Kept repr f c s d h)
]

load-Kept :
    (repr : Json → String) (f : Faults) (c : Content) (s : ActivationStore) (d : Disk)
    → d.file ≡ some c
    → Kept c (load repr f s d)
unfolding load
load-Kept repr f c s d h =
    subst (λ o. Kept c (load_file repr f o s d)) (sym h) (load_file-Kept repr f c s d h)

-- A load of an existing file that does not raise loses nothing of it: its content is still in
-- place, or in the quarantine where the store says so. And nothing of a file that was not
-- loaded whole gets into the records: the store is then empty.
pub load_keeps_file :
    (repr : Json → String) (f : Faults) (c : Content) (s t : ActivationStore) (d e : Disk)
    → d.file ≡ some c
    → load repr f s d ≡ some (t, e)
    → ((e.file ≡ some c) ⊎ ((e.quarantine ≡ some c) × (t.quarantined ≡ true)))
      × ((t.load_state ≡ loaded_file) ⊎ (t.records ≡ []))
load_keeps_file repr f c s t d e h l = subst (Kept c) l (load-Kept repr f c s d h)

-- A number other than 0, or `true`.
abbrev pub is_nonzero : Json → Bool
is_nonzero (bool b) = b
is_nonzero (integer n) = ltb 0 n
is_nonzero (other (some n) t) = ltb 0 n
is_nonzero (other none t) = true
is_nonzero j = false

iterated_iff : (j : Json) → (combos_of j ≡ none) ↔ (is_nonzero j ≡ true)
unfolding combos_of is_true iterated
iterated_iff null = ground arith
iterated_iff (bool true) = ground arith
iterated_iff (bool false) = ground arith
iterated_iff (integer n) = ground arith
iterated_iff (other none t) = ground arith
iterated_iff (other (some n) t) = ground arith
iterated_iff (str t) = ground arith
iterated_iff (arr done) = ground arith
iterated_iff (arr (item j rest)) = ground arith
iterated_iff (obj end) = ground arith
iterated_iff (obj (field k j rest)) = ground arith

load_combos-none :
    (repr : Json → String) (f : Faults) (c : Content) (s : ActivationStore) (d : Disk)
    (xs? : Option Items)
    → (load_combos repr f c s d xs? ≡ none) ↔ (xs? ≡ none)
unfolding load_combos
load_combos-none repr f c s d none = (λ e. refl, λ e. refl)
load_combos-none repr f c s d (some xs) = (λ e. cc, λ e. cc)

-- The load of a readable file with the right schema raises, instead of reporting a corrupt file,
-- exactly if what stands for the combos is a number other than 0 or `true`.
pub load_raises_iff :
    (repr : Json → String) (f : Faults) (fs : Fields) (s : ActivationStore) (d : Disk)
    → d.file ≡ some (text (obj fs))
    → f.unreadable ≡ false
    → equals 1 (field_of "schema" fs) ≡ true
    → (load repr f s d ≡ none) ↔ (is_nonzero (field_of "combos" fs) ≡ true)
unfolding load load_file load_content
load_raises_iff repr f fs s d h r v = ground (
  arith,
  ap (λ o. load_file repr f o s d) h,
  load_combos-none repr f (text (obj fs)) s d (combos_of (field_of "combos" fs)),
  iterated_iff (field_of "combos" fs),
)
