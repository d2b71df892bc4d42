-- ===== src/Activation/Keyed.antt =====
-- The records of a store stand under their own ids, once each, and no id is blank.
use router_extra.Prelude.{
  String, ◌≡◌, refl, ap, ◌⊎◌, inl, inr, false, Option, none, some, List, [], ◌∷◌, arith, str_eq,
  eq_iff, eq_refl, get, put, delete_all, get-put, get-delete_all, keep, contains, Bool-cases,
}
use router_extra.Storage.{
  Json, Items, done, item, Content, raw, text, Disk, Faults, is_blank, null, bool, integer, other,
  str, arr, obj, Fields, equals, field_of,
}
use router_extra.Activation.{ComboActivation}
use router_extra.Activation.Record.{
  BadRecord, from_dict, from_fields, assemble, bad_configured, bad_baseline, bad_disabled,
  read_list,
}
use router_extra.Activation.Store.{
  ActivationStore, read_records, load, load_file, load_content, load_combos, combos_of, accept,
  corrupt,
}

abbrev pub IsKeyed : List (String × ComboActivation) → Type 0
IsKeyed [] = Unit {0}
IsKeyed ((id, a) ∷ rest) =
    (a.combo_id ≡ id) × (is_blank id ≡ false) × (get id rest ≡ none) × IsKeyed rest

pub put-IsKeyed :
    (id : String) (a : ComboActivation) (m : List (String × ComboActivation))
    → a.combo_id ≡ id
    → is_blank id ≡ false
    → IsKeyed m
    → IsKeyed (put id a m)
unfolding put get
put-IsKeyed id a [] e b h = (e, b, refl, tt)
put-IsKeyed id a ((k, c) ∷ rest) e b h = elim (Bool-cases (str_eq k id)) [
  | inl s ↦ rw s (ground (arith, eq_iff k id, ap (λ i. get i rest)))
  | inr s ↦
      rw s
        (ground (arith, eq_iff id k, put-IsKeyed id a rest e b h.3, get-put id k a rest, eq_refl k))
]

pub delete_all-IsKeyed :
    (ids : List String) (m : List (String × ComboActivation))
    → IsKeyed m
    → IsKeyed (delete_all ids m)
unfolding delete_all keep
delete_all-IsKeyed ids [] h = tt
delete_all-IsKeyed ids ((k, c) ∷ rest) h = elim (Bool-cases (contains k ids)) [
  | inl s ↦ rw s (delete_all-IsKeyed ids rest h.3)
  | inr s ↦ rw s (ground (arith, delete_all-IsKeyed ids rest h.3, get-delete_all k ids rest))
]

pub get-IsKeyed :
    (id : String) (a : ComboActivation) (m : List (String × ComboActivation))
    → IsKeyed m
    → get id m ≡ some a
    → (a.combo_id ≡ id) × (is_blank id ≡ false)
unfolding get
get-IsKeyed id a [] h e = cc
get-IsKeyed id a ((k, c) ∷ rest) h e = ground (arith, eq_iff k id, get-IsKeyed id a rest h.3)

assemble-combo_id :
    (repr : Json → String) (id : String) (fs : Fields) (c b d : BadRecord ⊎ List String)
    (a : ComboActivation)
    → assemble repr id fs c b d ≡ inr a
    → a.combo_id ≡ id
unfolding assemble
assemble-combo_id repr id fs (inl e) b d a h = cc
assemble-combo_id repr id fs (inr c) (inl e) d a h = cc
assemble-combo_id repr id fs (inr c) (inr b) (inl e) a h = cc
assemble-combo_id repr id fs (inr c) (inr b) (inr d) a h = ground arith

from_fields-combo_id :
    (repr : Json → String) (fs : Fields) (j : Json) (a : ComboActivation)
    → from_fields repr fs j ≡ inr a
    → is_blank a.combo_id ≡ false
unfolding from_fields
from_fields-combo_id repr fs (str id) a h = ground (
  arith,
  assemble-combo_id repr id fs (read_list bad_configured (field_of "configured" fs))
      (read_list bad_baseline (field_of "engine_baseline" fs))
      (read_list bad_disabled (field_of "disabled" fs)) a,
)
from_fields-combo_id repr fs null a h = cc
from_fields-combo_id repr fs (bool b) a h = cc
from_fields-combo_id repr fs (integer n) a h = cc
from_fields-combo_id repr fs (other n t) a h = cc
from_fields-combo_id repr fs (arr xs) a h = cc
from_fields-combo_id repr fs (obj g) a h = cc

from_dict-combo_id :
    (repr : Json → String) (j : Json) (a : ComboActivation)
    → from_dict repr j ≡ inr a
    → is_blank a.combo_id ≡ false
unfolding from_dict
from_dict-combo_id repr (obj fs) a h = from_fields-combo_id repr fs (field_of "combo_id" fs) a h
from_dict-combo_id repr null a h = cc
from_dict-combo_id repr (bool b) a h = cc
from_dict-combo_id repr (integer n) a h = cc
from_dict-combo_id repr (other n t) a h = cc
from_dict-combo_id repr (str t) a h = cc
from_dict-combo_id repr (arr xs) a h = cc

Either-cases {ℓ} : {A B : Type ℓ} (v : A ⊎ B) → ((a : A) × (v ≡ inl a)) ⊎ ((b : B) × (v ≡ inr b))
Either-cases (inl a) = inl (a, refl)
Either-cases (inr b) = inr (b, refl)

-- Of a result, where there is one.
abbrev FoundKeyed : BadRecord ⊎ List (String × ComboActivation) → Type 0
FoundKeyed (inl e) = Unit {0}
FoundKeyed (inr m) = IsKeyed m

abbrev pub LoadKeyed : Option (ActivationStore × Disk) → Type 0
LoadKeyed none = Unit {0}
LoadKeyed (some (s, d)) = IsKeyed s.records

read_records-IsKeyed :
    (repr : Json → String) (xs : Items) (found : List (String × ComboActivation))
    → IsKeyed found
    → FoundKeyed (read_records repr xs found)
unfolding read_records
read_records-IsKeyed repr done found h = h
read_records-IsKeyed repr (item j rest) found h = elim (Either-cases (from_dict repr j)) [
  | inl (b, s) ↦ rw (s, read_records) tt
  | inr (a, s) ↦
      rw (s, read_records)
        (read_records-IsKeyed repr rest (put a.combo_id a found)
          (put-IsKeyed a.combo_id a found refl (from_dict-combo_id repr j a s) h))
]

accept-IsKeyed :
    (f : Faults) (c : Content) (s : ActivationStore) (d : Disk)
    (v : BadRecord ⊎ List (String × ComboActivation))
    → FoundKeyed v
    → IsKeyed (accept f c s d v).0.records
unfolding accept corrupt
accept-IsKeyed f c s d (inl e) h = tt
accept-IsKeyed f c s d (inr m) h = h

load_combos-IsKeyed :
    (repr : Json → String) (f : Faults) (c : Content) (s : ActivationStore) (d : Disk)
    (xs? : Option Items)
    → LoadKeyed (load_combos repr f c s d xs?)
unfolding load_combos
load_combos-IsKeyed repr f c s d none = tt
load_combos-IsKeyed repr f c s d (some xs) =
    accept-IsKeyed f c s d (read_records repr xs []) (read_records-IsKeyed repr xs [] tt)

load_content-IsKeyed :
    (repr : Json → String) (f : Faults) (c : Content) (s : ActivationStore) (d : Disk)
    → LoadKeyed (load_content repr f c s d)
unfolding load_content corrupt
load_content-IsKeyed repr f (raw t) s d = tt
load_content-IsKeyed repr f (text (obj fs)) s d =
    elim (Bool-cases (equals 1 (field_of "schema" fs))) [
      | inl e ↦
          rw e (load_combos-IsKeyed repr f (text (obj fs)) s d (combos_of (field_of "combos" fs)))
      | inr e ↦ rw e tt
    ]
load_content-IsKeyed repr f (text null) s d = tt
load_content-IsKeyed repr f (text (bool b)) s d = tt
load_content-IsKeyed repr f (text (integer n)) s d = tt
load_content-IsKeyed repr f (text (other n t)) s d = tt
load_content-IsKeyed repr f (text (str t)) s d = tt
load_content-IsKeyed repr f (text (arr xs)) s d = tt

load_file-IsKeyed :
    (repr : Json → String) (f : Faults) (c? : Option Content) (s : ActivationStore) (d : Disk)
    → IsKeyed s.records
    → LoadKeyed (load_file repr f c? s d)
unfolding load_file
load_file-IsKeyed repr f none s d h = h
load_file-IsKeyed repr f (some c) s d h = elim (Bool-cases f.unreadable) [
  | inl e ↦ rw e tt
  | inr e ↦ rw e (load_content-IsKeyed repr f c s d)
]

pub load-IsKeyed :
    (repr : Json → String) (f : Faults) (s : ActivationStore) (d : Disk)
    → IsKeyed s.records
    → LoadKeyed (load repr f s d)
unfolding load
load-IsKeyed repr f s d h = load_file-IsKeyed repr f d.file s d h
