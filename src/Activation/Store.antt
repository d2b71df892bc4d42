-- ===== src/Activation/Store.antt =====
-- `ActivationStore` of 9router_WatchEdit/core/activation.py. Its dictionary is a list of pairs in insertion
-- order; the texts of the load errors are left out.
use Prim.Native.String.{[] as «empty», ◌∷◌ as «push»}
use router_extra.Prelude.{
  delete_all, get, put, String, ◌⊎◌, inl, inr, Bool, false, not, Option, none, some, List, [], ◌∷◌,
  str_eq, is_none, if◌then◌else◌, keep, contains, map,
}
use router_extra.Storage.{
  Json, integer, str, arr, obj, Items, done, item, Fields, end, field, field_of, is_true, equals,
  Content, raw, text, Disk, Faults, set_aside, Stage, write_file, LoadState, absent_file,
  loaded_file, malformed_json, invalid_record, io_error,
}
use router_extra.Activation.{ComboActivation}
use router_extra.Activation.Record.{BadRecord, to_dict, from_dict}

pub record ActivationStore : Type 0 where
  pub records : List (String × ComboActivation)
  pub load_state : LoadState
  pub quarantined : Bool  -- `quarantine_path` is set

unfoldable pub corrupt :
    LoadState → Faults → Content → ActivationStore → Disk → ActivationStore × Disk
unfolding set_aside
corrupt state f c s d =
    let (after, moved) = set_aside f c d in
    (record { records = []; load_state = state; quarantined = moved }, after)

keys_of : Fields → Items
keys_of end = done
keys_of (field k j rest) = item (str k) (keys_of rest)

characters : String → Items
characters «empty» = done
characters («push» c s) = item (str («push» c «empty»)) (characters s)

-- What a loop over a value runs over; `none` where Python raises TypeError.
unfoldable pub iterated : Json → Option Items
unfolding keys_of characters
iterated (arr xs) = some xs
iterated (obj fs) = some (keys_of fs)
iterated (str t) = some (characters t)
iterated j = none

-- `payload.get("combos") or []`
unfoldable pub combos_of : Json → Option Items
unfolding is_true iterated
combos_of j = if is_true j then iterated j else some done

unfoldable pub read_records :
    (Json → String)
    → Items
    → List (String × ComboActivation)
    → BadRecord ⊎ List (String × ComboActivation)
unfolding from_dict put
read_records repr done found = inr found
read_records repr (item j rest) found = elim (from_dict repr j) [
  | inl e ↦ inl e
  | inr a ↦ read_records repr rest (put a.combo_id a found)
]

unfoldable pub accept :
    Faults
    → Content
    → ActivationStore
    → Disk
    → BadRecord ⊎ List (String × ComboActivation)
    → ActivationStore × Disk
unfolding corrupt
accept f c s d (inl e) = corrupt invalid_record f c s d
accept f c s d (inr found) = (record s { records = found; load_state = loaded_file }, d)

-- `none` is the TypeError of a loop over a value that cannot be looped over.
unfoldable pub load_combos :
    (Json → String)
    → Faults
    → Content
    → ActivationStore
    → Disk
    → Option Items
    → Option (ActivationStore × Disk)
unfolding accept read_records
load_combos repr f c s d none = none
load_combos repr f c s d (some xs) = some (accept f c s d (read_records repr xs []))

unfoldable pub load_content :
    (Json → String) → Faults → Content → ActivationStore → Disk → Option (ActivationStore × Disk)
unfolding corrupt equals field_of load_combos combos_of
load_content repr f (raw t) s d = some (corrupt malformed_json f (raw t) s d)
load_content repr f (text (obj fs)) s d =
    if equals 1 (field_of "schema" fs)
    then load_combos repr f (text (obj fs)) s d (combos_of (field_of "combos" fs))
    else some (corrupt invalid_record f (text (obj fs)) s d)
load_content repr f (text j) s d = some (corrupt invalid_record f (text j) s d)

unfoldable pub load_file :
    (Json → String)
    → Faults
    → Option Content
    → ActivationStore
    → Disk
    → Option (ActivationStore × Disk)
unfolding load_content
load_file repr f none s d = some (record s { load_state = absent_file }, d)
load_file repr f (some c) s d =
    if f.unreadable
    then some (record s { records = []; load_state = io_error }, d)
    else load_content repr f c s d

unfoldable pub load :
    (Json → String) → Faults → ActivationStore → Disk → Option (ActivationStore × Disk)
unfolding load_file
load repr f s d = load_file repr f d.file s d

unfoldable pub empty_store : ActivationStore
empty_store = record { records = []; load_state = absent_file; quarantined = false }

-- The constructor.
unfoldable pub open_store : (Json → String) → Faults → Disk → Option (ActivationStore × Disk)
unfolding load empty_store
open_store repr f d = load repr f empty_store d

unfoldable pub seeded : String → String → List String → ComboActivation
seeded id name server = record {
  combo_id = id;
  combo_name = name;
  configured = server;
  disabled = [];
  engine_baseline = server;
  engine_updated_at = "";
}

unfoldable pub named : String → ComboActivation → ComboActivation
named name a = if str_eq a.combo_name "" then record a { combo_name = name } else a

unfoldable pub ensured : String → String → List String → Option ComboActivation → ComboActivation
unfolding seeded named
ensured id name server none = seeded id name server
ensured id name server (some a) = named name a

unfoldable pub ensure :
    String → String → List String → ActivationStore → ActivationStore × ComboActivation
unfolding get put ensured
ensure id name server s =
    let a = ensured id name server (get id s.records) in
    (record s { records = put id a s.records }, a)

unfoldable pub forget : String → ActivationStore → ActivationStore × Bool
unfolding get delete_all
forget id s =
    (record s { records = delete_all (id ∷ []) s.records }, not (is_none (get id s.records)))

unfoldable pub prune_absent : List String → ActivationStore → ActivationStore × List String
unfolding keep contains delete_all
prune_absent present s =
    let gone =
      keep (λ id. not (contains id present))
        (map (λ (e : String × ComboActivation). e.0) s.records) in
    (record s { records = delete_all gone s.records }, gone)

unfoldable pub records_of : List (String × ComboActivation) → Items
unfolding to_dict
records_of [] = done
records_of ((id, a) ∷ rest) = item (to_dict a) (records_of rest)

unfoldable pub payload : ActivationStore → Json
unfolding records_of
payload s = obj (field "schema" (integer 1) (field "combos" (arr (records_of s.records)) end))

-- The store stays; the disk is changed, or the stage that failed is raised.
unfoldable pub save : Option Stage → ActivationStore → Disk → Disk × Option Stage
unfolding write_file payload
save fails s d = write_file fails (payload s) d
