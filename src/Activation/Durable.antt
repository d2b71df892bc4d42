-- ===== src/Activation/Durable.antt =====
-- What is saved is read back.
use router_extra.Prelude.{
  Apart, Apart-none, put-Apart, put-append, append-nil, String, ◌≡◌, refl, sym, ap, ◌∙◌, inr, false,
  not, none, some, List, [], ◌∷◌, ◌++◌, arith, get, put, contains, keep-agree,
}
use router_extra.Storage.{
  Json, Items, done, item, arr, Disk, Faults, is_blank, loaded_file, write_file, field_of, equals,
  is_true,
}
use router_extra.Activation.{ComboActivation, enabled_models, projection}
use router_extra.Activation.Record.{restored, from_dict-to_dict, restored-disabled}
use router_extra.Activation.Store.{
  ActivationStore, read_records, records_of, payload, save, load, load_file, load_content,
  load_combos, accept, combos_of, open_store,
}
use router_extra.Activation.Keyed.{IsKeyed}

unfoldable pub restore_all : List (String × ComboActivation) → List (String × ComboActivation)
unfolding restored
restore_all [] = []
restore_all ((id, a) ∷ rest) = (id, restored a) ∷ restore_all rest

pub get-restore_all :
    (id : String) (a : ComboActivation) (m : List (String × ComboActivation))
    → get id m ≡ some a
    → get id (restore_all m) ≡ some (restored a)
unfolding get restore_all
get-restore_all id a [] e = cc
get-restore_all id a ((k, c) ∷ rest) e = ground (arith, get-restore_all id a rest, ap restored)

read_records-records_of :
    (repr : Json → String) (m found : List (String × ComboActivation))
    → IsKeyed m
    → Apart found m
    → read_records repr (records_of m) found ≡ inr (found ++ restore_all m)
unfolding read_records records_of restore_all restored
read_records-records_of repr [] found k p = ap inr (sym (append-nil found))
read_records-records_of repr ((id, a) ∷ rest) found k p =
    rw (from_dict-to_dict repr a (ap is_blank k.0 ∙ k.1), read_records)
      (read_records-records_of repr rest (put a.combo_id (restored a) found) k.3
          (put-Apart a.combo_id (restored a) found rest (ap (λ i. get i rest) k.0 ∙ k.2) p.1)
        ∙ ap inr (
            put-append a.combo_id (restored a) found (restore_all rest)
              (ap (λ i. get i found) k.0 ∙ p.0)
            ∙ ap (λ i. found ++ (i, restored a) ∷ restore_all rest) k.0))

combos_of-arr : (xs : Items) → combos_of (arr xs) ≡ some xs
unfolding combos_of is_true
combos_of-arr done = refl
combos_of-arr (item j rest) = refl

-- A saved store, read back.
unfoldable pub reopened : ActivationStore → ActivationStore
unfolding restore_all
reopened s = record {
  records = restore_all s.records;
  load_state = loaded_file;
  quarantined = false;
}

pub open_store-save :
    (repr : Json → String) (f : Faults) (s : ActivationStore) (d : Disk)
    → f.unreadable ≡ false
    → IsKeyed s.records
    → open_store repr f (save none s d).0 ≡ some (reopened s, (save none s d).0)
unfolding open_store load load_file load_content load_combos accept save payload write_file reopened
    field_of equals
open_store-save repr f s d h k = rw h (
    rw (combos_of-arr (records_of s.records))
      (rw (read_records-records_of repr s.records [] k (Apart-none s.records)) refl))

pub enabled_models-restored : (a : ComboActivation) → enabled_models (restored a) ≡ enabled_models a
unfolding enabled_models projection restored
enabled_models-restored a =
    keep-agree (λ m. not (contains m (restored a).disabled)) (λ m. not (contains m a.disabled))
      a.configured (λ m h. ap not (restored-disabled m a))
