-- ===== src/Activation/Session.antt =====
-- How 9router_WatchEdit/ui/combo_editor_view.py uses the store: `_hydrate_activation` and
-- `_sync_activation_record`.
use router_extra.Prelude.{
  ◌≡◌, ◌∷◌, false, get, put, String, Bool, Option, none, some, List, [], if◌then◌else◌,
}
use router_extra.Combo.{StableCombo}
use router_extra.Activation.{ComboActivation, reconcile, is_conflict}
use router_extra.Activation.Store.{ActivationStore, ensure, forget, prune_absent}
use router_extra.Storage.{is_blank}

first_sighting : List String → String → StableCombo → StableCombo
first_sighting server updated c = record c {
  models = server;
  disabled = [];
  baseline_models = server;
  baseline_disabled = [];
  baseline_updated_at = updated;
}

unfoldable pub from_record : ComboActivation → String → Bool → StableCombo → StableCombo
from_record a updated conflict c = record c {
  models = a.configured;
  disabled = a.disabled;
  baseline_models = a.configured;
  baseline_disabled = if conflict then [] else a.disabled;
  baseline_updated_at = updated;
}

unfoldable pub hydrate_from :
    Option ComboActivation
    → List String
    → String
    → StableCombo
    → ActivationStore
    → StableCombo × ActivationStore
unfolding ensure put first_sighting from_record reconcile is_conflict
hydrate_from none server updated c s =
    (first_sighting server updated c, (ensure c.id c.name server s).0)
hydrate_from (some a) server updated c s =
    let seen = record a { combo_name = c.name } in
    (
      from_record seen updated (is_conflict (reconcile (some seen) (some server)).0) c,
      record s { records = put c.id seen s.records },
    )

-- The combo as the record has it, and the store.
unfoldable pub hydrate_activation :
    List String → String → StableCombo → ActivationStore → StableCombo × ActivationStore
unfolding get hydrate_from
hydrate_activation server updated c s = hydrate_from (get c.id s.records) server updated c s

-- One combo of `load_combos_from_9router`: built as `StableCombo`'s constructor builds it, then
-- hydrated.
unfoldable pub fresh_combo : String → String → Option String → List String → String → StableCombo
fresh_combo id name kind server updated = record {
  id = id;
  name = name;
  models = server;
  kind = kind;
  updated_at = updated;
  baseline_models = server;
  baseline_updated_at = updated;
  baseline_name = name;
  baseline_kind = kind;
  disabled = [];
  baseline_disabled = [];
}

unfoldable pub read_combo :
    String
    → String
    → Option String
    → List String
    → String
    → ActivationStore
    → StableCombo × ActivationStore
unfolding fresh_combo hydrate_activation
read_combo id name kind server updated s =
    hydrate_activation server updated (fresh_combo id name kind server updated) s

unfoldable pub synced : StableCombo → List String → ComboActivation → ComboActivation
synced c verified a = record a {
  configured = c.models;
  disabled = c.disabled;
  combo_name = c.name;
  engine_baseline = verified;
  engine_updated_at = c.baseline_updated_at;
}

-- The store after a verified save, before it is saved itself.
unfoldable pub sync_record : StableCombo → List String → ActivationStore → ActivationStore
unfolding ensure put synced
sync_record c verified s =
    let (held, a) = ensure c.id c.name verified s in
    record held { records = put c.id (synced c verified a) held.records }

-- What the editor does with the store between a load and a save.
pub data StoreEdit : Type 0 where
  ensures : (id name : String) → (server : List String) → StoreEdit
  forgets : (id : String) → StoreEdit
  prunes : (present : List String) → StoreEdit
  hydrates : (server : List String) → (updated : String) → StableCombo → StoreEdit
  syncs : StableCombo → (verified : List String) → StoreEdit

unfoldable pub edit : StoreEdit → ActivationStore → ActivationStore
unfolding ensure forget prune_absent hydrate_activation sync_record
edit (ensures id name server) s = (ensure id name server s).0
edit (forgets id) s = (forget id s).0
edit (prunes present) s = (prune_absent present s).0
edit (hydrates server updated c) s = (hydrate_activation server updated c s).1
edit (syncs c verified) s = sync_record c verified s

unfoldable pub edit_all : List StoreEdit → ActivationStore → ActivationStore
unfolding edit
edit_all [] s = s
edit_all (e ∷ es) s = edit_all es (edit e s)

-- The combo that an edit names has an id.
abbrev pub HasId : StoreEdit → Type 0
HasId (ensures id name server) = is_blank id ≡ false
HasId (forgets id) = Unit {0}
HasId (prunes present) = Unit {0}
HasId (hydrates server updated c) = is_blank c.id ≡ false
HasId (syncs c verified) = is_blank c.id ≡ false

abbrev pub AllHaveId : List StoreEdit → Type 0
AllHaveId [] = Unit {0}
AllHaveId (e ∷ es) = HasId e × AllHaveId es
