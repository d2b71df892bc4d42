-- ===== src/Combo/Compare.antt =====
-- `server_field_mismatches`, `check_server_conflict` and `describe_server_divergence` of
-- `StableCombo`: how an engine read is compared with the local state and with its baseline.
use router_extra.Prelude.{
  String, Bool, true, not, ◌&&◌, Option, List, [], ◌∷◌, ◌++◌, str_eq, if◌then◌else◌, keep, contains,
  list_eq,
}
use router_extra.Combo.{StableCombo, normalize_kind, kind_eq, effective_models, effective_baseline}

-- What one read of the engine returns for a combo.
pub record ServerState : Type 0 where
  pub name : String
  pub kind : Option String
  pub models : List String
  pub updated_at : String

pub data Field : Type 0 where
  name_field kind_field models_field : Field

when : Bool → Field → List Field
when b f = if b then f ∷ [] else []

unfoldable pub server_field_mismatches : ServerState → StableCombo → List Field
unfolding when effective_models normalize_kind kind_eq list_eq
server_field_mismatches s c =
    when (not (str_eq s.name c.name)) name_field
    ++ (when (not (kind_eq (normalize_kind s.kind) (normalize_kind c.kind))) kind_field
        ++ when (not (list_eq s.models (effective_models c))) models_field)

-- `server_updated_at and baseline_updated_at and server_updated_at != baseline_updated_at`
unfoldable pub stamps_differ : String → String → Bool
stamps_differ server baseline =
    not (str_eq server "") && not (str_eq baseline "") && not (str_eq server baseline)

unfoldable pub check_server_conflict : ServerState → StableCombo → Bool
unfolding effective_baseline normalize_kind kind_eq list_eq stamps_differ
check_server_conflict s c =
    if not (list_eq s.models (effective_baseline c))
    then true
    else (if not (str_eq s.name c.baseline_name)
        then true
        else (if not (kind_eq (normalize_kind s.kind) (normalize_kind c.baseline_kind))
            then true
            else stamps_differ s.updated_at c.baseline_updated_at))

-- One line of the description, without its wording.
pub data Change : Type 0 where
  name_changed : String → String → Change
  kind_changed : Option String → Option String → Change
  models_removed : List String → Change
  models_added : List String → Change
  order_changed : Change
  stamp_changed : String → String → Change

report_nonempty : (List String → Change) → List String → List Change
report_nonempty label [] = []
report_nonempty label (m ∷ ms) = label (m ∷ ms) ∷ []

or_order : List Change → List Change
or_order [] = order_changed ∷ []
or_order (x ∷ xs) = x ∷ xs

describe_models : List String → List String → List Change
unfolding report_nonempty or_order keep contains
describe_models server baseline = or_order (
    report_nonempty models_removed (keep (λ m. not (contains m server)) baseline)
    ++ report_nonempty models_added (keep (λ m. not (contains m baseline)) server))

unfoldable pub describe_server_divergence : ServerState → StableCombo → List Change
unfolding effective_baseline normalize_kind kind_eq list_eq stamps_differ describe_models
describe_server_divergence s c =
    (if not (str_eq s.name c.baseline_name) then name_changed c.baseline_name s.name ∷ [] else [])
    ++ ((if not (kind_eq (normalize_kind s.kind) (normalize_kind c.baseline_kind))
          then kind_changed c.baseline_kind s.kind ∷ []
          else [])
        ++ ((if not (list_eq s.models (effective_baseline c))
              then describe_models s.models (effective_baseline c)
              else [])
            ++ (if stamps_differ s.updated_at c.baseline_updated_at
                then stamp_changed c.baseline_updated_at s.updated_at ∷ []
                else [])))
