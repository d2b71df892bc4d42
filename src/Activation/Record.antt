-- ===== src/Activation/Record.antt =====
-- `ComboActivation.to_dict` and `ComboActivation.from_dict` of 9router_WatchEdit/core/activation.py.
-- `repr` is Python's `str` of a value that is no text.
use router_extra.Prelude.{
  String, ◌≡◌, refl, ◌⊎◌, inl, inr, false, Option, none, some, List, [], ◌∷◌, if◌then◌else◌,
  contains, add, arith, eq_iff, contains-add,
}
use router_extra.Storage.{
  Json, str, arr, obj, Fields, field, end, field_of, is_true, read_texts, items_of, sort_texts,
  is_blank,
}
use router_extra.Storage.Reading.{read_texts-arr, contains-sort_texts}
use router_extra.Activation.{ComboActivation}

unfoldable pub to_dict : ComboActivation → Json
unfolding items_of sort_texts
to_dict a = obj (
    field "combo_id" (str a.combo_id) (
      field "combo_name" (str a.combo_name) (
        field "configured" (arr (items_of a.configured)) (
          field "disabled" (arr (items_of (sort_texts a.disabled))) (
            field "engine_baseline" (arr (items_of a.engine_baseline))
              (field "engine_updated_at" (str a.engine_updated_at) end))))))

-- The errors of `from_dict`.
pub data BadRecord : Type 0 where
  not_a_mapping no_combo_id bad_configured bad_baseline bad_disabled : BadRecord

or_error : BadRecord → Option (List String) → BadRecord ⊎ List String
or_error e none = inl e
or_error e (some ts) = inr ts

-- `value or []`, which has to be a list of texts.
unfoldable pub read_list : BadRecord → Json → BadRecord ⊎ List String
unfolding is_true or_error read_texts
read_list e j = if is_true j then or_error e (read_texts j) else inr []

str_of : (Json → String) → Json → String
str_of repr (str t) = t
str_of repr j = repr j

-- `str(value or "")`
unfoldable pub text_or_empty : (Json → String) → Json → String
unfolding is_true str_of
text_or_empty repr j = if is_true j then str_of repr j else ""

-- `set(texts)`
unfoldable pub to_set : List String → List String
unfolding add
to_set [] = []
to_set (t ∷ ts) = add t (to_set ts)

unfoldable pub assemble :
    (Json → String)
    → String
    → Fields
    → BadRecord ⊎ List String
    → BadRecord ⊎ List String
    → BadRecord ⊎ List String
    → BadRecord ⊎ ComboActivation
unfolding text_or_empty field_of to_set
assemble repr id fs (inl e) baseline disabled = inl e
assemble repr id fs (inr configured) (inl e) disabled = inl e
assemble repr id fs (inr configured) (inr baseline) (inl e) = inl e
assemble repr id fs (inr configured) (inr baseline) (inr disabled) = inr (record {
  combo_id = id;
  combo_name = text_or_empty repr (field_of "combo_name" fs);
  configured = configured;
  disabled = to_set disabled;
  engine_baseline = baseline;
  engine_updated_at = text_or_empty repr (field_of "engine_updated_at" fs);
})

unfoldable pub from_fields : (Json → String) → Fields → Json → BadRecord ⊎ ComboActivation
unfolding is_blank assemble read_list field_of
from_fields repr fs (str id) =
    if is_blank id
    then inl no_combo_id
    else assemble repr id fs (read_list bad_configured (field_of "configured" fs))
        (read_list bad_baseline (field_of "engine_baseline" fs))
        (read_list bad_disabled (field_of "disabled" fs))
from_fields repr fs j = inl no_combo_id

unfoldable pub from_dict : (Json → String) → Json → BadRecord ⊎ ComboActivation
unfolding from_fields field_of
from_dict repr (obj fs) = from_fields repr fs (field_of "combo_id" fs)
from_dict repr j = inl not_a_mapping

-- A record as it is read back.
unfoldable pub restored : ComboActivation → ComboActivation
unfolding to_set sort_texts
restored a = record a { disabled = to_set (sort_texts a.disabled) }

pub contains-to_set : (m : String) (ts : List String) → contains m (to_set ts) ≡ contains m ts
unfolding contains to_set
contains-to_set m [] = refl
contains-to_set m (t ∷ ts) = ground (arith, contains-add m t (to_set ts), contains-to_set m ts)

pub restored-disabled :
    (m : String) (a : ComboActivation) → contains m (restored a).disabled ≡ contains m a.disabled
unfolding restored
restored-disabled m a =
    ground (arith, contains-to_set m (sort_texts a.disabled), contains-sort_texts m a.disabled)

read_list-arr : (e : BadRecord) (ts : List String) → read_list e (arr (items_of ts)) ≡ inr ts
unfolding read_list is_true items_of or_error
read_list-arr e [] = refl
read_list-arr e (t ∷ ts) = rw (read_texts-arr (t ∷ ts)) refl

text_or_empty-str : (repr : Json → String) (t : String) → text_or_empty repr (str t) ≡ t
unfolding text_or_empty is_true str_of
text_or_empty-str repr t = ground (arith, eq_iff t "")

pub from_dict-to_dict :
    (repr : Json → String) (a : ComboActivation)
    → is_blank a.combo_id ≡ false
    → from_dict repr (to_dict a) ≡ inr (restored a)
unfolding from_dict to_dict from_fields assemble restored field_of
from_dict-to_dict repr a h = rw h (
    rw (read_list-arr bad_configured a.configured) (
      rw (read_list-arr bad_baseline a.engine_baseline) (
        rw (read_list-arr bad_disabled (sort_texts a.disabled)) (
          rw (text_or_empty-str repr a.combo_name)
            (rw (text_or_empty-str repr a.engine_updated_at) refl)))))
