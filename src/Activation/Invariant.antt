-- ===== src/Activation/Invariant.antt =====
-- The invariant of a `ComboActivation` that is edited: no model is configured twice, and only
-- configured models are disabled.
use router_extra.Prelude.{
  ℕ, String, ◌≡◌, sym, subst, Bool, true, false, Option, none, some, List, [], ◌∷◌, ◌++◌, arith,
  eq_iff, leb, length, contains, contains-keep, contains-discard, contains-add, Distinct,
  Bool-cases, inl, inr,
}
use router_extra.Combo.Sequence.{insert_at, remove_first, index, pop_at}
use router_extra.Combo.Order.{
  insert_at-length, contains-insert_at, Distinct-insert_at, contains-remove_first,
  Distinct-remove_first, pop_at-index,
}
use router_extra.Combo.Edits.{if_keeps, contains-nil, Recorded}
use router_extra.Activation.{
  ComboActivation, set_enabled, set_many, toggle, reorder, move_up, move_down, adopt_external,
}
use router_extra.Activation.Members.{reset_activation, add_model, remove_model, insert_or_append}
use router_extra.Activation.Edits.{toggle_changes_nothing}

abbrev pub IsWellFormed : ComboActivation → Type 0
IsWellFormed a = Distinct a.configured × Recorded a.configured a.disabled

pub data RecordEdit : Type 0 where
  sets : (ids : List String) → (enabled : Bool) → RecordEdit
  toggles : (ids : List String) → RecordEdit
  resets : RecordEdit
  adds : (m : String) → (place : Option ℕ) → RecordEdit
  removes : (m : String) → RecordEdit
  reorders : (m : String) → (place : ℕ) → RecordEdit
  moves_up moves_down : (m : String) → RecordEdit
  adopts : (server : List String) → RecordEdit

unfoldable pub edit_record : RecordEdit → ComboActivation → ComboActivation
unfolding set_many toggle reset_activation add_model remove_model reorder move_up move_down
    adopt_external
edit_record (sets ids enabled) a = (set_many ids enabled a).0
edit_record (toggles ids) a = (toggle ids a).0
edit_record resets a = (reset_activation a).0
edit_record (adds m place) a = (add_model place m a).0
edit_record (removes m) a = (remove_model m a).0
edit_record (reorders m place) a = (reorder m place a).0
edit_record (moves_up m) a = (move_up m a).0
edit_record (moves_down m) a = (move_down m a).0
edit_record (adopts server) a = adopt_external server a

-- An engine list that is adopted names no model twice.
abbrev pub IsPlain : RecordEdit → Type 0
IsPlain (adopts server) = Distinct server
IsPlain e = Unit {0}

set_enabled-IsWellFormed :
    (m : String) (b : Bool) (a : ComboActivation)
    → IsWellFormed a
    → IsWellFormed (set_enabled m b a).0
unfolding set_enabled
set_enabled-IsWellFormed m b a h = (
  ground (arith, h.0),
  λ k.
      ground
        (arith, h.1 k, contains-discard k m a.disabled, contains-add k m a.disabled, eq_iff m k),
)

set_many-IsWellFormed :
    (ms : List String) (b : Bool) (a : ComboActivation)
    → IsWellFormed a
    → IsWellFormed (set_many ms b a).0
unfolding set_many
set_many-IsWellFormed [] b a h = h
set_many-IsWellFormed (m ∷ ms) b a h =
    set_many-IsWellFormed ms b (set_enabled m b a).0 (set_enabled-IsWellFormed m b a h)

module _ (a : ComboActivation) (h : IsWellFormed a) where
  inserted :
      (i : ℕ) (m : String)
      → contains m a.configured ≡ false
      → IsWellFormed (record a { configured = insert_at i m a.configured })
  inserted i m new = (
    Distinct-insert_at i m a.configured new h.0,
    λ k r. rw (contains-insert_at k i m a.configured) (ground (arith, h.1 k r)),
  )

  appended :
      (m : String)
      → contains m a.configured ≡ false
      → IsWellFormed (record a { configured = a.configured ++ m ∷ [] })
  appended m new =
      subst (λ ms. IsWellFormed (record a { configured = ms })) (insert_at-length m a.configured)
        (inserted (length a.configured) m new)

  inserted_or_appended :
      (place : Option ℕ) (m : String)
      → contains m a.configured ≡ false
      → IsWellFormed (record a { configured = insert_or_append place m a.configured })
  unfolding insert_or_append
  inserted_or_appended none m new = appended m new
  inserted_or_appended (some i) m new =
      if_keeps (λ ms. IsWellFormed (record a { configured = ms })) (leb i (length a.configured))
        (inserted i m new) (appended m new)

  add_model-IsWellFormed : (place : Option ℕ) (m : String) → IsWellFormed (add_model place m a).0
  unfolding add_model
  add_model-IsWellFormed place m = elim (Bool-cases (contains m a.configured)) [
    | inl e ↦ rw e h
    | inr e ↦ rw e (inserted_or_appended place m e)
  ]

  remove_model-IsWellFormed : (m : String) → IsWellFormed (remove_model m a).0
  unfolding remove_model
  remove_model-IsWellFormed m = (
    ground (arith, h.0, Distinct-remove_first m a.configured),
    λ k. ground (
      arith,
      h.1 k,
      contains-discard k m a.disabled,
      contains-remove_first k m a.configured h.0,
      eq_iff m k,
      eq_iff k m,
    ),
  )

  placed :
      (i : ℕ) (m : String)
      → contains m a.configured ≡ true
      → IsWellFormed
          (record a { configured = insert_at i m (pop_at (index m a.configured) a.configured) })
  placed i m has = rw (pop_at-index m a.configured) (
    Distinct-insert_at i m (remove_first m a.configured)
        (ground (arith, contains-remove_first m m a.configured h.0, eq_iff m m))
        (Distinct-remove_first m a.configured h.0),
    λ k r.
        rw (contains-insert_at k i m (remove_first m a.configured))
          (ground (arith, h.1 k r, contains-remove_first k m a.configured h.0, eq_iff m k)),
  )

  reorder-IsWellFormed : (i : ℕ) (m : String) → IsWellFormed (reorder m i a).0
  unfolding reorder
  reorder-IsWellFormed i m = elim (Bool-cases (contains m a.configured)) [
    | inl e ↦ rw e (if_keeps (λ (r : ComboActivation × Bool). IsWellFormed r.0) _ h (placed i m e))
    | inr e ↦ rw e h
  ]

  moved-IsWellFormed : (m : String) → IsWellFormed (move_up m a).0 × IsWellFormed (move_down m a).0
  unfolding move_up move_down
  moved-IsWellFormed m = (
    if_keeps (λ (r : ComboActivation × Bool). IsWellFormed r.0) _ (reorder-IsWellFormed _ m) h,
    if_keeps (λ (r : ComboActivation × Bool). IsWellFormed r.0) _ (reorder-IsWellFormed _ m) h,
  )

  adopt_external-IsWellFormed :
      (server : List String) → Distinct server → IsWellFormed (adopt_external server a)
  unfolding adopt_external
  adopt_external-IsWellFormed server d =
      (d, λ k. ground (arith, contains-keep (λ m. contains m server) k a.disabled))

  edit_record-IsWellFormed : (e : RecordEdit) → IsPlain e → IsWellFormed (edit_record e a)
  unfolding edit_record reset_activation
  edit_record-IsWellFormed (sets ids enabled) p = set_many-IsWellFormed ids enabled a h
  edit_record-IsWellFormed (toggles ids) p =
      subst (λ (r : ComboActivation × List String). IsWellFormed r.0)
        (sym (toggle_changes_nothing ids a)) h
  edit_record-IsWellFormed resets p = (h.0, λ k r. absurd (contains-nil k r))
  edit_record-IsWellFormed (adds m place) p = add_model-IsWellFormed place m
  edit_record-IsWellFormed (removes m) p = remove_model-IsWellFormed m
  edit_record-IsWellFormed (reorders m place) p = reorder-IsWellFormed place m
  edit_record-IsWellFormed (moves_up m) p = (moved-IsWellFormed m).0
  edit_record-IsWellFormed (moves_down m) p = (moved-IsWellFormed m).1
  edit_record-IsWellFormed (adopts server) p = adopt_external-IsWellFormed server p

unfoldable pub edit_records : List RecordEdit → ComboActivation → ComboActivation
unfolding edit_record
edit_records [] a = a
edit_records (e ∷ es) a = edit_records es (edit_record e a)

abbrev pub AllPlain : List RecordEdit → Type 0
AllPlain [] = Unit {0}
AllPlain (e ∷ es) = IsPlain e × AllPlain es

-- However a record is edited, no model is configured twice in it and only configured models are
-- disabled, if that holds at the start and no engine list that is adopted names a model twice.
pub edit_records-IsWellFormed :
    (es : List RecordEdit) (a : ComboActivation)
    → AllPlain es
    → IsWellFormed a
    → IsWellFormed (edit_records es a)
unfolding edit_records
edit_records-IsWellFormed [] a p h = h
edit_records-IsWellFormed (e ∷ es) a p h =
    edit_records-IsWellFormed es (edit_record e a) p.1 (edit_record-IsWellFormed a h e p.0)
