-- ===== src/Combo/Moves/Invariant.antt =====
-- The invariant of a combo that is edited locally: no member is configured twice, and only
-- configured members have an activation record, in the local state and in the baseline.
use router_extra.Prelude.{
  ℕ, String, ◌≡◌, subst, ◌∙◌, Bool, false, not, Option, none, some, List, [], ◌∷◌, ◌++◌, arith,
  str_eq, eq_iff, if◌then◌else◌, length, contains, leb, contains-discard, contains-add, Bool-cases,
  inl, inr,
}
use router_extra.Combo.{
  StableCombo, set_model_enabled, toggle_model, add_model, remove_model, remove_models, mark_clean,
  is_model_enabled,
}
use router_extra.Combo.Sequence.{insert_at}
use router_extra.Combo.Order.{
  insert_at-length, contains-insert_at, Distinct-insert_at, contains-remove_first,
  Distinct-remove_first,
}
use router_extra.Combo.Removal.{
  Distinct-remove_counted, disabled-remove_counted, kept-remove_counted,
}
use router_extra.Combo.Moves.{Move, run_move, run_move-Moved, disabled-run_move}
use router_extra.Combo.Edits.{
  IsWellFormed, Edit, set_enabled, toggle, reset, add, remove, remove_all, shift, revert, clean,
  run_edit, run_edits, if_keeps, contains-nil, Moved-members, baseline-run_move,
}

module _ {c : StableCombo} (h : IsWellFormed c) where
  set_enabled-IsWellFormed : (m : String) (b : Bool) → IsWellFormed (set_model_enabled m b c).0
  unfolding set_model_enabled
  set_enabled-IsWellFormed m b = record {
    distinct = ground (arith, h.distinct);
    recorded = λ k. ground (
      arith,
      h.recorded k,
      contains-discard k m c.disabled,
      contains-add k m c.disabled,
      eq_iff m k,
    );
    baseline_distinct = ground (arith, h.baseline_distinct);
    baseline_recorded = λ k. ground (arith, h.baseline_recorded k);
  }

  toggle-IsWellFormed : (m : String) → IsWellFormed (toggle_model m c).0
  unfolding toggle_model
  toggle-IsWellFormed m =
      if_keeps {A = StableCombo × Bool} (λ r. IsWellFormed r.0) (contains m c.models)
        (set_enabled-IsWellFormed m (not (is_model_enabled m c))) h

  inserted-IsWellFormed :
      (i : ℕ) (m : String)
      → contains m c.models ≡ false
      → IsWellFormed (record c { models = insert_at i m c.models })
  inserted-IsWellFormed i m new = record {
    distinct = Distinct-insert_at i m c.models new h.distinct;
    recorded = λ k r. rw (contains-insert_at k i m c.models) (ground (arith, h.recorded k r));
    baseline_distinct = h.baseline_distinct;
    baseline_recorded = h.baseline_recorded;
  }

  appended-IsWellFormed :
      (m : String)
      → contains m c.models ≡ false
      → IsWellFormed (record c { models = c.models ++ m ∷ [] })
  appended-IsWellFormed m new =
      subst (λ ms. IsWellFormed (record c { models = ms })) (insert_at-length m c.models)
        (inserted-IsWellFormed (length c.models) m new)

  add-IsWellFormed : (m : String) (place : Option ℕ) → IsWellFormed (add_model m place c).0
  unfolding add_model
  add-IsWellFormed m place = elim (Bool-cases (contains m c.models)) [
    | inl e ↦ rw e h
    | inr e ↦ rw e (new place e)
  ]
    where
      new :
          (q : Option ℕ)
          → contains m c.models ≡ false
          → IsWellFormed (record c {
            models = elim q [
              | none ↦ c.models ++ m ∷ []
              | some i ↦
                  if leb i (length c.models) then insert_at i m c.models else c.models ++ m ∷ []
            ];
          })
      new none e = appended-IsWellFormed m e
      new (some i) e =
          if_keeps (λ ms. IsWellFormed (record c { models = ms })) (leb i (length c.models))
            (inserted-IsWellFormed i m e) (appended-IsWellFormed m e)

  remove-IsWellFormed : (m : String) → IsWellFormed (remove_model m c).0
  unfolding remove_model
  remove-IsWellFormed m = record {
    distinct = ground (arith, h.distinct, Distinct-remove_first m c.models);
    recorded = λ k. ground (
      arith,
      h.recorded k,
      contains-discard k m c.disabled,
      contains-remove_first k m c.models h.distinct,
      eq_iff m k,
      eq_iff k m,
    );
    baseline_distinct = ground (arith, h.baseline_distinct);
    baseline_recorded = λ k. ground (arith, h.baseline_recorded k);
  }

  shift-IsWellFormed : (v : Move) (m : String) → IsWellFormed (run_move v m c).0
  shift-IsWellFormed v m =
      let (models_distinct, members) = Moved-members (run_move-Moved v m c) h.distinct in
      let (baseline, baseline_off) = baseline-run_move v m c in
      record {
        distinct = models_distinct;
        recorded = λ k r. members k ∙ h.recorded k (rw (disabled-run_move v m c) at r);
        baseline_distinct = rw baseline h.baseline_distinct;
        baseline_recorded = rw (baseline, baseline_off) h.baseline_recorded;
      }

  remove_all-IsWellFormed : (ms : List String) → IsWellFormed (remove_models ms c).0
  unfolding remove_models
  remove_all-IsWellFormed ms = record {
    distinct = Distinct-remove_counted ms c.models c.disabled h.distinct;
    recorded = λ k r.
        kept-remove_counted k ms c.models c.disabled
          (h.recorded k (disabled-remove_counted k ms c.models c.disabled r)) r;
    baseline_distinct = h.baseline_distinct;
    baseline_recorded = h.baseline_recorded;
  }

  clean-IsWellFormed : (stamp : String) → IsWellFormed (mark_clean stamp c)
  unfolding mark_clean
  clean-IsWellFormed stamp =
      if_keeps IsWellFormed (str_eq stamp "") (settled c.updated_at c.baseline_updated_at)
        (settled stamp stamp)
    where
      settled :
          (s t : String)
          → IsWellFormed (record c {
            updated_at = s;
            baseline_updated_at = t;
            baseline_models = c.models;
            baseline_disabled = c.disabled;
            baseline_name = c.name;
            baseline_kind = c.kind;
          })
      settled s t = record {
        distinct = h.distinct;
        recorded = h.recorded;
        baseline_distinct = h.distinct;
        baseline_recorded = h.recorded;
      }

  run_edit-IsWellFormed : (e : Edit) → IsWellFormed (run_edit e c)
  unfolding run_edit
  run_edit-IsWellFormed (set_enabled m b) = set_enabled-IsWellFormed m b
  run_edit-IsWellFormed (toggle m) = toggle-IsWellFormed m
  run_edit-IsWellFormed reset = record {
    distinct = h.distinct;
    recorded = λ k r. absurd (contains-nil k r);
    baseline_distinct = h.baseline_distinct;
    baseline_recorded = h.baseline_recorded;
  }
  run_edit-IsWellFormed (add m place) = add-IsWellFormed m place
  run_edit-IsWellFormed (remove m) = remove-IsWellFormed m
  run_edit-IsWellFormed (remove_all ms) = remove_all-IsWellFormed ms
  run_edit-IsWellFormed (shift v m) = shift-IsWellFormed v m
  run_edit-IsWellFormed revert = record {
    distinct = h.baseline_distinct;
    recorded = h.baseline_recorded;
    baseline_distinct = h.baseline_distinct;
    baseline_recorded = h.baseline_recorded;
  }
  run_edit-IsWellFormed (clean stamp) = clean-IsWellFormed stamp

-- From a combo with no member twice and an activation record only for members, every sequence of
-- edits, moves, removals by id, reverts and saves leads to such a combo.
pub run_edits-IsWellFormed :
    (es : List Edit) {c : StableCombo} → IsWellFormed c → IsWellFormed (run_edits es c)
unfolding run_edits
run_edits-IsWellFormed [] h = h
run_edits-IsWellFormed (e ∷ es) h = run_edits-IsWellFormed es (run_edit-IsWellFormed h e)
