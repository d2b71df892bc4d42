-- ===== src/Providers/Sync/Recovering.antt =====
-- Staging and recovering a sync on the full registry are the steps of FreeTail.Staging.
use router_extra.Prelude.{
  ℕ, String, ◌≡◌, refl, ap, ◌∙◌, Bool, true, false, Option, none, some, List, list_eq, Bool-cases,
  inl, inr,
}
use router_extra.Storage.{is_blank}
use router_extra.FreeTail.Staging.{
  Intent, Registry, carry_out, stage_over as abstract_stage_over,
  reconcile_over as abstract_reconcile_over, stage_tail_sync_intent as abstract_stage,
  finalize_tail_sync_intent as abstract_finalize, reconcile_pending_tail_sync as abstract_reconcile,
  Recovery, clean, completed, rolled_back, save_failed, recovery_required,
}
use router_extra.Providers.{TailIntent, FreeRegistry, restore, restore_provider}
use router_extra.Providers.Sync.Staged.{
  stage_tail_sync_intent, finalize_tail_sync_intent, reconcile_pending_tail_sync, on_pending,
  stage_over, reconcile_over, restore_failed, carried_out, apply_tail_sync_intent,
}
use router_extra.Providers.Undoing.{apply-IsFramed, restore-final}
use router_extra.Providers.Sync.Refinement.{intent_of}
use router_extra.Providers.Sync.Simulation.{
  can_save, saved, save-can, save-cannot, can_save-applied, mutation-done, mutation-undone,
  SamePending, Simulates, Matches, Matches-by, carried-Simulates, finalize-Matches,
}

module _ (combo : String) (now : ℕ) (refused : Bool) (actual : List String) (a : Registry)
    (r : FreeRegistry) (h : Simulates combo a r) where
  AgreeAt : Type 0
  AgreeAt =
      Matches Recovery combo (abstract_reconcile (can_save refused r) actual a)
        (reconcile_pending_tail_sync now refused actual r)

  staged-can :
      (i : TailIntent) {b : Bool}
      → can_save refused r ≡ b
      → can_save refused (record r { pending_tail_sync = some i }) ≡ b
  unfolding can_save
  staged-can i c = c

  freed-can :
      {b : Bool}
      → can_save refused r ≡ b
      → can_save refused (record r { pending_tail_sync = none }) ≡ b
  unfolding can_save
  freed-can c = c

  unchanged-AgreeAt :
      (result : Recovery)
      → abstract_reconcile (can_save refused r) actual a ≡ (a, result)
      → reconcile_pending_tail_sync now refused actual r ≡ (r, result)
      → AgreeAt
  unfolding AgreeAt
  unchanged-AgreeAt result e f = Matches-by combo e f (record { simulates = h; answer = refl })

  module _ (i : TailIntent) (e : r.pending_tail_sync ≡ some i)
      (f : a.pending_tail_sync ≡ some (intent_of i)) where
    completed-AgreeAt :
        i.combo_name ≡ combo
        → list_eq actual i.new_models ≡ true
        → can_save refused r ≡ true
        → AgreeAt
    unfolding AgreeAt reconcile_pending_tail_sync reconcile_over restore_failed abstract_reconcile
        abstract_reconcile_over intent_of
    completed-AgreeAt n d c =
        Matches-by combo {x = (carry_out (intent_of i) a, completed)}
          {y = (saved (carried_out now i r), completed)}
          (ap (λ q. abstract_reconcile_over (can_save refused r) actual q a) f ∙ rw (d, c) refl)
          (ap (λ q. restore_failed r (reconcile_over now refused actual q r)) e
            ∙ rw (d, save-can refused (carried_out now i r) (can_save-applied refused now i r ∙ c))
                refl)
          (record { simulates = carried-Simulates combo now i a r n h.views; answer = refl })

    uncompleted-AgreeAt : list_eq actual i.new_models ≡ true → can_save refused r ≡ false → AgreeAt
    unfolding reconcile_pending_tail_sync reconcile_over restore_failed abstract_reconcile
        abstract_reconcile_over intent_of carried_out
    uncompleted-AgreeAt d c =
        unchanged-AgreeAt save_failed
          (ap (λ q. abstract_reconcile_over (can_save refused r) actual q a) f ∙ rw (d, c) refl)
          (ap (λ q. restore_failed r (reconcile_over now refused actual q r)) e
            ∙ rw
                (
                  d,
                  save-cannot refused (carried_out now i r) (can_save-applied refused now i r ∙ c),
                )
                (ap (λ (x : FreeRegistry). (x, save_failed))
                  (restore-final r (apply_tail_sync_intent now i r) (apply-IsFramed now i r))))

    rolled_back-AgreeAt :
        list_eq actual i.new_models ≡ false
        → list_eq actual i.old_models ≡ true
        → can_save refused r ≡ true
        → AgreeAt
    unfolding AgreeAt reconcile_pending_tail_sync reconcile_over restore_failed abstract_reconcile
        abstract_reconcile_over intent_of saved
    rolled_back-AgreeAt d o c =
        Matches-by combo {x = (record a { pending_tail_sync = none }, rolled_back)}
          {y = (saved (record r { pending_tail_sync = none }), rolled_back)}
          (ap (λ q. abstract_reconcile_over (can_save refused r) actual q a) f ∙ rw (d, o, c) refl)
          (ap (λ q. restore_failed r (reconcile_over now refused actual q r)) e
            ∙ rw (d, o, save-can refused (record r { pending_tail_sync = none }) (freed-can c))
                refl)
          (record {
            simulates = record {
              views = record { owns = h.views.owns; candidates = h.views.candidates };
              pending = tt;
            };
            answer = refl;
          })

    not_rolled_back-AgreeAt :
        list_eq actual i.new_models ≡ false
        → list_eq actual i.old_models ≡ true
        → can_save refused r ≡ false
        → AgreeAt
    unfolding reconcile_pending_tail_sync reconcile_over restore_failed abstract_reconcile
        abstract_reconcile_over intent_of restore restore_provider
    not_rolled_back-AgreeAt d o c =
        unchanged-AgreeAt save_failed
          (ap (λ q. abstract_reconcile_over (can_save refused r) actual q a) f ∙ rw (d, o, c) refl)
          (ap (λ q. restore_failed r (reconcile_over now refused actual q r)) e
            ∙ rw (d, o, save-cannot refused (record r { pending_tail_sync = none }) (freed-can c))
                refl)

    stuck-AgreeAt :
        list_eq actual i.new_models ≡ false → list_eq actual i.old_models ≡ false → AgreeAt
    unfolding reconcile_pending_tail_sync reconcile_over restore_failed abstract_reconcile
        abstract_reconcile_over intent_of
    stuck-AgreeAt d o =
        unchanged-AgreeAt recovery_required
          (ap (λ q. abstract_reconcile_over (can_save refused r) actual q a) f ∙ rw (d, o) refl)
          (ap (λ q. restore_failed r (reconcile_over now refused actual q r)) e ∙ rw (d, o) refl)

  reconcile-case :
      (o : Option TailIntent) (b : Option Intent)
      → r.pending_tail_sync ≡ o
      → a.pending_tail_sync ≡ b
      → SamePending combo o b
      → AgreeAt
  unfolding reconcile_pending_tail_sync reconcile_over restore_failed abstract_reconcile
      abstract_reconcile_over
  reconcile-case none none e f p =
      unchanged-AgreeAt clean (ap (λ q. abstract_reconcile_over (can_save refused r) actual q a) f)
        (ap (λ q. restore_failed r (reconcile_over now refused actual q r)) e)
  reconcile-case none (some j) e f p = elim p [ ]
  reconcile-case (some i) none e f p = elim p [ ]
  reconcile-case (some i) (some j) e f p = elim (Bool-cases (list_eq actual i.new_models)) [
    | inl d ↦ elim (Bool-cases (can_save refused r)) [
      | inl c ↦ completed-AgreeAt i e (f ∙ ap some p.1) p.0 d c
      | inr c ↦ uncompleted-AgreeAt i e (f ∙ ap some p.1) d c
    ]
    | inr d ↦ elim (Bool-cases (list_eq actual i.old_models)) [
      | inr o ↦ stuck-AgreeAt i e (f ∙ ap some p.1) d o
      | inl o ↦ elim (Bool-cases (can_save refused r)) [
        | inl c ↦ rolled_back-AgreeAt i e (f ∙ ap some p.1) d o c
        | inr c ↦ not_rolled_back-AgreeAt i e (f ∙ ap some p.1) d o c
      ]
    ]
  ]

  stage-case :
      (i : TailIntent) (o : Option TailIntent) (b : Option Intent)
      → i.combo_name ≡ combo
      → is_blank combo ≡ false
      → r.pending_tail_sync ≡ o
      → a.pending_tail_sync ≡ b
      → SamePending combo o b
      → Matches Bool combo
          (abstract_stage (can_save refused r) (intent_of i) a)
          (stage_tail_sync_intent refused i r)
  unfolding stage_tail_sync_intent abstract_stage stage_over abstract_stage_over restore
      restore_provider saved
  stage-case i (some k) (some j) n w e f p =
      Matches-by combo (ap (λ q. abstract_stage_over (can_save refused r) (intent_of i) q a) f)
        (mutation-undone (on_pending false) (λ s. stage_over refused i s.pending_tail_sync s) r r
          (ap (λ q. stage_over refused i q r) e) refl)
        (record { simulates = h; answer = refl })
  stage-case i none (some j) n w e f p = elim p [ ]
  stage-case i (some k) none n w e f p = elim p [ ]
  stage-case i none none n w e f p = elim (Bool-cases (can_save refused r)) [
    | inl c ↦
        Matches-by combo {x = (record a { pending_tail_sync = some (intent_of i) }, true)}
          {y = (saved (record r { pending_tail_sync = some i }), true)}
          (ap (λ q. abstract_stage_over (can_save refused r) (intent_of i) q a) f ∙ rw c refl)
          (mutation-done (on_pending false) (λ s. stage_over refused i s.pending_tail_sync s) r
            (saved (record r { pending_tail_sync = some i }))
            (ap (λ q. stage_over refused i q r) e
              ∙ rw (ap is_blank n ∙ w)
                  (save-can refused (record r { pending_tail_sync = some i }) (staged-can i c))))
          (record {
            simulates = record {
              views = record { owns = h.views.owns; candidates = h.views.candidates };
              pending = (n, refl);
            };
            answer = refl;
          })
    | inr c ↦
        Matches-by combo {x = (a, false)} {y = (r, false)}
          (ap (λ q. abstract_stage_over (can_save refused r) (intent_of i) q a) f ∙ rw c refl)
          (mutation-undone (on_pending false) (λ s. stage_over refused i s.pending_tail_sync s) r
            (record r { pending_tail_sync = some i })
            (ap (λ q. stage_over refused i q r) e
              ∙ rw (ap is_blank n ∙ w)
                  (save-cannot refused (record r { pending_tail_sync = some i }) (staged-can i c)))
            refl)
          (record { simulates = h; answer = refl })
  ]

-- The full registry refines the abstract one of a combo with a name: from states that correspond,
-- staging, committing and recovering a sync of that combo give the same answer on both and states
-- that correspond again, where the abstract save succeeds exactly when the full one does.
pub registry_refines :
    (combo : String) (now : ℕ) (refused : Bool) (actual : List String) (i : TailIntent)
    (a : Registry) (r : FreeRegistry)
    → i.combo_name ≡ combo
    → is_blank combo ≡ false
    → Simulates combo a r
    → Matches Bool combo
        (abstract_stage (can_save refused r) (intent_of i) a)
        (stage_tail_sync_intent refused i r)
      × Matches Bool combo
          (abstract_finalize (can_save refused r) actual a)
          (finalize_tail_sync_intent now refused actual r)
      × Matches Recovery combo
          (abstract_reconcile (can_save refused r) actual a)
          (reconcile_pending_tail_sync now refused actual r)
unfolding AgreeAt
registry_refines combo now refused actual i a r n w h = (
  stage-case combo now refused actual a r h i r.pending_tail_sync a.pending_tail_sync n w refl refl
      h.pending,
  finalize-Matches combo now refused actual a r h,
  reconcile-case combo now refused actual a r h r.pending_tail_sync a.pending_tail_sync refl refl
      h.pending,
)
