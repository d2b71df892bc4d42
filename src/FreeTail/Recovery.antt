-- ===== src/FreeTail/Recovery.antt =====
-- The ledger and the engine's combo across stopped syncs, for the flow of `FreeTail.Staging`.
use router_extra.Prelude.{
  list_eq→eq, list_eq_iff, String, ◌≡◌, ◌≢◌, ◌∙◌, sym, subst, inl, inr, refl, ap, Bool, true, false,
  Option, none, some, List, [], ◌∷◌, arith, if◌then◌else◌, list_eq,
}
use router_extra.FreeTail.Plan.{Ledger, apply_delta}
use router_extra.FreeTail.Staging.{
  Intent, Registry, stage_over, stage_tail_sync_intent, carry_out, finalize_over,
  finalize_tail_sync_intent, Recovery, recovery_required, reconcile_over,
  reconcile_pending_tail_sync, World, SyncStep, stages, writes, commits, recovers, SyncRun, rest,
  step, Staged, IsConsistent,
}

if_when {ℓ κ} :
    {A : Type ℓ} (P : A → Type κ) (b : Bool) {x y : A}
    → (b ≡ true → P x)
    → (b ≡ false → P y)
    → P (if b then x else y)
if_when P true f g = f refl
if_when P false f g = g refl

abbrev world : List String → Ledger → Option Intent → World
world engine ledger p = record {
  engine = engine;
  registry = record { ledger = ledger; pending_tail_sync = p };
}

abbrev with_registry : List String → Registry → World
with_registry engine r = record { engine = engine; registry = r }

module _ (start : World) (engine : List String) (ledger : Ledger) where
  carry_out-IsConsistent :
      (i : Intent)
      → engine ≡ i.new_models
      → IsConsistent start (world engine ledger (some i))
      → IsConsistent start
          (with_registry engine (carry_out i (world engine ledger (some i)).registry))
  unfolding carry_out
  carry_out-IsConsistent i e h = record {
    carried = i ∷ h.carried;
    chained = (h.staged.0, h.chained);
    replayed = ap (apply_delta i.appended i.removed) h.replayed;
    staged = e;
  }

  stage-IsConsistent :
      (saved : Bool) (i : Intent) (p : Option Intent)
      → i.old_models ≡ engine
      → IsConsistent start (world engine ledger p)
      → IsConsistent start
          (with_registry engine (stage_over saved i p (world engine ledger p).registry).0)
  unfolding stage_over
  stage-IsConsistent saved i (some j) e h = h
  stage-IsConsistent false i none e h = h
  stage-IsConsistent true i none e h = record {
    carried = h.carried;
    chained = h.chained;
    replayed = h.replayed;
    staged = (e ∙ h.staged, inl (sym e));
  }

  finalize-IsConsistent :
      (saved : Bool) (p : Option Intent)
      → IsConsistent start (world engine ledger p)
      → IsConsistent start
          (with_registry engine (finalize_over saved engine p (world engine ledger p).registry).0)
  unfolding finalize_over
  finalize-IsConsistent saved none h = h
  finalize-IsConsistent saved (some i) h =
      let P = λ (r : Registry × Bool). IsConsistent start (with_registry engine r.0) in
      if_when P (list_eq engine i.new_models)
        (λ e.
          if_when P saved (λ s. carry_out-IsConsistent i (list_eq→eq engine i.new_models e) h)
            (λ s. h))
        (λ e. h)

  rolled_back-IsConsistent :
      (i : Intent)
      → engine ≡ i.old_models
      → IsConsistent start (world engine ledger (some i))
      → IsConsistent start (world engine ledger none)
  rolled_back-IsConsistent i e h = record {
    carried = h.carried;
    chained = h.chained;
    replayed = h.replayed;
    staged = e ∙ h.staged.0;
  }

  reconcile-IsConsistent :
      (saved : Bool) (p : Option Intent)
      → IsConsistent start (world engine ledger p)
      → IsConsistent start
          (with_registry engine (reconcile_over saved engine p (world engine ledger p).registry).0)
  unfolding reconcile_over
  reconcile-IsConsistent saved none h = h
  reconcile-IsConsistent saved (some i) h =
      let P = λ (r : Registry × Recovery). IsConsistent start (with_registry engine r.0) in
      if_when P (list_eq engine i.new_models)
        (λ e.
          if_when P saved (λ s. carry_out-IsConsistent i (list_eq→eq engine i.new_models e) h)
            (λ s. h))
        (λ e.
          if_when P (list_eq engine i.old_models)
            (λ f.
              if_when P saved (λ s. rolled_back-IsConsistent i (list_eq→eq engine i.old_models f) h)
                (λ s. h))
            (λ f. h))

  write-IsConsistent :
      (i : Intent) (p : Option Intent)
      → p ≡ some i
      → IsConsistent start (world engine ledger p)
      → IsConsistent start (world i.new_models ledger p)
  write-IsConsistent i none e h = cc
  write-IsConsistent i (some j) e h = record {
    carried = h.carried;
    chained = h.chained;
    replayed = h.replayed;
    staged = (h.staged.0, inr (ground (arith, e)));
  }

  -- The recovery finds the engine at one of the two staged sequences.
  reconcile_settles :
      (p : Option Intent)
      → IsConsistent start (world engine ledger p)
      → let (r, outcome) = reconcile_over true engine p (world engine ledger p).registry in
        (r.pending_tail_sync ≡ none) × (outcome ≢ recovery_required)
  unfolding reconcile_over carry_out
  reconcile_settles none h = (refl, λ e. cc)
  reconcile_settles (some i) h =
      ground (arith, h.staged, list_eq_iff engine i.old_models, list_eq_iff engine i.new_models)

SyncStep-IsConsistent :
    {start v w : World} → SyncStep v w → IsConsistent start v → IsConsistent start w
unfolding stage_tail_sync_intent finalize_tail_sync_intent reconcile_pending_tail_sync
SyncStep-IsConsistent {start} (stages saved i w e) h =
    stage-IsConsistent start w.engine w.registry.ledger saved i w.registry.pending_tail_sync e h
SyncStep-IsConsistent {start} (writes i w e) h =
    write-IsConsistent start w.engine w.registry.ledger i w.registry.pending_tail_sync e h
SyncStep-IsConsistent {start} (commits saved w) h =
    finalize-IsConsistent start w.engine w.registry.ledger saved w.registry.pending_tail_sync h
SyncStep-IsConsistent {start} (recovers saved w) h =
    reconcile-IsConsistent start w.engine w.registry.ledger saved w.registry.pending_tail_sync h

SyncRun-IsConsistent :
    {start w : World}
    → start.registry.pending_tail_sync ≡ none
    → SyncRun start w
    → IsConsistent start w
SyncRun-IsConsistent {start} e rest = record {
  carried = [];
  chained = tt;
  replayed = refl;
  staged = subst (λ p. Staged p start.engine start.engine) (sym e) refl;
}
SyncRun-IsConsistent e (step r x) = SyncStep-IsConsistent x (SyncRun-IsConsistent e r)

-- While only this flow changes the combo, from a state with nothing staged, wherever syncs stop and
-- whichever saves of the registry fail: the ledger is the first one with the changes of a chain of
-- syncs, each begun where the one before it ended, and the combo stands where the last one ended or
-- at the sequence that is staged. The next recovery that can be saved leaves nothing staged and
-- never asks for help.
pub sync_recovers :
    {start w : World}
    → start.registry.pending_tail_sync ≡ none
    → SyncRun start w
    → let (r, outcome) = reconcile_pending_tail_sync true w.engine w.registry in
      IsConsistent start w × (r.pending_tail_sync ≡ none) × (outcome ≢ recovery_required)
unfolding reconcile_pending_tail_sync
sync_recovers {start} {w} e run =
    let h = SyncRun-IsConsistent e run in
    let (a, b) =
      reconcile_settles start w.engine w.registry.ledger w.registry.pending_tail_sync h in
    (h, a, b)
