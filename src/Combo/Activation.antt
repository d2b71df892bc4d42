-- ===== src/Combo/Activation.antt =====
-- What the activation methods of `StableCombo` change.
use mathlib.Core.Path.{fun_ext}
use router_extra.Prelude.{
  ◌+◌, ◌≤◌, String, ◌≡◌, ◌≢◌, ◌↔◌, refl, ap, ◌∙◌, Option, none, some, Bool, true, false, not, ◌&&◌,
  List, [], ◌∷◌, arith, str_eq, eq_iff, if◌then◌else◌, length, keep, contains, contains-discard,
  contains-add, Bool-cases, inl, inr,
}
use router_extra.Combo.{
  StableCombo, effective_models, is_model_enabled, disabled_models, set_model_enabled, changed,
  set_models_enabled, toggle_model, toggle_models, activation_counts,
}

-- Setting one member: the configured sequence stays, the result says whether the member's state
-- changed, a configured member gets the state asked for, and the state of no other id changes.
pub set_model_enabled_lem :
    (m k : String) (enabled : Bool) (c : StableCombo)
    → let (d, done) = set_model_enabled m enabled c in
      (d.models ≡ c.models)
      × (is_model_enabled k d
          ≡ (if contains m c.models && str_eq m k then enabled else is_model_enabled k c))
      × ((done ≡ true) ↔ ((contains m c.models ≡ true) × (is_model_enabled m c ≢ enabled)))
unfolding set_model_enabled is_model_enabled
set_model_enabled_lem m k enabled c =
    ground
      (arith, contains-discard k m c.disabled, contains-add k m c.disabled, eq_iff k m, eq_iff m k)

set_models_enabled-at :
    (ms : List String) (k : String) (enabled : Bool) (c : StableCombo)
    → let d = (changed (λ m. set_model_enabled m enabled) ms c).0 in
      (d.models ≡ c.models)
      × (is_model_enabled k d
          ≡ (if contains k c.models && contains k ms then enabled else is_model_enabled k c))
unfolding changed contains
set_models_enabled-at [] k enabled c = ground arith
set_models_enabled-at (m ∷ ms) k enabled c = ground (
  arith,
  set_models_enabled-at ms k enabled (set_model_enabled m enabled c).0,
  set_model_enabled_lem m k enabled c,
  eq_iff m k,
  ap (contains k) (set_model_enabled_lem m k enabled c).0,
)

-- Setting several members at once keeps the configured sequence and gives each configured member
-- that is listed the state asked for, and no other id a new state.
pub set_models_enabled_lem :
    (ms : List String) (k : String) (enabled : Bool) (c : StableCombo)
    → let d = (set_models_enabled ms enabled c).0 in
      (d.models ≡ c.models)
      × (is_model_enabled k d
          ≡ (if contains k c.models && contains k ms then enabled else is_model_enabled k c))
unfolding set_models_enabled
set_models_enabled_lem ms k enabled c = set_models_enabled-at ms k enabled c

keep-cong :
    (p q : String → Bool) → ((x : String) → p x ≡ q x) → (xs : List String) → keep p xs ≡ keep q xs
keep-cong p q h xs = rw (fun_ext h) refl

-- The published sequence depends on the configured one and on each member's state alone.
pub effective_models-cong :
    (c d : StableCombo)
    → c.models ≡ d.models
    → ((k : String) → is_model_enabled k c ≡ is_model_enabled k d)
    → effective_models c ≡ effective_models d
unfolding effective_models is_model_enabled
effective_models-cong c d e h =
    keep-cong (λ m. not (contains m c.disabled)) (λ m. not (contains m d.disabled)) h c.models
    ∙ ap (keep (λ m. not (contains m d.disabled))) e

-- Disabling an enabled member and enabling it again publishes the sequence that was published
-- before, with the member at its old place.
pub effective_models-reenable :
    (m : String) (c : StableCombo)
    → is_model_enabled m c ≡ true
    → effective_models (set_model_enabled m true (set_model_enabled m false c).0).0
      ≡ effective_models c
effective_models-reenable m c h =
    let d = (set_model_enabled m false c).0 in
    let e = (set_model_enabled m true d).0 in
    effective_models-cong e c
      ((set_model_enabled_lem m m true d).0 ∙ (set_model_enabled_lem m m false c).0)
      λ k. ground (
        arith,
        set_model_enabled_lem m k true d,
        set_model_enabled_lem m k false c,
        eq_iff m k,
        ap (contains m) (set_model_enabled_lem m m false c).0,
      )

toggle_model_lem :
    (m k : String) (c : StableCombo)
    → let d = (toggle_model m c).0 in
      (d.models ≡ c.models)
      × (is_model_enabled k d ≡ (
          if contains k c.models && str_eq m k
          then not (is_model_enabled k c)
          else is_model_enabled k c))
unfolding toggle_model
toggle_model_lem m k c =
    ground (arith, set_model_enabled_lem m k (not (is_model_enabled m c)) c, eq_iff m k)

-- The state of k once each listed id was flipped.
flips : String → List String → Bool → Bool
flips k [] b = b
flips k (m ∷ ms) b = flips k ms (if str_eq m k then not b else b)

flips-not : (k : String) (ms : List String) (b : Bool) → flips k ms (not b) ≡ not (flips k ms b)
unfolding flips
flips-not k [] b = refl
flips-not k (m ∷ ms) b = elim (Bool-cases (str_eq m k)) [
  | inl e ↦ rw e (flips-not k ms (not b))
  | inr e ↦ rw e (flips-not k ms b)
]

flips-flips : (k : String) (ms : List String) (b : Bool) → flips k ms (flips k ms b) ≡ b
unfolding flips
flips-flips k [] b = refl
flips-flips k (m ∷ ms) b =
    ground
      (arith, flips-not k ms (flips k ms (not b)), flips-flips k ms b, flips-flips k ms (not b))

toggle_models-at :
    (ms : List String) (k : String) (c : StableCombo)
    → let d = (changed toggle_model ms c).0 in
      (d.models ≡ c.models)
      × (is_model_enabled k d ≡ (
          if contains k c.models then flips k ms (is_model_enabled k c) else is_model_enabled k c))
unfolding changed flips
toggle_models-at [] k c = ground arith
toggle_models-at (m ∷ ms) k c = ground (
  arith,
  toggle_models-at ms k (toggle_model m c).0,
  toggle_model_lem m k c,
  ap (contains k) (toggle_model_lem m k c).0,
)

-- Toggling any list of ids twice, with repetitions or not, publishes the sequence that was
-- published before.
pub effective_models-toggle_models :
    (ms : List String) (c : StableCombo)
    → effective_models (toggle_models ms (toggle_models ms c).0).0 ≡ effective_models c
unfolding toggle_models
effective_models-toggle_models ms c =
    let d = (changed toggle_model ms c).0 in
    let e = (changed toggle_model ms d).0 in
    effective_models-cong e c ((toggle_models-at ms "" d).0 ∙ (toggle_models-at ms "" c).0) λ k.
      ground (
        arith,
        toggle_models-at ms k d,
        toggle_models-at ms k c,
        ap (contains k) (toggle_models-at ms k c).0,
        flips-flips k ms (is_model_enabled k c),
      )

length-keep-split :
    (p : String → Bool) (xs : List String)
    → length (keep (λ x. not (p x)) xs) + length (keep p xs) ≡ length xs
unfolding keep
length-keep-split p [] = refl
length-keep-split p (x ∷ xs) = ground (arith, length-keep-split p xs)

-- The counts line: the configured members are the enabled and the disabled ones, the disabled are
-- those that `disabled_models` lists, and no more are routable than are enabled.
pub activation_counts_lem :
    (routable_ids : Option (List String)) (c : StableCombo)
    → let n = activation_counts routable_ids c in
      (n.configured ≡ n.enabled + n.disabled)
      × (n.disabled ≡ length (disabled_models c))
      × (n.routable ≤ n.enabled)
unfolding activation_counts disabled_models
activation_counts_lem none c =
    ground (arith, length-keep-split (λ m. contains m c.disabled) c.models)
activation_counts_lem (some ids) c = ground (
  arith,
  length-keep-split (λ m. contains m c.disabled) c.models,
  length-keep-split (λ m. contains m ids) (effective_models c),
)
