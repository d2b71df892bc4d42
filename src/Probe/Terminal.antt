-- ===== src/Probe/Terminal.antt =====
-- How a scan of 9router_WatchEdit/core/probe.py ends and how often it saves: `_execute_session` and the
-- checkpoints of `_run_async`. The texts of the reasons are values; a callback's older signatures
-- are left out.
use Prim.Native.Nat.{◌%◌, ◌/◌}
use native.Mathlib.Nat.{
  mod-lt, mod-add-mod, mod-eq_of_lt, mod-eq-sub-mod, add-zero, le_of_mul-le-mul_right,
}
use router_extra.Prelude.{
  ℕ, zero, suc, ◌+◌, ◌-◌, ◌*◌, ◌≤◌, ◌<◌, String, ◌≡◌, ◌↔◌, ◌⊎◌, ltb, sym, ap, ◌∙◌, Bool, false,
  Option, none, some, List, [], ◌∷◌, ◌++◌, arith, ◌==◌, max, if◌then◌else◌, Bool-cases, inl, inr,
}

-- How `_run_async` ends: it returns, is cancelled, or raises an error of a redacted text.
pub data RunEnd : Type 0 where
  returns cancels : RunEnd
  raises : String → RunEnd

pub data Status : Type 0 where
  completed cancelled locked failed persistence_failed : Status

pub data Reason : Type 0 where
  scanner_failed not_persisted : String → Reason
  failed_and_not_persisted : (error save : String) → Reason

pub data Callback : Type 0 where
  scan_failed : Reason → Callback
  scan_completed : Status → Callback

unfoldable pub stopped : Bool → Status
stopped is_locked = if is_locked then locked else cancelled

unfoldable pub ended : RunEnd → Bool → Bool → Status
unfolding stopped
ended returns was_cancelled is_locked = if was_cancelled then stopped is_locked else completed
ended cancels was_cancelled is_locked = stopped is_locked
ended (raises error) was_cancelled is_locked = failed

-- `persistence_failure or pending_failure`, which a verified save makes None.
unfoldable pub save_failure : Option String → Option String → Option String
save_failure none pending = none
save_failure (some failure) pending = some failure

unfoldable pub terminal_status : Status → Option String → Status
terminal_status completed (some failure) = persistence_failed
terminal_status status failure = status

unfoldable pub error_of : RunEnd → String
error_of (raises error) = error
error_of run_end = ""

unfoldable pub failure_callback : Status → String → Option String → List Callback
failure_callback completed error (some failure) = scan_failed (not_persisted failure) ∷ []
failure_callback failed error none = scan_failed (scanner_failed error) ∷ []
failure_callback failed error (some failure) =
    scan_failed (failed_and_not_persisted error failure) ∷ []
failure_callback status error failure = []

-- The status and the callbacks, in order. `save`: the failure of the one terminal save; `pending`:
-- that of the last save during the scan.
unfoldable pub execute_session :
    RunEnd → Bool → Bool → Option String → Option String → Status × List Callback
unfolding ended save_failure terminal_status error_of failure_callback
execute_session run_end was_cancelled is_locked save pending =
    let status =
      terminal_status (ended run_end was_cancelled is_locked) (save_failure save pending) in
    (
      status,
      failure_callback (ended run_end was_cancelled is_locked) (error_of run_end)
            (save_failure save pending)
          ++ scan_completed status ∷ [],
    )

-- A scan is COMPLETED exactly if its run returned, was not cancelled, and its terminal save
-- succeeded, whichever saves before that failed.
pub completed_iff :
    (run_end : RunEnd) (was_cancelled is_locked : Bool) (save pending : Option String)
    → ((execute_session run_end was_cancelled is_locked save pending).0 ≡ completed)
      ↔ ((run_end ≡ returns) × (was_cancelled ≡ false) × (save ≡ none))
unfolding execute_session ended save_failure terminal_status stopped
completed_iff run_end was_cancelled is_locked save pending = ground arith

-- `_checkpoint_interval`
unfoldable pub checkpoint_interval : ℕ → ℕ
checkpoint_interval total = max 10 ((total + 20 - 1) / 20)

-- The saves during a scan of which `n` models are completed.
unfoldable pub checkpoints : ℕ → ℕ → ℕ
checkpoints interval zero = 0
checkpoints interval (suc n) = checkpoints interval n + (if suc n % interval == 0 then 1 else 0)

interval_positive : (total : ℕ) → 0 < checkpoint_interval total
unfolding checkpoint_interval
interval_positive total = omega arith

next_mod : (i n : ℕ) → 0 < i → ((suc n % i ≡ 0) × (n % i + 1 ≡ i)) ⊎ (suc n % i ≡ suc (n % i))
next_mod i n h =
    let wrap : (n % i + 1) % i ≡ suc n % i = mod-add-mod n i 1 ∙ ap (λ k. k % i) (omega arith) in
    let small = mod-lt n h in
    elim (Bool-cases (ltb (n % i + 1) i)) [
      | inl t ↦ inr (sym wrap ∙ mod-eq_of_lt (ground arith) ∙ omega arith)
      | inr t ↦
          let e : n % i + 1 ≡ i = ground arith in
          inl (
            sym wrap
                ∙ ap (λ k. k % i) e
                ∙ mod-eq-sub-mod {n = i} {m = i} (omega arith)
                ∙ ap (λ k. k % i) (omega arith)
                ∙ mod-eq_of_lt h,
            e,
          )
    ]

one_more : (c i : ℕ) → (c + 1) * i ≡ c * i + i
one_more c i = omega arith

between : (k : ℕ) → ◌≡◌ {A = ℕ} (if suc k == 0 then 1 else 0) 0
between k = ground arith

checkpoints_lem : (i n : ℕ) → 0 < i → checkpoints i n * i + n % i ≡ n
unfolding checkpoints
checkpoints_lem i zero h = omega (arith, mod-eq_of_lt h)
checkpoints_lem i (suc n) h =
    let c = checkpoints i n in
    let before = checkpoints_lem i n h in
    elim (next_mod i n h) [
      | inl (e, f) ↦ rw e (omega (arith, before, one_more c i))
      | inr e ↦ rw e (
          omega (
            arith,
            before,
            ap (λ (k : ℕ). (c + k) * i) (between (n % i)),
            ap (λ (k : ℕ). k * i) (add-zero c),
          ))
    ]

interval_covers : (total : ℕ) → total ≤ 20 * checkpoint_interval total
unfolding checkpoint_interval
interval_covers total = omega arith

-- A scan saves at most twenty times before its terminal save, however many models it has and
-- however many of them are completed.
pub checkpoint_bound :
    (total completed_count : ℕ)
    → completed_count ≤ total
    → checkpoints (checkpoint_interval total) completed_count ≤ 20
checkpoint_bound total n h =
    le_of_mul-le-mul_right {k = checkpoint_interval total}
      (omega (
        arith,
        checkpoints_lem (checkpoint_interval total) n (interval_positive total),
        interval_covers total,
      ))
      (interval_positive total)
