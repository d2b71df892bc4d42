-- ===== src/Probe/Sessions/Numbers.antt =====
-- The session numbers of 9router_WatchEdit/core/probe.py under any call.
use router_extra.Prelude.{
  ℕ, suc, ◌≤◌, ◌<◌, ◌≡◌, refl, sym, ◌∙◌, not, ◌||◌, Option, none, some, List, [], ◌∷◌, arith, ◌==◌,
  is_none, holds_num, if◌then◌else◌, Bool-cases, inl, inr,
}
use router_extra.Probe.Sessions.{
  Execution, Scanner, nth, try_claim, create_execution, register_over, register_execution,
  accept_over, accept_cancel, bind_thread, release_session, request_cancel, close, change_context,
}
use router_extra.Probe.Sessions.Calls.{
  Call, claims, closes, creates, registers, marks, drops, releases, requests, binds, accepts, loops,
  works, call, run_calls,
}

-- The latest session is the newest claimed, and the active one, if there is one, is the latest.
pub record IsOwned (s : Scanner) : Type 0 where
  pub latest : s.latest_session ≡ (if s.session_counter == 0 then none else some s.session_counter)
  pub active : (a : ℕ) → s.active_session ≡ some a → (a ≡ s.session_counter) × (0 < a)

register_over-parts :
    (h : ℕ) (o : Option Execution) (s : Scanner)
    → ((register_over h o s).0.session_counter ≡ s.session_counter)
      × ((register_over h o s).0.latest_session ≡ s.latest_session)
      × ((register_over h o s).0.active_session ≡ s.active_session)
unfolding register_over
register_over-parts h none s = (refl, refl, refl)
register_over-parts h (some x) s = ground arith

accept_over-parts :
    (o request : Option ℕ) (s : Scanner)
    → ((accept_over o request s).0.session_counter ≡ s.session_counter)
      × ((accept_over o request s).0.latest_session ≡ s.latest_session)
      × ((accept_over o request s).0.active_session ≡ s.active_session)
unfolding accept_over
accept_over-parts none request s = (refl, refl, refl)
accept_over-parts (some a) request s = ground arith

-- What a call does to the numbers: it leaves them, claims the next session where none is active, or
-- releases the active one.
pub data Moved (s t : Scanner) : Type 0 where
  kept :
      t.session_counter ≡ s.session_counter
      → t.latest_session ≡ s.latest_session
      → t.active_session ≡ s.active_session
      → Moved s t
  claimed :
      s.active_session ≡ none
      → t.session_counter ≡ suc s.session_counter
      → t.latest_session ≡ some (suc s.session_counter)
      → t.active_session ≡ some (suc s.session_counter)
      → Moved s t
  released :
      t.session_counter ≡ s.session_counter
      → t.latest_session ≡ s.latest_session
      → t.active_session ≡ none
      → Moved s t

claim-Moved : (s : Scanner) → Moved s (try_claim s).0
unfolding try_claim
claim-Moved s = elim (Bool-cases (s.closing || not (is_none s.active_session))) [
  | inl e ↦ rw (e, try_claim) (kept refl refl refl)
  | inr e ↦ rw (e, try_claim) (claimed (ground arith) refl refl refl)
]

release-Moved : (id : ℕ) (s : Scanner) → Moved s (release_session id s).0
unfolding release_session
release-Moved id s = elim (Bool-cases (holds_num s.active_session id)) [
  | inl e ↦ rw (e, release_session) (released refl refl refl)
  | inr e ↦ rw (e, release_session) (kept refl refl refl)
]

pub call-Moved : (c : Call) (s : Scanner) → Moved s (call c s)
unfolding call close create_execution register_execution accept_cancel bind_thread request_cancel
    change_context
call-Moved claims s = claim-Moved s
call-Moved closes s = kept refl refl refl
call-Moved (creates id) s = kept refl refl refl
call-Moved (registers h) s =
    let (a, b, c) = register_over-parts h (nth h s.contexts) s in kept a b c
call-Moved (marks h) s = kept refl refl refl
call-Moved (drops h) s = kept refl refl refl
call-Moved (releases id) s = release-Moved id s
call-Moved (requests id) s = kept (ground arith) (ground arith) (ground arith)
call-Moved (binds t) s = kept (ground arith) (ground arith) (ground arith)
call-Moved (accepts request) s =
    let (a, b, c) = accept_over-parts s.active_session request s in kept a b c
call-Moved (loops h running) s = kept refl refl refl
call-Moved (works h ts) s = kept refl refl refl

Moved-IsOwned : {s t : Scanner} → Moved s t → IsOwned s → IsOwned t
Moved-IsOwned (kept a b c) h = record {
  latest = ground (arith, h.latest);
  active = λ k e. let (f, g) = h.active k (sym c ∙ e) in (f ∙ sym a, g);
}
Moved-IsOwned (claimed z a b c) h = record {
  latest = ground arith;
  active = λ k e. (ground arith, ground arith);
}
Moved-IsOwned (released a b c) h = record {
  latest = ground (arith, h.latest);
  active = λ k e. (ground arith, ground arith);
}

pub run-IsOwned : (cs : List Call) (s : Scanner) → IsOwned s → IsOwned (run_calls cs s)
unfolding run_calls
run-IsOwned [] s h = h
run-IsOwned (c ∷ cs) s h = run-IsOwned cs (call c s) (Moved-IsOwned (call-Moved c s) h)

Moved-le : {s t : Scanner} → Moved s t → s.session_counter ≤ t.session_counter
Moved-le (kept a b c) = omega arith
Moved-le (claimed z a b c) = omega arith
Moved-le (released a b c) = omega arith

run-le : (cs : List Call) (s : Scanner) → s.session_counter ≤ (run_calls cs s).session_counter
unfolding run_calls
run-le [] s = omega arith
run-le (c ∷ cs) s = omega (arith, Moved-le (call-Moved c s), run-le cs (call c s))
