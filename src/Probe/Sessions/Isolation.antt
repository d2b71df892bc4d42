-- ===== src/Probe/Sessions/Isolation.antt =====
-- What a cancel of one session of 9router_WatchEdit/core/probe.py reaches, whatever its threads do meanwhile.
use router_extra.Prelude.{
  ℕ, ◌≡◌, ◌≢◌, ◌⊎◌, refl, sym, ap, ◌∙◌, true, false, not, ◌||◌, Option, none, some, List, [], ◌∷◌,
  arith, ◌==◌, holds_num, Bool-cases, inl, inr,
}
use router_extra.Probe.Sessions.{
  Execution, Scanner, boot, new_execution, nth, entry, without_entry, try_claim, create_execution,
  register_over, register_execution, accept_over, accept_cancel, execution_for, bind_thread,
  release_session, release_handle, request_cancel, close, change_context, cancel_execution,
  release_execution,
}
use router_extra.Probe.Sessions.Calls.{
  Call, claims, closes, creates, registers, marks, drops, releases, requests, binds, accepts, loops,
  works, call, run_calls, cancel, cancel_found, bind_loop, bind_tasks,
}
use router_extra.Probe.Sessions.Contexts.{
  session_of, nth-update, session_of-update, session_of-append, entry-without,
}

-- Every context that a session is registered with is that session's.
abbrev IsNamed : Scanner → Type 0
IsNamed s = (id h : ℕ) → entry id s.executions ≡ some h → session_of (nth h s.contexts) ≡ some id

-- A call keeps the session of every context, and registers only contexts under their session.
record Names (s t : Scanner) : Type 0 where
  keeps :
      (k a : ℕ) → session_of (nth k s.contexts) ≡ some a → session_of (nth k t.contexts) ≡ some a
  named :
      (id h : ℕ)
      → entry id t.executions ≡ some h
      → (entry id s.executions ≡ some h) ⊎ (session_of (nth h t.contexts) ≡ some id)

changed :
    (h : ℕ) (f : Execution → Execution) (s : Scanner)
    → ((x : Execution) → (f x).session_id ≡ x.session_id)
    → Names s (change_context h f s)
unfolding change_context
changed h f s e = record {
  keeps = λ k a z. session_of-update k h f s.contexts e ∙ z;
  named = λ id k z. inl z;
}

same_contexts : (s t : Scanner) → t.contexts ≡ s.contexts → t.executions ≡ s.executions → Names s t
same_contexts s t c e = record {
  keeps = λ k a z. ap (λ xs. session_of (nth k xs)) c ∙ z;
  named = λ id h z. inl (ap (entry id) (sym e) ∙ z);
}

registered :
    (id k h : ℕ) (m : List (ℕ × ℕ)) (xs : List Execution) (x : Execution)
    → nth h xs ≡ some x
    → entry id ((x.session_id, h) ∷ without_entry x.session_id m) ≡ some k
    → (entry id m ≡ some k) ⊎ (session_of (nth k xs) ≡ some id)
unfolding entry
registered id k h m xs x e z = elim (Bool-cases (x.session_id == id)) [
  | inl t ↦ inr (let same : k ≡ h = ground arith in rw same (rw e (ap some (ground arith))))
  | inr t ↦ inl (ground (arith, entry-without id x.session_id m))
]

register-Names :
    (h : ℕ) (o : Option Execution) (s : Scanner)
    → nth h s.contexts ≡ o
    → Names s (register_over h o s).0
unfolding register_over
register-Names h none s e = same_contexts s s refl refl
register-Names h (some x) s e =
    elim (Bool-cases (s.closing || not (holds_num s.active_session x.session_id))) [
      | inl t ↦ rw t (same_contexts s s refl refl)
      | inr t ↦ rw t (record {
        keeps = λ k a z. z;
        named = λ id k z. registered id k h s.executions s.contexts x e z;
      })
    ]

same_session : (x : Execution) → (release_execution x).session_id ≡ x.session_id
unfolding release_execution
same_session x = ground arith

released_handle :
    (k a : ℕ) (o : Option ℕ) (xs : List Execution)
    → session_of (nth k xs) ≡ some a
    → session_of (nth k (release_handle o xs)) ≡ some a
unfolding release_handle
released_handle k a none xs z = z
released_handle k a (some h) xs z = session_of-update k h release_execution xs same_session ∙ z

release-Names : (id : ℕ) (s : Scanner) → Names s (release_session id s).0
unfolding release_session
release-Names id s = elim (Bool-cases (holds_num s.active_session id)) [
  | inl t ↦
      rw (t, release_session)
        (record {
          keeps = λ k a z. released_handle k a (execution_for id s) s.contexts z;
          named = λ k h z. inl (ground (arith, entry-without k id s.executions));
        })
  | inr t ↦ rw (t, release_session) (same_contexts s s refl refl)
]

claim-Names : (s : Scanner) → Names s (try_claim s).0
unfolding try_claim
claim-Names s = same_contexts s (try_claim s).0 (ground arith) (ground arith)

accept-contexts :
    (o request : Option ℕ) (s : Scanner)
    → ((accept_over o request s).0.contexts ≡ s.contexts)
      × ((accept_over o request s).0.executions ≡ s.executions)
unfolding accept_over
accept-contexts none request s = (refl, refl)
accept-contexts (some a) request s = (ground arith, ground arith)

call-Names : (c : Call) (s : Scanner) → Names s (call c s)
unfolding call close create_execution register_execution accept_cancel bind_thread request_cancel
    cancel_execution bind_loop bind_tasks
call-Names claims s = claim-Names s
call-Names closes s = same_contexts s (close s) refl refl
call-Names (creates id) s = record {
  keeps = λ k a z. session_of-append k a s.contexts (new_execution id ∷ []) z;
  named = λ j h z. inl z;
}
call-Names (registers h) s = register-Names h (nth h s.contexts) s refl
call-Names (marks h) s = changed h cancel_execution s (λ x. refl)
call-Names (drops h) s = changed h release_execution s same_session
call-Names (releases id) s = release-Names id s
call-Names (requests id) s = same_contexts s (request_cancel id s).0 (ground arith) (ground arith)
call-Names (binds t) s = same_contexts s (bind_thread t s).0 (ground arith) (ground arith)
call-Names (accepts request) s =
    let (a, b) = accept-contexts s.active_session request s in
    same_contexts s (accept_cancel request s).0 a b
call-Names (loops h running) s = changed h (bind_loop running) s (λ x. refl)
call-Names (works h ts) s = changed h (bind_tasks ts) s (λ x. refl)

Names-IsNamed : {s t : Scanner} → Names s t → IsNamed s → IsNamed t
Names-IsNamed n h id k e = elim (n.named id k e) [ inl f ↦ n.keeps k id (h id k f) | inr f ↦ f ]

run-IsNamed : (cs : List Call) (s : Scanner) → IsNamed s → IsNamed (run_calls cs s)
unfolding run_calls
run-IsNamed [] s h = h
run-IsNamed (c ∷ cs) s h =
    run-IsNamed cs (call c s) (Names-IsNamed {s = s} {t = call c s} (call-Names c s) h)

run-keeps :
    (cs : List Call) (s : Scanner) (k a : ℕ)
    → session_of (nth k s.contexts) ≡ some a
    → session_of (nth k (run_calls cs s).contexts) ≡ some a
unfolding run_calls
run-keeps [] s k a z = z
run-keeps (c ∷ cs) s k a z = run-keeps cs (call c s) k a ((call-Names c s).keeps k a z)

boot-IsNamed : IsNamed boot
unfolding boot entry
boot-IsNamed id h e = cc

found-untouched :
    (o : Option ℕ) (t : Scanner) (k a : ℕ) (x : Execution)
    → ((h : ℕ) → o ≡ some h → session_of (nth h t.contexts) ≡ some a)
    → nth k t.contexts ≡ some x
    → x.session_id ≢ a
    → nth k (cancel_found o t).contexts ≡ some x
unfolding cancel_found change_context
found-untouched none t k a x n e d = e
found-untouched (some h) t k a x n e d =
    nth-update k h cancel_execution t.contexts (λ p. d (apart p)) ∙ e
  where
    apart : k ≡ h → x.session_id ≡ a
    apart p =
        let own = n h refl in
        let here = ap session_of (ap (λ j. nth j t.contexts) (sym p) ∙ e) in cc

accept-found :
    (a h : ℕ) (request : Option ℕ) (s : Scanner)
    → (accept_over (some a) request s).2 ≡ some h
    → entry a s.executions ≡ some h
unfolding accept_over execution_for
accept-found a h request s e = ground arith

cancel-accepted :
    (request : Option ℕ) (others : List Call) (s : Scanner)
    → (cancel request others s).1 ≡ true
    → (cancel request others s).0
      ≡ cancel_found (accept_cancel request s).2 (run_calls others (accept_cancel request s).0)
unfolding cancel
cancel-accepted request others s e = elim (Bool-cases (accept_cancel request s).1) [
  | inl t ↦ rw (t, cancel) refl
  | inr t ↦ let fails : (cancel request others s).1 ≡ false = rw (t, cancel) refl in absurd cc
]

found-named :
    (request : Option ℕ) (others : List Call) (s : Scanner) (a h : ℕ)
    → IsNamed s
    → s.active_session ≡ some a
    → (accept_cancel request s).2 ≡ some h
    → session_of (nth h (run_calls others (accept_cancel request s).0).contexts) ≡ some a
unfolding accept_cancel
found-named request others s a h n e f =
    run-keeps others (accept_over s.active_session request s).0 h a (
      ap (λ xs. session_of (nth h xs)) (accept-contexts s.active_session request s).0
      ∙ n a h (accept-found a h request s (ap (λ o. (accept_over o request s).2) (sym e) ∙ f)))

-- The state in which an accepted cancel acts.
abbrev pub at_cancel : Option ℕ → List Call → Scanner → Scanner
at_cancel request others s = run_calls others (accept_cancel request s).0

-- An accepted cancel changes no context of another session than the one that was active when it
-- was accepted, whatever calls came before, and whatever others do between the acceptance and the
-- change: release that session, claim the next one, start it.
pub cancel_isolated :
    (before others : List Call) (request : Option ℕ) (active k : ℕ) (x : Execution)
    → (run_calls before boot).active_session ≡ some active
    → (cancel request others (run_calls before boot)).1 ≡ true
    → nth k (at_cancel request others (run_calls before boot)).contexts ≡ some x
    → x.session_id ≢ active
    → nth k (cancel request others (run_calls before boot)).0.contexts ≡ some x
cancel_isolated before others request active k x a ok e d =
    let s = run_calls before boot in
    ap (λ (t : Scanner). nth k t.contexts) (cancel-accepted request others s ok)
    ∙ found-untouched (accept_cancel request s).2 (at_cancel request others s) k active x
        (λ h. found-named request others s active h (run-IsNamed before boot boot-IsNamed) a) e d
