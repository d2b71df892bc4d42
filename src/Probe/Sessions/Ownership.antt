-- ===== src/Probe/Sessions/Ownership.antt =====
-- Who owns the scanner of 9router_WatchEdit/core/probe.py, in any order of its threads' calls.
use router_extra.Prelude.{
  ℕ, suc, ◌≤◌, ◌≡◌, ◌≢◌, ◌↔◌, refl, sym, subst, ◌∙◌, Bool, true, false, not, ◌||◌, Option, none,
  some, List, [], ◌∷◌, arith, ◌==◌, is_none, holds_num, Bool-cases, inl, inr,
}
use router_extra.Probe.Sessions.{
  Scanner, boot, try_claim, create_execution, register_execution, release_session,
  is_latest_session,
}
use router_extra.Probe.Sessions.Calls.{
  Call, call, run_calls, give_back, claim_over, claim_execution,
}
use router_extra.Probe.Sessions.Numbers.{
  IsOwned, Moved, kept, claimed, released, call-Moved, run-IsOwned,
}

boot-IsOwned : IsOwned boot
unfolding boot
boot-IsOwned = record { latest = refl; active = λ k e. absurd cc }

owned-latest :
    (s : Scanner) (id other : ℕ)
    → IsOwned s
    → s.active_session ≡ some id
    → holds_num s.latest_session other ≡ id == other
owned-latest s id other h e = ground (arith, h.latest, h.active id e)

-- A session that will not own the scanner any more.
record IsGone (id : ℕ) (s : Scanner) : Type 0 where
  inactive : s.active_session ≢ some id
  past : id ≤ s.session_counter

Moved-IsGone : {s t : Scanner} (id : ℕ) → Moved s t → IsGone id s → IsGone id t
Moved-IsGone id (kept a b c) h = record {
  inactive = λ e. h.inactive (sym c ∙ e);
  past = omega (arith, h.past);
}
Moved-IsGone id (claimed z a b c) h = record {
  inactive = λ e. let p = h.past in ground arith;
  past = omega (arith, h.past);
}
Moved-IsGone id (released a b c) h = record {
  inactive = λ e. ground arith;
  past = omega (arith, h.past);
}

run-IsGone : (cs : List Call) (id : ℕ) (s : Scanner) → IsGone id s → IsGone id (run_calls cs s)
unfolding run_calls
run-IsGone [] id s h = h
run-IsGone (c ∷ cs) id s h = run-IsGone cs id (call c s) (Moved-IsGone id (call-Moved c s) h)

holds_some : (o : Option ℕ) (n : ℕ) → (holds_num o n ≡ true) ↔ (o ≡ some n)
holds_some none n = ground arith
holds_some (some m) n = ground arith

release-IsGone :
    (id : ℕ) (s : Scanner)
    → IsOwned s
    → (release_session id s).1 ≡ true
    → IsGone id (release_session id s).0
unfolding release_session
release-IsGone id s h e = elim (Bool-cases (holds_num s.active_session id)) [
  | inl t ↦
      let (f, g) = h.active id ((holds_some s.active_session id).0 t) in
      rw (t, release_session) (record { inactive = λ z. cc; past = omega arith })
  | inr t ↦ let fails : (release_session id s).1 ≡ false = rw (t, release_session) refl in absurd cc
]

gone-release : (id : ℕ) (s : Scanner) → IsGone id s → (release_session id s).1 ≡ false
unfolding release_session
gone-release id s h = elim (Bool-cases (holds_num s.active_session id)) [
  | inl t ↦ absurd (h.inactive ((holds_some s.active_session id).0 t))
  | inr t ↦ rw (t, release_session) refl
]

gone-claim : (id : ℕ) (s : Scanner) → IsGone id s → (try_claim s).1 ≢ some id
unfolding try_claim
gone-claim id s h e = let p = h.past in ground arith

-- In any order of calls since the start, the session that executes, if there is one, is the latest
-- one claimed, so that its callbacks are accepted and those of every other session are not.
pub active_is_latest :
    (cs : List Call) (id other : ℕ)
    → (run_calls cs boot).active_session ≡ some id
    → is_latest_session (some other) (run_calls cs boot) ≡ id == other
unfolding is_latest_session
active_is_latest cs id other e =
    owned-latest (run_calls cs boot) id other (run-IsOwned cs boot boot-IsOwned) e

-- A session that was released is never released again: in any order of calls before and after, no
-- second `release_session` of its id returns True, and no session claimed later has its id.
pub released_once :
    (before after : List Call) (id : ℕ)
    → (release_session id (run_calls before boot)).1 ≡ true
    → let t = run_calls after (release_session id (run_calls before boot)).0 in
      ((release_session id t).1 ≡ false) × ((try_claim t).1 ≢ some id)
released_once before after id e =
    let s = run_calls before boot in
    let g =
      run-IsGone after id (release_session id s).0
        (release-IsGone id s (run-IsOwned before boot boot-IsOwned) e) in
    (
      gone-release id (run_calls after (release_session id s).0) g,
      gone-claim id (run_calls after (release_session id s).0) g,
    )

released-inactive : (id : ℕ) (s : Scanner) → (release_session id s).0.active_session ≢ some id
unfolding release_session
released-inactive id s e = elim (Bool-cases (holds_num s.active_session id)) [
  | inl t ↦
      let none_left : (release_session id s).0.active_session ≡ none =
        rw (t, release_session) refl in
      cc
  | inr t ↦
      let same : (release_session id s).0.active_session ≡ s.active_session =
        rw (t, release_session) refl in
      let held = (holds_some s.active_session id).1 (sym same ∙ e) in cc
]

given_back :
    (id h : ℕ) (p : Scanner × Bool)
    → (give_back id h p).1 ≡ none
    → (give_back id h p).0.active_session ≢ some id
unfolding give_back
given_back id h (s, true) e = absurd cc
given_back id h (s, false) e = released-inactive id s

claim_over-none :
    (others : List Call) (s : Scanner) (o : Option ℕ) (id : ℕ)
    → (o ≡ none → s.active_session ≢ some id)
    → ((n : ℕ) → o ≡ some n → n ≡ id)
    → (claim_over others (s, o)).1 ≡ none
    → (claim_over others (s, o)).0.active_session ≢ some id
unfolding claim_over
claim_over-none others s none id h k e = h refl
claim_over-none others s (some n) id h k e =
    let (t, made) = create_execution n (run_calls others s) in
    subst (λ m. (give_back n made (register_execution made t)).0.active_session ≢ some m) (k n refl)
      (given_back n made (register_execution made t) e)

fresh :
    (s : Scanner)
    → IsOwned s
    → ((try_claim s).1 ≡ none → (try_claim s).0.active_session ≢ some (suc s.session_counter))
      × ((n : ℕ) → (try_claim s).1 ≡ some n → n ≡ suc s.session_counter)
unfolding try_claim
fresh s h = elim (Bool-cases (s.closing || not (is_none s.active_session))) [
  | inl t ↦
      rw (t, try_claim)
        ((λ e f. let (g, z) = h.active (suc s.session_counter) f in omega arith), λ n e. absurd cc)
  | inr t ↦ rw (t, try_claim) ((λ e. absurd cc), λ n e. ground arith)
]

-- A `claim_execution` that returns None leaves no session active that it claimed: one that it had
-- claimed before the controller closed, or that others released or replaced, is given back.
pub claim_gives_back :
    (before others : List Call)
    → (claim_execution others (run_calls before boot)).1 ≡ none
    → (claim_execution others (run_calls before boot)).0.active_session
      ≢ some (suc (run_calls before boot).session_counter)
unfolding claim_execution
claim_gives_back before others e =
    let s = run_calls before boot in
    let (f, g) = fresh s (run-IsOwned before boot boot-IsOwned) in
    claim_over-none others (try_claim s).0 (try_claim s).1 (suc s.session_counter) f g e
