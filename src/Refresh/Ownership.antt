-- ===== src/Refresh/Ownership.antt =====
-- Who owns a pass: an invariant of every interleaving of the threads of `Refresh.Flow`.
use router_extra.Prelude.{
  Pick, ℕ, ◌+◌, ◌≤◌, ◌≡◌, ◌⊎◌, Bool, true, false, Option, none, some, List, [], ◌∷◌, arith,
  if◌then◌else◌,
}
use router_extra.Refresh.{
  Controller, new, next_generation, begin_refresh, finish_pass, claim_follow_up, release_unclaimed,
  begin_worker, close, record_published,
}
use router_extra.Refresh.Flow.{
  Thread, spawned, working, handing, leaving, System, boot, request, enter, finish, claim, leave,
  accept, Step, asks, enters, finishes, claims, leaves, accepts, fails, numbers, closes, Reach,
  stay, next, count_busy, AllOwn, count_busy-Pick, AllOwn-Pick, AllOwn-idle,
}

abbrev pub IsAt : Option ℕ → ℕ → Type 0
IsAt none n = Unit {0}
IsAt (some p) n = p ≡ n

abbrev pub passes : Bool → ℕ
passes b = if b then 1 else 0

-- The controller's own part: a reservation needs a running pass and stands for the newest request,
-- and what is active with no reservation behind it is the newest request.
pub record IsCurrent (c : Controller) : Type 0 where
  pub reserved : c.running ≡ false → c.pending ≡ none
  pub newest_pending : IsAt c.pending c.latest_requested
  pub newest_active : c.closing ≡ false → c.pending ≡ none → IsAt c.active c.latest_requested
  pub numbered : c.latest_requested ≤ c.counter

pub record IsOwned (s : System) : Type 0 where
  pub current : IsCurrent s.controller
  pub single : count_busy s.threads ≡ passes s.controller.running
  pub owned : AllOwn s.controller.active s.threads

pub boot-IsOwned : IsOwned boot
unfolding boot new
boot-IsOwned = ground arith

request-IsOwned : (sync : Bool) (s : System) → IsOwned s → IsOwned (request sync s)
unfolding request begin_refresh
request-IsOwned sync s h = ground (arith, AllOwn-idle (some (s.controller.counter + 1)) s.threads)

module _ {s : System} {rest : List Thread} (h : IsOwned s) where
  open s use {controller, threads}

  enter-IsOwned : (g : ℕ) → Pick (spawned g) threads rest → IsOwned (enter g rest s)
  unfolding enter begin_worker
  enter-IsOwned g p =
      ground
        (arith, count_busy-Pick p, AllOwn-Pick controller.active p h.owned, AllOwn-idle none rest)

  finish-IsOwned :
      (g : ℕ) (spawn : Bool) → Pick (working g) threads rest → IsOwned (finish g spawn rest s)
  unfolding finish finish_pass
  finish-IsOwned g spawn p = ground (
    arith,
    count_busy-Pick p,
    AllOwn-Pick controller.active p h.owned,
    AllOwn-idle none rest,
    AllOwn-idle controller.pending rest,
  )

  claim-IsOwned : (f : ℕ) → Pick (handing f) threads rest → IsOwned (claim f rest s)
  unfolding claim claim_follow_up
  claim-IsOwned f p = ground (arith, count_busy-Pick p, AllOwn-Pick controller.active p h.owned)

  leave-IsOwned : (f : ℕ) → Pick (leaving f) threads rest → IsOwned (leave f rest s)
  unfolding leave release_unclaimed
  leave-IsOwned f p =
      ground
        (arith, count_busy-Pick p, AllOwn-Pick controller.active p h.owned, AllOwn-idle none rest)

record_published-IsOwned :
    (g : ℕ) (s : System)
    → IsOwned s
    → IsOwned (record s { controller = record_published g s.controller })
unfolding record_published
record_published-IsOwned g s h = ground arith

accept-IsOwned : (g : ℕ) (s : System) → IsOwned s → IsOwned (accept g s)
unfolding accept record_published
accept-IsOwned g s h = ground arith

Step-IsOwned : {s t : System} → Step s t → IsOwned s → IsOwned t
unfolding next_generation close
Step-IsOwned (asks sync s) h = request-IsOwned sync s h
Step-IsOwned (enters g rest s p) h = enter-IsOwned h g p
Step-IsOwned (finishes g spawn rest s p) h = finish-IsOwned h g spawn p
Step-IsOwned (claims f rest s p) h = claim-IsOwned h f p
Step-IsOwned (leaves f rest s p) h = leave-IsOwned h f p
Step-IsOwned (accepts g s) h = accept-IsOwned g s h
Step-IsOwned (fails g s e) h = record_published-IsOwned g s h
Step-IsOwned (numbers s) h = ground arith
Step-IsOwned (closes s) h = ground arith

pub Reach-IsOwned : {s t : System} → IsOwned s → Reach s t → IsOwned t
Reach-IsOwned h stay = h
Reach-IsOwned h (next r st) = Step-IsOwned st (Reach-IsOwned h r)

busy_owner :
    (a : Option ℕ) (ts : List Thread) → count_busy ts ≡ 1 → AllOwn a ts → (g : ℕ) × (a ≡ some g)
busy_owner a [] n h = absurd (omega arith)
busy_owner a (spawned g ∷ ts) n h = (g, h.0)
busy_owner a (working g ∷ ts) n h = (g, h.0)
busy_owner a (handing g ∷ ts) n h = busy_owner a ts (omega arith) h.1
busy_owner a (leaving g ∷ ts) n h = busy_owner a ts (omega arith) h.1

-- While a pass runs and the window is open, the newest requested generation is reserved as the
-- follow-up, or nothing is reserved and it is the one that runs.
pub newest_served :
    {s : System}
    → Reach boot s
    → s.controller.closing ≡ false
    → s.controller.running ≡ true
    → let c = s.controller in
      (c.pending ≡ some c.latest_requested)
      ⊎ ((c.pending ≡ none) × (c.active ≡ some c.latest_requested))
newest_served {s} r o run =
    let h = Reach-IsOwned boot-IsOwned r in
    ground (arith, h.current, h.single, busy_owner s.controller.active s.threads, h.owned)
