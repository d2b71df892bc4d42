-- ===== src/Probe/Scheduler/Launches.antt =====
-- A model that the scheduling loop of 9router_WatchEdit/core/probe.py starts or parks.
use router_extra.Prelude.{
  ℕ, suc, ◌+◌, ◌≤◌, ◌<◌, String, ◌≡◌, refl, ap, Bool, true, false, Option, none, some, List, [],
  ◌∷◌, ◌++◌, arith, str_eq, eq_iff, leb, if◌then◌else◌, length, length-append, put, get-put,
  Bool-cases, inl, inr,
}
use router_extra.Probe.Scheduler.{
  DiscoveredModel, Delayed, Task, Plan, or_default, heappush, park, launch, provider_resume_at,
}
use router_extra.Probe.Scheduler.Invariant.{IsSound, held, tasks_of, sum_of-append, sum_of-heappush}

-- What a computation that must not raise returns.
abbrev pub Returns {ℓ} : {A : Type ℓ} → (A → Type 0) → Option A → Type 0
Returns P none = ⊥
Returns P (some a) = P a

-- The models that hold a task or a place on the heap.
abbrev pub load : Plan → ℕ
load p = length p.tasks + length p.delayed

abbrev pub one : Bool → ℕ
one true = 1
one false = 0

length-heappush : (d : Delayed) (heap : List Delayed) → length (heappush d heap) ≡ suc (length heap)
unfolding heappush
length-heappush d [] = refl
length-heappush d (e ∷ heap) = ground (arith, length-heappush d heap)

pub record Launched (per : ℕ) (m : DiscoveredModel) (q r : Plan) (b : Bool) : Type 0 where
  pub sound : IsSound r
  pub holds : (f : DiscoveredModel → ℕ) → held f r ≡ held f q + f m
  pub conns : r.active_conns ≡ q.active_conns
  pub grows : load r ≡ suc (load q)
  pub started : length r.tasks ≡ length q.tasks + one b
  pub bounded : ((k : String) → tasks_of k q.tasks ≤ per) → (k : String) → tasks_of k r.tasks ≤ per

parked :
    (per at : ℕ) (c : String) (m : DiscoveredModel) (q : Plan)
    → IsSound q
    → Launched per m q (park at c m q) false
unfolding park
parked per at c m q s =
    let d : Delayed = record { resume_at = at; seq = q.delay_seq; conn = c; model = m } in
    record {
      sound = record { same = s.same; distinct = s.distinct; filled = s.filled; flying = s.flying };
      holds = λ f. omega (arith, sum_of-heappush (λ e. f e.model) d q.delayed);
      conns = refl;
      grows = omega (arith, length-heappush d q.delayed);
      started = omega arith;
      bounded = λ h. h;
    }

tasks_of-append :
    (k c : String) (m : DiscoveredModel) (ts : List Task)
    → tasks_of k (ts ++ record { conn = c; model = m } ∷ [])
      ≡ tasks_of k ts + (if str_eq c k then 1 else 0)
tasks_of-append k c m ts = omega (
  arith,
  sum_of-append (λ (t : Task). if str_eq t.conn k then 1 else 0) ts
      (record { conn = c; model = m } ∷ []),
)

begun :
    (per cur : ℕ) (c : String) (m : DiscoveredModel) (q : Plan)
    → IsSound q
    → cur ≡ tasks_of c q.tasks
    → cur < per
    → Launched per m q
        (record q {
          in_flight = put c (suc cur) q.in_flight;
          tasks = q.tasks ++ record { conn = c; model = m } ∷ [];
        })
        true
unfolding or_default
begun per cur c m q s e h = record {
  sound = record {
    same = s.same;
    distinct = s.distinct;
    filled = s.filled;
    flying = λ k. ground (
      arith,
      e,
      s.flying k,
      get-put c k (suc cur) q.in_flight,
      tasks_of-append k c m q.tasks,
      eq_iff c k,
      ap (λ i. tasks_of i q.tasks),
    );
  };
  holds = λ f. omega (
    arith,
    sum_of-append (λ (t : Task). f t.model) q.tasks (record { conn = c; model = m } ∷ []),
  );
  conns = refl;
  grows = omega (arith, length-append q.tasks (record { conn = c; model = m } ∷ []));
  started = omega (arith, length-append q.tasks (record { conn = c; model = m } ∷ []));
  bounded = λ b k.
      ground
        (arith, e, b k, tasks_of-append k c m q.tasks, eq_iff c k, ap (λ i. tasks_of i q.tasks));
}

pub launch-Launched :
    (now : ℕ) (backoffs : List (String × ℕ)) (per cur : ℕ) (c : String) (m : DiscoveredModel)
    (q : Plan)
    → IsSound q
    → cur ≡ tasks_of c q.tasks
    → cur < per
    → Launched per m q (launch now backoffs cur c m q).0 (launch now backoffs cur c m q).1
unfolding launch
launch-Launched now backoffs per cur c m q s e h =
    elim (Bool-cases (leb (provider_resume_at c backoffs) now)) [
      | inl t ↦ rw t (begun per cur c m q s e h)
      | inr t ↦ rw t (parked per (provider_resume_at c backoffs) c m q s)
    ]
