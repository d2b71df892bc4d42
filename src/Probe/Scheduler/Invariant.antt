-- ===== src/Probe/Scheduler/Invariant.antt =====
-- What every state of the scheduling loop of 9router_WatchEdit/core/probe.py keeps, and the models it holds.
use router_extra.Prelude.{
  ℕ, suc, ◌+◌, ◌≤◌, ◌<◌, String, ◌≡◌, refl, sym, ap, ◌∙◌, true, false, not, some, List, [], ◌∷◌,
  ◌++◌, arith, str_eq, eq_iff, leb, if◌then◌else◌, length, length-append, contains, keep, Distinct,
  get-absent, get, keys, get-put, get-delete_all, put-Distinct, keys-put, keys-delete_all,
  delete_all-Distinct, weight_at, sum_of, sum_of-put, sum_of-delete, Bool-cases, inl, inr,
}
use router_extra.Combo.Sequence.{remove_first}
use router_extra.Probe.Scheduler.{
  DiscoveredModel, Delayed, Task, Plan, or_default, enqueue, heappush, add_conn, resume_from,
  resume_delayed, put_rest,
}

-- The tasks of a connection, and a weight of the models in each place.
abbrev pub tasks_of : String → List Task → ℕ
tasks_of c ts = sum_of (λ (t : Task). if str_eq t.conn c then 1 else 0) ts

abbrev pub queued : (DiscoveredModel → ℕ) → List (String × List DiscoveredModel) → ℕ
queued f queues = sum_of (λ (e : String × List DiscoveredModel). sum_of f e.1) queues

abbrev pub held : (DiscoveredModel → ℕ) → Plan → ℕ
held f p =
    queued f p.conn_queues
    + sum_of (λ (d : Delayed). f d.model) p.delayed
    + sum_of (λ (t : Task). f t.model) p.tasks

-- The connections are those of the queues, in order, none of which is empty, and the counters of
-- running tasks are right.
pub record IsSound (p : Plan) : Type 0 where
  pub same : p.active_conns ≡ keys p.conn_queues
  pub distinct : Distinct (keys p.conn_queues)
  pub filled :
      (c : String) (ms : List DiscoveredModel) → get c p.conn_queues ≡ some ms → 0 < length ms
  pub flying : (c : String) → or_default 0 (get c p.in_flight) ≡ tasks_of c p.tasks

module _ {ℓ} {A : Type ℓ} where
  pub sum_of-append : (f : A → ℕ) (xs ys : List A) → sum_of f (xs ++ ys) ≡ sum_of f xs + sum_of f ys
  sum_of-append f [] ys = omega arith
  sum_of-append f (x ∷ xs) ys = omega (arith, sum_of-append f xs ys)

pub sum_of-heappush :
    (f : Delayed → ℕ) (d : Delayed) (heap : List Delayed)
    → sum_of f (heappush d heap) ≡ f d + sum_of f heap
unfolding heappush
sum_of-heappush f d [] = refl
sum_of-heappush f d (e ∷ heap) = ground (arith, sum_of-heappush f d heap)

module _ (c : String) (m : DiscoveredModel) (queues : List (String × List DiscoveredModel)) where
  pub queued-enqueue :
      (f : DiscoveredModel → ℕ) → queued f (enqueue c m queues) ≡ queued f queues + f m
  unfolding enqueue or_default
  queued-enqueue f = ground (
    arith,
    sum_of-put (sum_of f) c (or_default [] (get c queues) ++ m ∷ []) queues,
    sum_of-append f (or_default [] (get c queues)) (m ∷ []),
  )

  pub keys-enqueue : keys (enqueue c m queues) ≡ add_conn c (keys queues)
  unfolding enqueue add_conn
  keys-enqueue = keys-put c (or_default [] (get c queues) ++ m ∷ []) queues

  pub filled-enqueue :
      ((k : String) (ms : List DiscoveredModel) → get k queues ≡ some ms → 0 < length ms)
      → (k : String) (ms : List DiscoveredModel) → get k (enqueue c m queues) ≡ some ms
      → 0 < length ms
  unfolding enqueue
  filled-enqueue h k ms e = ground (
    arith,
    h k ms,
    get-put c k (or_default [] (get c queues) ++ m ∷ []) queues,
    length-append (or_default [] (get c queues)) (m ∷ []),
  )

pub enqueue-Distinct :
    (c : String) (m : DiscoveredModel) (queues : List (String × List DiscoveredModel))
    → Distinct (keys queues)
    → Distinct (keys (enqueue c m queues))
unfolding enqueue
enqueue-Distinct c m queues h = put-Distinct c (or_default [] (get c queues) ++ m ∷ []) queues h

resumed-IsSound :
    (d : Delayed) (p : Plan)
    → IsSound p
    → IsSound (record p {
      conn_queues = enqueue d.conn d.model p.conn_queues;
      active_conns = add_conn d.conn p.active_conns;
    })
resumed-IsSound d p s = record {
  same = ap (add_conn d.conn) s.same ∙ sym (keys-enqueue d.conn d.model p.conn_queues);
  distinct = enqueue-Distinct d.conn d.model p.conn_queues s.distinct;
  filled = filled-enqueue d.conn d.model p.conn_queues s.filled;
  flying = s.flying;
}

-- Resuming connections keeps the invariant, the models held and the tasks.
pub record Resumed (p q : Plan) : Type 0 where
  pub sound : IsSound q
  pub holds : (f : DiscoveredModel → ℕ) → held f q ≡ held f p
  pub tasks : q.tasks ≡ p.tasks

resume_from-Resumed :
    (now : ℕ) (heap : List Delayed) (p : Plan)
    → IsSound p
    → Resumed (record p { delayed = heap }) (resume_from now heap p)
unfolding resume_from
resume_from-Resumed now [] p s = record {
  sound = record { same = s.same; distinct = s.distinct; filled = s.filled; flying = s.flying };
  holds = λ f. refl;
  tasks = refl;
}
resume_from-Resumed now (d ∷ heap) p s =
    let p' = record p {
      conn_queues = enqueue d.conn d.model p.conn_queues;
      active_conns = add_conn d.conn p.active_conns;
    } in
    let more = resume_from-Resumed now heap p' (resumed-IsSound d p s) in
    elim (Bool-cases (leb d.resume_at now)) [
      | inl e ↦ rw e (record {
        sound = more.sound;
        holds = λ f. omega (arith, more.holds f, queued-enqueue d.conn d.model p.conn_queues f);
        tasks = more.tasks;
      })
      | inr e ↦ rw e (record {
        sound = record {
          same = s.same;
          distinct = s.distinct;
          filled = s.filled;
          flying = s.flying;
        };
        holds = λ f. refl;
        tasks = refl;
      })
    ]

pub resume_delayed-Resumed : (now : ℕ) (p : Plan) → IsSound p → Resumed p (resume_delayed now p)
unfolding resume_delayed
resume_delayed-Resumed now p s = resume_from-Resumed now p.delayed p s

held-key :
    (c : String) (ms : List DiscoveredModel) (queues : List (String × List DiscoveredModel))
    → get c queues ≡ some ms
    → contains c (keys queues) ≡ true
held-key c ms queues e = elim (Bool-cases (contains c (keys queues))) [
  | inl h ↦ h
  | inr h ↦ let absent = get-absent c queues h in absurd cc
]

-- A queue that has lost its first model.
keep-without :
    (c : String) (xs : List String)
    → contains c xs ≡ false
    → keep (λ k. not (contains k (c ∷ []))) xs ≡ xs
unfolding keep contains
keep-without c [] h = refl
keep-without c (x ∷ xs) h = ground (arith, keep-without c xs, eq_iff x c, eq_iff c x)

remove_first-keep :
    (c : String) (xs : List String)
    → Distinct xs
    → remove_first c xs ≡ keep (λ k. not (contains k (c ∷ []))) xs
unfolding remove_first keep contains
remove_first-keep c [] h = refl
remove_first-keep c (x ∷ xs) h = ground (
  arith,
  remove_first-keep c xs h.1,
  keep-without c xs,
  eq_iff x c,
  eq_iff c x,
  ap (λ i. contains i xs),
)

length-remove_first : (c : String) (xs : List String) → length xs ≤ suc (length (remove_first c xs))
unfolding remove_first
length-remove_first c [] = omega arith
length-remove_first c (x ∷ xs) = ground (arith, length-remove_first c xs)

pub record Popped (m : DiscoveredModel) (p q : Plan) : Type 0 where
  pub sound : IsSound q
  pub holds : (f : DiscoveredModel → ℕ) → held f q + f m ≡ held f p
  pub tasks : q.tasks ≡ p.tasks
  pub delayed : q.delayed ≡ p.delayed
  pub shrinks : length p.active_conns ≤ suc (length q.active_conns)

pub put_rest-Popped :
    (c : String) (m : DiscoveredModel) (ms : List DiscoveredModel) (p : Plan)
    → IsSound p
    → get c p.conn_queues ≡ some (m ∷ ms)
    → Popped m p (put_rest c ms p)
unfolding put_rest
put_rest-Popped c m [] p s e = record {
  sound = record {
    same =
        ap (remove_first c) s.same
        ∙ remove_first-keep c (keys p.conn_queues) s.distinct
        ∙ sym (keys-delete_all (c ∷ []) p.conn_queues);
    distinct = delete_all-Distinct (c ∷ []) p.conn_queues s.distinct;
    filled = λ k ks f. ground (arith, s.filled k ks, get-delete_all k (c ∷ []) p.conn_queues);
    flying = s.flying;
  };
  holds = λ f.
      omega
        (arith, sum_of-delete (sum_of f) c p.conn_queues s.distinct, ap (weight_at (sum_of f)) e);
  tasks = refl;
  delayed = refl;
  shrinks = length-remove_first c p.active_conns;
}
put_rest-Popped c m (n ∷ ms) p s e = record {
  sound = record {
    same =
        s.same
        ∙ sym (
            keys-put c (n ∷ ms) p.conn_queues
            ∙ ap (λ b. if b then keys p.conn_queues else keys p.conn_queues ++ c ∷ [])
                (held-key c (m ∷ n ∷ ms) p.conn_queues e));
    distinct = put-Distinct c (n ∷ ms) p.conn_queues s.distinct;
    filled = λ k ks f. ground (arith, s.filled k ks, get-put c k (n ∷ ms) p.conn_queues);
    flying = s.flying;
  };
  holds = λ f.
      omega (arith, sum_of-put (sum_of f) c (n ∷ ms) p.conn_queues, ap (weight_at (sum_of f)) e);
  tasks = refl;
  delayed = refl;
  shrinks = omega arith;
}
