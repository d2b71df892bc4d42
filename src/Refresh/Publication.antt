-- ===== src/Refresh/Publication.antt =====
-- What the interleavings of `Refresh.Flow` may publish, and what happens after `close`.
use router_extra.Prelude.{
  Pick, here, there, ℕ, suc, ◌+◌, ◌≤◌, ◌<◌, ◌≡◌, ◌↔◌, ◌∙◌, Bool, true, false, some, List, [], ◌∷◌,
  arith, length,
}
use router_extra.Refresh.{
  Controller, next_generation, begin_refresh, finish_pass, claim_follow_up, release_unclaimed,
  begin_worker, close, may_publish, record_published, started,
}
use router_extra.Refresh.Flow.{
  Thread, spawned, working, handing, leaving, System, boot, request, enter, finish, claim, leave,
  accept, Step, asks, enters, finishes, claims, leaves, accepts, fails, numbers, closes, Reach,
  stay, next,
}

-- Each number is below the one before it, the first below n.
abbrev pub Descends : ℕ → List ℕ → Type 0
Descends n [] = Unit {0}
Descends n (g ∷ gs) = (g < n) × Descends g gs

Descends-mono : {m n : ℕ} (gs : List ℕ) → m ≤ n → Descends m gs → Descends n gs
Descends-mono [] l h = tt
Descends-mono (g ∷ gs) l h = (omega arith, h.1)

abbrev Ordered : System → Type 0
Ordered s = Descends (suc s.controller.last_published) s.published

record_published-Ordered :
    (g : ℕ) (s : System)
    → Ordered s
    → Ordered (record s { controller = record_published g s.controller })
unfolding record_published
record_published-Ordered g s h =
    ground (arith, Descends-mono {m = suc s.controller.last_published} {n = suc g} s.published)

accept-Ordered : (g : ℕ) (s : System) → Ordered s → Ordered (accept g s)
unfolding accept record_published may_publish
accept-Ordered g s h =
    ground (arith, Descends-mono {m = suc s.controller.last_published} {n = g} s.published)

-- The other methods leave the last publication alone.
last-begin_refresh : (c : Controller) → (begin_refresh c).0.last_published ≡ c.last_published
unfolding begin_refresh
last-begin_refresh c = ground arith

last-finish_pass :
    (g : ℕ) (b : Bool) (c : Controller) → (finish_pass g b c).0.last_published ≡ c.last_published
unfolding finish_pass
last-finish_pass g b c = ground arith

last-claim_follow_up :
    (g : ℕ) (c : Controller) → (claim_follow_up g c).0.last_published ≡ c.last_published
unfolding claim_follow_up
last-claim_follow_up g c = ground arith

last-release_unclaimed :
    (g : ℕ) (c : Controller) → (release_unclaimed g c).last_published ≡ c.last_published
unfolding release_unclaimed
last-release_unclaimed g c = ground arith

last-begin_worker :
    (g : ℕ) (c : Controller) → (begin_worker g c).0.last_published ≡ c.last_published
unfolding begin_worker
last-begin_worker g c = ground arith

Step-Ordered : {s t : System} → Step s t → Ordered s → Ordered t
unfolding next_generation close request enter finish claim leave
Step-Ordered (asks sync s) h = rw (last-begin_refresh s.controller) h
Step-Ordered (enters g rest s p) h = rw (last-begin_worker g s.controller) h
Step-Ordered (finishes g spawn rest s p) h = rw (last-finish_pass g spawn s.controller) h
Step-Ordered (claims f rest s p) h = rw (last-claim_follow_up f s.controller) h
Step-Ordered (leaves f rest s p) h = rw (last-release_unclaimed f s.controller) h
Step-Ordered (accepts g s) h = accept-Ordered g s h
Step-Ordered (fails g s e) h = record_published-Ordered g s h
Step-Ordered (numbers s) h = h
Step-Ordered (closes s) h = h

Reach-Ordered : {s t : System} → Ordered s → Reach s t → Ordered t
Reach-Ordered h stay = h
Reach-Ordered h (next r st) = Step-Ordered st (Reach-Ordered h r)

-- In every run from the start, each accepted inventory generation is newer than all accepted
-- before it, and none is newer than the recorded last publication.
pub published_increases :
    {s : System} → Reach boot s → Descends (suc s.controller.last_published) s.published
unfolding boot
published_increases r = Reach-Ordered tt r

-- An inventory of generation g may be published exactly when the window is open, no newer
-- refresh was requested, and g is newer than the last publication.
pub may_publish_iff :
    (g : ℕ) (c : Controller)
    → (may_publish g false c ≡ true)
      ↔ ((c.closing ≡ false) × (c.latest_requested ≤ g) × (c.last_published < g))
unfolding may_publish
may_publish_iff g c = ground arith

-- How many threads carry out a pass.
abbrev pub count_working : List Thread → ℕ
count_working [] = 0
count_working (working g ∷ ts) = suc (count_working ts)
count_working (spawned g ∷ ts) = count_working ts
count_working (handing g ∷ ts) = count_working ts
count_working (leaving g ∷ ts) = count_working ts

abbrev works : Thread → ℕ
works t = count_working (t ∷ [])

count_working-cons :
    (t : Thread) (ts : List Thread) → count_working (t ∷ ts) ≡ works t + count_working ts
count_working-cons (working g) ts = omega arith
count_working-cons (spawned g) ts = omega arith
count_working-cons (handing g) ts = omega arith
count_working-cons (leaving g) ts = omega arith

count_working-Pick :
    {t : Thread} {ts rest : List Thread}
    → Pick t ts rest
    → count_working ts ≡ works t + count_working rest
count_working-Pick {t} (here {xs}) = count_working-cons t xs
count_working-Pick (there {y} {xs} {rest} p) =
    omega (arith, count_working-Pick p, count_working-cons y xs, count_working-cons y rest)

-- What a closed system keeps: it stays closed, publishes no more and starts no work.
record Quiet (s t : System) : Type 0 where
  shut : t.controller.closing ≡ true
  silent : t.published ≡ s.published
  calm : count_working t.threads ≤ count_working s.threads

module _ (s : System) (shut : s.controller.closing ≡ true) where
  request-Quiet : (sync : Bool) → Quiet s (request sync s)
  unfolding request begin_refresh
  request-Quiet sync = ground arith

  enter-Quiet :
      (g : ℕ) {rest : List Thread} → Pick (spawned g) s.threads rest → Quiet s (enter g rest s)
  unfolding enter begin_worker
  enter-Quiet g p = ground (arith, count_working-Pick p)

  finish-Quiet :
      (g : ℕ) (b : Bool) {rest : List Thread}
      → Pick (working g) s.threads rest
      → Quiet s (finish g b rest s)
  unfolding finish finish_pass
  finish-Quiet g b p = ground (arith, count_working-Pick p)

  claim-Quiet :
      (g : ℕ) {rest : List Thread} → Pick (handing g) s.threads rest → Quiet s (claim g rest s)
  unfolding claim claim_follow_up
  claim-Quiet g p = ground (arith, count_working-Pick p)

  leave-Quiet :
      (g : ℕ) {rest : List Thread} → Pick (leaving g) s.threads rest → Quiet s (leave g rest s)
  unfolding leave release_unclaimed
  leave-Quiet g p = ground (arith, count_working-Pick p)

  accept-Quiet : (g : ℕ) → Quiet s (accept g s)
  unfolding accept may_publish
  accept-Quiet g = ground arith

Step-Quiet : {s t : System} → Step s t → s.controller.closing ≡ true → Quiet s t
unfolding next_generation close record_published
Step-Quiet (asks sync s) h = request-Quiet s h sync
Step-Quiet (enters g rest s p) h = enter-Quiet s h g p
Step-Quiet (finishes g spawn rest s p) h = finish-Quiet s h g spawn p
Step-Quiet (claims f rest s p) h = claim-Quiet s h f p
Step-Quiet (leaves f rest s p) h = leave-Quiet s h f p
Step-Quiet (accepts g s) h = accept-Quiet s h g
Step-Quiet (fails g s e) h = ground arith
Step-Quiet (numbers s) h = ground arith
Step-Quiet (closes s) h = ground arith

Reach-Quiet : {s t : System} → s.controller.closing ≡ true → Reach s t → Quiet s t
Reach-Quiet h stay = ground arith
Reach-Quiet h (next r st) =
    let q = Reach-Quiet h r in
    let q' = Step-Quiet st q.shut in
    record { shut = q'.shut; silent = q'.silent ∙ q.silent; calm = omega (arith, q.calm, q'.calm) }

-- From a closed system every run stays closed, publishes nothing more and never has more threads
-- at work than there were.
pub closed_quiet :
    {s t : System}
    → s.controller.closing ≡ true
    → Reach s t
    → (t.controller.closing ≡ true)
      × (t.published ≡ s.published)
      × (count_working t.threads ≤ count_working s.threads)
closed_quiet h r = let q = Reach-Quiet h r in (q.shut, q.silent, q.calm)

-- A row of requests.
unfoldable pub burst : List Bool → System → System
burst [] s = s
burst (sync ∷ more) s = burst more (request sync s)

request-running :
    (sync : Bool) (s : System)
    → s.controller.running ≡ true
    → s.controller.closing ≡ false
    → let t = request sync s in
      (t.threads ≡ s.threads)
      × (t.controller.active ≡ s.controller.active)
      × (t.controller.running ≡ true)
      × (t.controller.closing ≡ false)
      × (t.controller.counter ≡ suc s.controller.counter)
      × (t.controller.pending ≡ some (suc s.controller.counter))
unfolding request begin_refresh
request-running sync s r o = ground arith

-- However many refreshes are asked for while a pass runs, no thread is started and the active
-- pass stays; one follow-up is reserved, the number of the last request, and the end of the pass
-- hands over just that one.
pub burst-coalesces :
    (sync : Bool) (more : List Bool) (s : System) (g : ℕ)
    → s.controller.running ≡ true
    → s.controller.closing ≡ false
    → let t = burst (sync ∷ more) s in
      let last = s.controller.counter + length (sync ∷ more) in
      (t.threads ≡ s.threads)
      × (t.controller.active ≡ s.controller.active)
      × (t.controller.pending ≡ some last)
      × ((finish_pass g true t.controller).1 ≡ some last)
unfolding burst finish_pass
burst-coalesces sync [] s g r o = ground (arith, request-running sync s r o)
burst-coalesces sync (b ∷ more) s g r o =
    let q = request-running sync s r o in
    ground (arith, q, burst-coalesces b more (request sync s) g)

-- Whatever state a pass ended in, the end of a pass leaves the controller free: while the window
-- is open the next request starts a pass of its own, under the next number.
pub begin_refresh-finish_pass :
    (g : ℕ) (spawn : Bool) (c : Controller)
    → c.closing ≡ false
    → let (d, outcome, next_g) = begin_refresh (finish_pass g spawn c).0 in
      (outcome ≡ started) × (next_g ≡ suc c.counter) × (d.active ≡ some next_g) × (d.running ≡ true)
unfolding begin_refresh finish_pass
begin_refresh-finish_pass g spawn c o = ground arith
