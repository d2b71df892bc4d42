-- ===== src/Refresh/Flow.antt =====
-- The threads around the controller: `refresh_all_async`, `refresh_all`, `_finalize_pass`,
-- `_background_discovery_task` and `_on_discovery_finished` of
-- 9router_WatchEdit/ui/main_window.py, as steps that may interleave in any order.
use router_extra.Prelude.{
  Pick, here, there, ℕ, ◌+◌, ◌≡◌, Bool, true, false, Option, none, some, List, [], ◌∷◌, arith,
  if◌then◌else◌,
}
use router_extra.Refresh.{
  Controller, Outcome, started, coalesced, closed, new, next_generation, begin_refresh, finish_pass,
  claim_follow_up, release_unclaimed, begin_worker, close, may_publish, record_published,
}

-- Where a thread that handles a pass stands.
-- `spawned g`: it was started for g and has not called `begin_worker`.
-- `working g`: it carries out pass g. `handing g`: it called `finish_pass`, which reserved g.
-- `leaving g`: its claim of g was refused.
pub data Thread : Type 0 where
  spawned working handing leaving : ℕ → Thread

-- `published` lists the accepted generations, the newest first.
pub record System : Type 0 where
  pub controller : Controller
  pub threads : List Thread
  pub published : List ℕ

unfoldable pub boot : System
boot = record { controller = new; threads = []; published = [] }

-- A request that starts a pass brings a thread; `sync` is `refresh_all`, whose caller is the worker.
enlist : Bool → Outcome → ℕ → List Thread → List Thread
enlist sync started g ts = (if sync then working g else spawned g) ∷ ts
enlist sync coalesced g ts = ts
enlist sync closed g ts = ts

unfoldable pub request : Bool → System → System
unfolding enlist
request sync s =
    let (c, outcome, g) = begin_refresh s.controller in
    record s { controller = c; threads = enlist sync outcome g s.threads }

-- The first lines of `_background_discovery_task`: a revoked worker ends.
unfoldable pub enter : ℕ → List Thread → System → System
enter g rest s =
    let (c, go) = begin_worker g s.controller in
    record s { controller = c; threads = if go then working g ∷ rest else rest }

-- The first half of `_finalize_pass`.
handing_over : Option ℕ → List Thread → List Thread
handing_over none rest = rest
handing_over (some f) rest = handing f ∷ rest

unfoldable pub finish : ℕ → Bool → List Thread → System → System
unfolding handing_over
finish g spawn_follow_up rest s =
    let (c, follow_up) = finish_pass g spawn_follow_up s.controller in
    record s { controller = c; threads = handing_over follow_up rest }

-- The second half of `_finalize_pass`: one worker is spawned for a claimed follow-up.
unfoldable pub claim : ℕ → List Thread → System → System
claim f rest s =
    let (c, claimed) = claim_follow_up f s.controller in
    record s { controller = c; threads = (if claimed then spawned f else leaving f) ∷ rest }

unfoldable pub leave : ℕ → List Thread → System → System
leave f rest s = record s { controller = release_unclaimed f s.controller; threads = rest }

-- The guard of `_on_discovery_finished` and its record of the accepted generation.
unfoldable pub accept : ℕ → System → System
accept g s =
    if may_publish g false s.controller
    then record s { controller = record_published g s.controller; published = g ∷ s.published }
    else s

-- `numbers` is a call of the window's `_next_refresh_generation` outside the controller;
-- `fail` is `_on_discovery_failed`, which records without publishing an inventory.
pub data Step : System → System → Type 0 where
  asks : (sync : Bool) (s : System) → Step s (request sync s)
  enters :
      (g : ℕ) (rest : List Thread) (s : System)
      → Pick (spawned g) s.threads rest
      → Step s (enter g rest s)
  finishes :
      (g : ℕ) (spawn : Bool) (rest : List Thread) (s : System)
      → Pick (working g) s.threads rest
      → Step s (finish g spawn rest s)
  claims :
      (f : ℕ) (rest : List Thread) (s : System)
      → Pick (handing f) s.threads rest
      → Step s (claim f rest s)
  leaves :
      (f : ℕ) (rest : List Thread) (s : System)
      → Pick (leaving f) s.threads rest
      → Step s (leave f rest s)
  accepts : (g : ℕ) (s : System) → Step s (accept g s)
  fails :
      (g : ℕ) (s : System)
      → may_publish g true s.controller ≡ true
      → Step s (record s { controller = record_published g s.controller })
  numbers : (s : System) → Step s (record s { controller = (next_generation s.controller).0 })
  closes : (s : System) → Step s (record s { controller = close s.controller })

pub data Reach (s : System) : System → Type 0 where
  stay : Reach s s
  next : {t u : System} → Reach s t → Step t u → Reach s u

-- The threads that own a running pass.
abbrev pub busy : Thread → ℕ
busy (spawned g) = 1
busy (working g) = 1
busy (handing g) = 0
busy (leaving g) = 0

abbrev pub count_busy : List Thread → ℕ
count_busy [] = 0
count_busy (t ∷ ts) = busy t + count_busy ts

-- The pass that a busy thread owns is the controller's active one.
abbrev pub Owns : Option ℕ → Thread → Type 0
Owns a (spawned g) = a ≡ some g
Owns a (working g) = a ≡ some g
Owns a (handing g) = Unit {0}
Owns a (leaving g) = Unit {0}

abbrev pub AllOwn : Option ℕ → List Thread → Type 0
AllOwn a [] = Unit {0}
AllOwn a (t ∷ ts) = Owns a t × AllOwn a ts

pub count_busy-Pick :
    {t : Thread} {ts rest : List Thread} → Pick t ts rest → count_busy ts ≡ busy t + count_busy rest
count_busy-Pick here = omega arith
count_busy-Pick (there p) = omega (arith, count_busy-Pick p)

pub AllOwn-Pick :
    {t : Thread} {ts rest : List Thread} (a : Option ℕ)
    → Pick t ts rest
    → AllOwn a ts
    → Owns a t × AllOwn a rest
AllOwn-Pick a here h = (h.0, h.1)
AllOwn-Pick a (there p) h = let (o, r) = AllOwn-Pick a p h.1 in (o, (h.0, r))

-- With no busy thread there is nothing to own.
pub AllOwn-idle : (a : Option ℕ) (ts : List Thread) → count_busy ts ≡ 0 → AllOwn a ts
AllOwn-idle a [] h = tt
AllOwn-idle a (spawned g ∷ ts) h = absurd (omega arith)
AllOwn-idle a (working g ∷ ts) h = absurd (omega arith)
AllOwn-idle a (handing g ∷ ts) h = (tt, AllOwn-idle a ts (omega arith))
AllOwn-idle a (leaving g ∷ ts) h = (tt, AllOwn-idle a ts (omega arith))
