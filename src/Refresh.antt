-- ===== src/Refresh.antt =====
-- 9router_WatchEdit/core/refresh_controller.py, class `RefreshController`, with the counter that
-- it draws generations from (`_next_refresh_generation` of 9router_WatchEdit/ui/main_window.py).
-- Each method runs under the controller's lock, so it is one function on the state.
pub mod Flow
pub mod Ownership
pub mod Publication
mod Examples
use router_extra.Prelude.{
  ℕ, ◌+◌, max, Bool, true, false, not, ◌&&◌, ◌||◌, Option, none, some, ltb, leb, holds_num, is_none,
  if◌then◌else◌,
}

-- The outcomes of `begin_refresh`.
pub data Outcome : Type 0 where
  started coalesced closed : Outcome

-- `counter` is the window's `_refresh_generation`; the other fields are the controller's.
pub record Controller : Type 0 where
  pub counter : ℕ
  pub active : Option ℕ
  pub pending : Option ℕ
  pub running : Bool
  pub closing : Bool
  pub last_published : ℕ
  pub latest_requested : ℕ

unfoldable pub new : Controller
new = record {
  counter = 0;
  active = none;
  pending = none;
  running = false;
  closing = false;
  last_published = 0;
  latest_requested = 0;
}

-- The counter goes up, and its new value is the generation.
unfoldable pub next_generation : Controller → Controller × ℕ
next_generation c = (record c { counter = c.counter + 1 }, c.counter + 1)

coalesce : Controller → Controller × Outcome × ℕ
unfolding next_generation
coalesce c =
    let (d, g) = next_generation c in
    (record d { pending = some g; latest_requested = max c.latest_requested g }, coalesced, g)

start : Controller → Controller × Outcome × ℕ
unfolding next_generation
start c =
    let (d, g) = next_generation c in
    (
      record d {
        active = some g;
        pending = none;
        running = true;
        latest_requested = max c.latest_requested g;
      },
      started,
      g,
    )

unfoldable pub begin_refresh : Controller → Controller × Outcome × ℕ
unfolding coalesce start
begin_refresh c = if c.closing then (c, closed, 0) else (if c.running then coalesce c else start c)

-- The active pass is released whatever the pending follow-up is.
release : ℕ → Controller → Controller
release g c = record c {
  active = if holds_num c.active g then none else c.active;
  pending = none;
  running = false;
}

hand_over : Option ℕ → Bool → Controller → Controller × Option ℕ
hand_over none stop c = (c, none)
hand_over (some p) stop c = if stop then (c, none) else (record c { active = some p }, some p)

unfoldable pub finish_pass : ℕ → Bool → Controller → Controller × Option ℕ
unfolding release hand_over
finish_pass g spawn_follow_up c =
    hand_over c.pending (c.closing || not spawn_follow_up) (release g c)

unfoldable pub claim_follow_up : ℕ → Controller → Controller × Bool
claim_follow_up g c =
    if c.closing
    then (c, false)
    else (if holds_num c.active g && not c.running && is_none c.pending
        then (record c { running = true }, true)
        else (c, false))

unfoldable pub release_unclaimed : ℕ → Controller → Controller
release_unclaimed g c =
    if holds_num c.active g && not c.running then record c { active = none; pending = none } else c

unfoldable pub begin_worker : ℕ → Controller → Controller × Bool
unfolding release
begin_worker g c = if c.closing then (release g c, false) else (c, true)

unfoldable pub close : Controller → Controller
close c = record c { closing = true; pending = none }

unfoldable pub may_publish : ℕ → Bool → Controller → Bool
may_publish g allow_equal c =
    if c.closing || ltb g c.latest_requested
    then false
    else (if allow_equal then leb c.last_published g else ltb c.last_published g)

unfoldable pub record_published : ℕ → Controller → Controller
record_published g c = if ltb c.last_published g then record c { last_published = g } else c
