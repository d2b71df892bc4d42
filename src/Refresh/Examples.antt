-- ===== src/Refresh/Examples.antt =====
-- Runs of the refresh controller at concrete states, and the theorems at such states.
use router_extra.Prelude.{◌+◌, ◌≡◌, ◌⊎◌, refl, true, false, none, some, [], ◌∷◌, length}
use router_extra.Refresh.{
  new, begin_refresh, finish_pass, claim_follow_up, begin_worker, close, may_publish,
}
use router_extra.Refresh.Flow.{
  System, boot, request, enter, finish, claim, accept, Reach, stay, next, asks,
}
use router_extra.Refresh.Ownership.{newest_served}
use router_extra.Refresh.Publication.{burst, burst-coalesces}

-- Two clicks: pass 1 runs and generation 2 is reserved.
abbrev clicked : System
clicked = request false (request false boot)

-- Pass 1 ends, its follow-up 2 is claimed, and the inventory of 2 is accepted.
abbrev followed : System
followed = accept 2 (claim 2 [] (finish 1 true [] (enter 1 [] clicked)))

clicked-Reach : Reach boot clicked
clicked-Reach = next (next stay (asks false boot)) (asks false (request false boot))

followed_published : followed.published ≡ 2 ∷ []
unfolding request enter finish claim accept begin_refresh begin_worker finish_pass claim_follow_up
    may_publish boot new
followed_published = refl

newest_served_example :
    let c = clicked.controller in
    (c.pending ≡ some c.latest_requested)
    ⊎ ((c.pending ≡ none) × (c.active ≡ some c.latest_requested))
unfolding request begin_refresh boot new
newest_served_example = newest_served clicked-Reach refl refl

abbrev shut : System
shut = record clicked { controller = close clicked.controller }

burst-coalesces_example :
    let s = request false boot in
    let t = burst (false ∷ true ∷ []) s in
    let last = s.controller.counter + length (false ∷ true ∷ []) in
    (t.threads ≡ s.threads)
    × (t.controller.active ≡ s.controller.active)
    × (t.controller.pending ≡ some last)
    × ((finish_pass 1 true t.controller).1 ≡ some last)
unfolding request begin_refresh boot new
burst-coalesces_example = burst-coalesces false (true ∷ []) (request false boot) 1 refl refl
