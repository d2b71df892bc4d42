-- ===== src/Failover/Chain.antt =====
-- The predicted chain of 9router_WatchEdit/core/combo_failover.py: who serves, who fails and who is next.
use router_extra.Prelude.{
  ℕ, suc, ◌+◌, ◌≤◌, String, ◌≡◌, refl, ap, ◌∙◌, Bool, true, false, ◌||◌, Option, none, some, List,
  [], ◌∷◌, ◌++◌, arith, str_eq, eq_iff, eq_refl, ltb, if◌then◌else◌, length, some_of, get,
}
use router_extra.HealthCache.{HealthRecord}
use router_extra.Failover.{
  Expectation, Row, classify_health, is_routable, is_failing, row_at, rows_from, first_where, id_of,
  follower, row_of, report_of, failover_report,
}

-- The first of some ids.
abbrev pub first_of : List String → Option String
first_of [] = none
first_of (id ∷ ids) = some id

-- What the history says of an id, tested.
abbrev pub expects : (Expectation → Bool) → List (String × HealthRecord) → String → Bool
expects test health id = test (classify_health (get id health))

ltb-suc : (n : ℕ) → ltb (suc n) (suc (suc n)) ≡ true
ltb-suc n = ground arith

ltb-same : (n : ℕ) → ltb (suc n) (suc n) ≡ false
ltb-same n = ground arith

first_where-append {ℓ} :
    {A : Type ℓ} (test : A → Bool) (xs ys : List A)
    → some_of test xs ≡ false
    → first_where test (xs ++ ys) ≡ first_where test ys
unfolding first_where some_of
first_where-append test [] ys h = refl
first_where-append test (x ∷ xs) ys h = ground (arith, first_where-append test xs ys)

module _ (health : List (String × HealthRecord)) where
  rows_from-append :
      (n : ℕ) (pre ids : List String)
      → rows_from n health (pre ++ ids)
        ≡ rows_from n health pre ++ rows_from (length pre + n) health ids
  unfolding rows_from
  rows_from-append n [] ids = ap (λ m. rows_from m health ids) (omega arith)
  rows_from-append n (id ∷ pre) ids =
      ap (λ rows. row_at n health id ∷ rows)
        (rows_from-append (suc n) pre ids
          ∙ ap (λ m. rows_from (suc n) health pre ++ rows_from m health ids) (omega arith))

  some_of-expects :
      (test : Expectation → Bool) (n : ℕ) (pre : List String)
      → some_of (λ (row : Row). test row.expectation) (rows_from n health pre)
        ≡ some_of (expects test health) pre
  unfolding some_of rows_from row_at
  some_of-expects test n [] = refl
  some_of-expects test n (id ∷ pre) =
      ap (λ b. test (classify_health (get id health)) || b) (some_of-expects test (suc n) pre)

  none_after :
      (p n : ℕ) (pre : List String)
      → length pre + n ≤ p
      → some_of (λ (row : Row). ltb p row.position) (rows_from n health pre) ≡ false
  unfolding some_of rows_from row_at
  none_after p n [] h = refl
  none_after p n (id ∷ pre) h = ground (arith, none_after p (suc n) pre)

  none_named :
      (m : String) (n : ℕ) (pre : List String)
      → some_of (λ id. str_eq id m) pre ≡ false
      → some_of (λ (row : Row). str_eq row.canonical_id m) (rows_from n health pre) ≡ false
  unfolding some_of rows_from row_at
  none_named m n [] h = refl
  none_named m n (id ∷ pre) h = ground (arith, none_named m (suc n) pre)

  absent_from :
      (test : Expectation → Bool) (m : String) (pre : List String)
      → some_of (expects test health) pre ≡ false
      → expects test health m ≡ true
      → some_of (λ id. str_eq id m) pre ≡ false
  unfolding some_of
  absent_from test m [] h t = refl
  absent_from test m (id ∷ pre) h t =
      ground (arith, absent_from test m pre, eq_iff id m, ap (expects test health))

  module _ (pre : List String) (m : String) (post : List String) where
    rows : List Row
    rows = rows_from 0 health (pre ++ m ∷ post)

    row : Row
    row = row_at (length pre + 0) health m

    first_expected :
        (test : Expectation → Bool)
        → some_of (expects test health) pre ≡ false
        → expects test health m ≡ true
        → first_where (λ (r : Row). test r.expectation) rows ≡ some row
    unfolding rows row first_where rows_from row_at
    first_expected test h t =
        ap (first_where (λ (r : Row). test r.expectation)) (rows_from-append 0 pre (m ∷ post))
        ∙ first_where-append (λ (r : Row). test r.expectation) (rows_from 0 health pre)
            (rows_from (length pre + 0) health (m ∷ post)) (some_of-expects test 0 pre ∙ h)
        ∙ rw t refl

    first_named : some_of (λ id. str_eq id m) pre ≡ false → row_of rows (some m) ≡ some row
    unfolding rows row row_of first_where rows_from row_at
    first_named h =
        ap (first_where (λ (r : Row). str_eq r.canonical_id m)) (rows_from-append 0 pre (m ∷ post))
        ∙ first_where-append (λ (r : Row). str_eq r.canonical_id m) (rows_from 0 health pre)
            (rows_from (length pre + 0) health (m ∷ post)) (none_named m 0 pre h)
        ∙ rw (eq_refl m) refl

    after_row :
        (n : ℕ) (ids : List String)
        → id_of (first_where (λ (r : Row). ltb (suc n) r.position) (rows_from (suc n) health ids))
          ≡ first_of ids
    unfolding id_of first_where rows_from row_at
    after_row n [] = refl
    after_row n (id ∷ ids) =
        ap
          (λ b. id_of (
            if b
            then some (row_at (suc n) health id)
            else first_where (λ (r : Row). ltb (suc n) r.position)
                (rows_from (suc (suc n)) health ids)))
          (ltb-suc n)

    next_of_row : id_of (follower rows (some row)) ≡ first_of post
    unfolding rows row follower row_at rows_from id_of first_where
    next_of_row =
        let n = length pre + 0 in
        ap (λ rs. id_of (first_where (λ (r : Row). ltb (suc n) r.position) rs))
          (rows_from-append 0 pre (m ∷ post))
        ∙ ap id_of (
            first_where-append (λ (r : Row). ltb (suc n) r.position) (rows_from 0 health pre)
              (rows_from n health (m ∷ post)) (none_after (suc n) 0 pre (omega arith)))
        ∙ ap
            (λ b. id_of (
              if b
              then some row
              else first_where (λ (r : Row). ltb (suc n) r.position)
                  (rows_from (suc n) health post)))
            (ltb-same n)
        ∙ after_row n post

-- In a published sequence the first member that the history has live is the predicted server, and
-- what the report has behind it is the next member, whatever stands before it.
pub serving_chain :
    (health : List (String × HealthRecord)) (pre : List String) (m : String) (post : List String)
    (disabled : List String) (name : String)
    → some_of (expects is_routable health) pre ≡ false
    → expects is_routable health m ≡ true
    → ((failover_report (pre ++ m ∷ post) health disabled name).0.serving ≡ some m)
      × ((failover_report (pre ++ m ∷ post) health disabled name).0.serving_fallback
          ≡ first_of post)
unfolding failover_report report_of id_of rows row
serving_chain health pre m post disabled name h t =
    let first = first_expected health pre m post is_routable h t in
    (
      ap id_of first,
      ap
            (λ r.
              id_of (follower (rows health pre m post) (row_of (rows health pre m post) (id_of r))))
            first
          ∙ ap (λ r. id_of (follower (rows health pre m post) r))
              (first_named health pre m post (absent_from health is_routable m pre h t))
          ∙ next_of_row health pre m post,
    )

-- The member that the report has the engine fail over from is the first one that the history has
-- failing, for good or for now, and the one it fails over to is the next; the members before it
-- may be untested, and one of them may be the predicted server.
pub failing_chain :
    (health : List (String × HealthRecord)) (pre : List String) (m : String) (post : List String)
    (disabled : List String) (name : String)
    → some_of (expects is_failing health) pre ≡ false
    → expects is_failing health m ≡ true
    → ((failover_report (pre ++ m ∷ post) health disabled name).0.failover_from ≡ some m)
      × ((failover_report (pre ++ m ∷ post) health disabled name).0.failover_to ≡ first_of post)
unfolding failover_report report_of id_of rows row
failing_chain health pre m post disabled name h t =
    let first = first_expected health pre m post is_failing h t in
    (
      ap id_of first,
      ap (λ r. id_of (follower (rows health pre m post) r)) first ∙ next_of_row health pre m post,
    )
