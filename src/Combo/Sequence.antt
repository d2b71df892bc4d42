-- ===== src/Combo/Sequence.antt =====
-- Python's list operations that `StableCombo` moves its members with.
use router_extra.Prelude.{
  ℕ, zero, suc, ◌+◌, String, List, [], ◌∷◌, str_eq, if◌then◌else◌, contains, discard,
}

-- `models.index(m)`, the first place of a member that is there.
unfoldable pub index : String → List String → ℕ
index m [] = 0
index m (x ∷ xs) = if str_eq x m then 0 else suc (index m xs)

-- `models[i], models[i + 1] = models[i + 1], models[i]`
unfoldable pub swap_at : ℕ → List String → List String
swap_at i [] = []
swap_at i (x ∷ []) = x ∷ []
swap_at zero (x ∷ y ∷ r) = y ∷ x ∷ r
swap_at (suc i) (x ∷ y ∷ r) = x ∷ swap_at i (y ∷ r)

-- `models.insert(i, m)`: past the end it appends.
unfoldable pub insert_at : ℕ → String → List String → List String
insert_at zero m xs = m ∷ xs
insert_at (suc i) m [] = m ∷ []
insert_at (suc i) m (x ∷ xs) = x ∷ insert_at i m xs

-- `models.pop(i)`
unfoldable pub pop_at : ℕ → List String → List String
pop_at i [] = []
pop_at zero (x ∷ xs) = xs
pop_at (suc i) (x ∷ xs) = x ∷ pop_at i xs

-- `models.remove(m)`
unfoldable pub remove_first : String → List String → List String
remove_first m [] = []
remove_first m (x ∷ xs) = if str_eq x m then xs else x ∷ remove_first m xs

-- The loop of `remove_models`: `remaining` is the counter of ids that are still to be removed.
-- What it returns: the members kept, the disabled set and the number removed.
unfoldable pub remove_counted :
    List String → List String → List String → List String × List String × ℕ
unfolding contains remove_first discard
remove_counted remaining [] disabled = ([], disabled, 0)
remove_counted remaining (x ∷ xs) disabled =
    let gone = remove_counted (remove_first x remaining) xs (discard x disabled) in
    let kept = remove_counted remaining xs disabled in
    if contains x remaining then (gone.0, gone.1, gone.2 + 1) else (x ∷ kept.0, kept.1, kept.2)
