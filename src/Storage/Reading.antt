-- ===== src/Storage/Reading.antt =====
-- A list of texts is read as it was written, and a sorted set has the set's members.
use router_extra.Prelude.{String, ◌≡◌, refl, ◌||◌, some, List, [], ◌∷◌, str_eq, contains, arith}
use router_extra.Storage.{texts_of, items_of, read_texts, arr, insert_text, sort_texts}

texts_of-items_of : (ts : List String) → texts_of (items_of ts) ≡ some ts
unfolding texts_of items_of
texts_of-items_of [] = refl
texts_of-items_of (t ∷ ts) = rw (texts_of-items_of ts) refl

pub read_texts-arr : (ts : List String) → read_texts (arr (items_of ts)) ≡ some ts
unfolding read_texts
read_texts-arr ts = texts_of-items_of ts

contains-insert_text :
    (m t : String) (ts : List String)
    → contains m (insert_text t ts) ≡ (str_eq t m || contains m ts)
unfolding contains insert_text
contains-insert_text m t [] = refl
contains-insert_text m t (u ∷ us) = ground (arith, contains-insert_text m t us)

pub contains-sort_texts :
    (m : String) (ts : List String) → contains m (sort_texts ts) ≡ contains m ts
unfolding contains sort_texts
contains-sort_texts m [] = refl
contains-sort_texts m (t ∷ ts) =
    ground (arith, contains-insert_text m t (sort_texts ts), contains-sort_texts m ts)
