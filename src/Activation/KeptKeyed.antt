-- ===== src/Activation/KeptKeyed.antt =====
-- Every edit of the editor keeps the records of a store under their own ids, once each.
use router_extra.Prelude.{
  String, ◌≡◌, refl, inl, inr, false, List, [], ◌∷◌, arith, get, put, Option-cases,
}
use router_extra.Storage.{is_blank}
use router_extra.Combo.{StableCombo}
use router_extra.Activation.{ComboActivation}
use router_extra.Activation.Store.{
  ActivationStore, ensure, ensured, forget, prune_absent, seeded, named,
}
use router_extra.Activation.Session.{
  hydrate_activation, hydrate_from, sync_record, synced, StoreEdit, ensures, forgets, prunes,
  hydrates, syncs, edit, edit_all, HasId, AllHaveId,
}
use router_extra.Activation.Keyed.{IsKeyed, put-IsKeyed, delete_all-IsKeyed, get-IsKeyed}

ensured-combo_id :
    (id name : String) (server : List String) (m : List (String × ComboActivation))
    → IsKeyed m
    → (ensured id name server (get id m)).combo_id ≡ id
unfolding ensured seeded named
ensured-combo_id id name server m h = elim (Option-cases (get id m)) [
  | inl e ↦ rw e refl
  | inr (a, e) ↦ rw e (ground (arith, get-IsKeyed id a m h))
]

ensure-IsKeyed :
    (id name : String) (server : List String) (s : ActivationStore)
    → is_blank id ≡ false
    → IsKeyed s.records
    → IsKeyed (ensure id name server s).0.records
unfolding ensure
ensure-IsKeyed id name server s b h =
    put-IsKeyed id (ensured id name server (get id s.records)) s.records
      (ensured-combo_id id name server s.records h) b h

hydrate-IsKeyed :
    (server : List String) (updated : String) (c : StableCombo) (s : ActivationStore)
    → is_blank c.id ≡ false
    → IsKeyed s.records
    → IsKeyed (hydrate_activation server updated c s).1.records
unfolding hydrate_activation hydrate_from
hydrate-IsKeyed server updated c s b h = elim (Option-cases (get c.id s.records)) [
  | inl e ↦ rw e (ensure-IsKeyed c.id c.name server s b h)
  | inr (a, e) ↦ rw e (
      put-IsKeyed c.id (record a { combo_name = c.name }) s.records
        (get-IsKeyed c.id a s.records h e).0 b h)
]

pub sync_record-IsKeyed :
    (c : StableCombo) (verified : List String) (s : ActivationStore)
    → is_blank c.id ≡ false
    → IsKeyed s.records
    → IsKeyed (sync_record c verified s).records
unfolding sync_record ensure synced
sync_record-IsKeyed c verified s b h =
    put-IsKeyed c.id _ (put c.id (ensured c.id c.name verified (get c.id s.records)) s.records)
      (ensured-combo_id c.id c.name verified s.records h) b
      (ensure-IsKeyed c.id c.name verified s b h)

edit-IsKeyed :
    (e : StoreEdit) (s : ActivationStore) → HasId e → IsKeyed s.records → IsKeyed (edit e s).records
unfolding edit forget prune_absent
edit-IsKeyed (ensures id name server) s b h = ensure-IsKeyed id name server s b h
edit-IsKeyed (forgets id) s b h = delete_all-IsKeyed (id ∷ []) s.records h
edit-IsKeyed (prunes present) s b h = delete_all-IsKeyed _ s.records h
edit-IsKeyed (hydrates server updated c) s b h = hydrate-IsKeyed server updated c s b h
edit-IsKeyed (syncs c verified) s b h = sync_record-IsKeyed c verified s b h

pub edit_all-IsKeyed :
    (es : List StoreEdit) (s : ActivationStore)
    → AllHaveId es
    → IsKeyed s.records
    → IsKeyed (edit_all es s).records
unfolding edit_all
edit_all-IsKeyed [] s b h = h
edit_all-IsKeyed (e ∷ es) s b h = edit_all-IsKeyed es (edit e s) b.1 (edit-IsKeyed e s b.0 h)
