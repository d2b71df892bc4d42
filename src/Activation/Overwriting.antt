-- ===== src/Activation/Overwriting.antt =====
-- What becomes of a file that could not be read once.
use router_extra.Prelude.{
  String, ◌≡◌, ◌≢◌, refl, ap, true, false, none, some, List, [], ◌∷◌, arith, eq_iff, get, get-put,
}
use router_extra.Storage.{Json, Content, Disk, Faults, is_blank, write_file, io_error}
use router_extra.Combo.{StableCombo}
use router_extra.Activation.{ComboActivation}
use router_extra.Activation.Store.{
  ActivationStore, save, open_store, load, load_file, empty_store, ensure,
}
use router_extra.Activation.Session.{sync_record, synced}
use router_extra.Activation.KeptKeyed.{sync_record-IsKeyed}
use router_extra.Activation.Durable.{reopened, restore_all, open_store-save}

get-restore_all-none :
    (id : String) (m : List (String × ComboActivation))
    → get id m ≡ none
    → get id (restore_all m) ≡ none
unfolding get restore_all
get-restore_all-none id [] e = refl
get-restore_all-none id ((k, a) ∷ rest) e = ground (arith, get-restore_all-none id rest)

unfoldable unread : ActivationStore
unfolding empty_store
unread = record { records = []; load_state = io_error; quarantined = false }

open_store-unreadable :
    (repr : Json → String) (f : Faults) (c : Content) (d : Disk)
    → d.file ≡ some c
    → f.unreadable ≡ true
    → open_store repr f d ≡ some (unread, d)
unfolding open_store load load_file empty_store unread
open_store-unreadable repr f c d h r = ground (arith, ap (λ o. load_file repr f o empty_store d) h)

get-sync_unread :
    (id : String) (c : StableCombo) (verified : List String)
    → id ≢ c.id
    → get id (sync_record c verified unread).records ≡ none
unfolding sync_record ensure unread get
get-sync_unread id c verified n = ground (
  arith,
  eq_iff c.id id,
  get-put c.id id (synced c verified (ensure c.id c.name verified unread).1)
      (ensure c.id c.name verified unread).0.records,
  get-put c.id id (ensure c.id c.name verified unread).1 [],
)

-- A file that could not be read once is overwritten by the next save, whatever it held: after one
-- more combo is recorded and the store saved, the next session that can read the file knows of no
-- other combo, and the quarantine is as it was.
pub unreadable_overwritten :
    (repr : Json → String) (f g : Faults) (c : Content) (d : Disk) (combo : StableCombo)
    (verified : List String)
    → d.file ≡ some c
    → f.unreadable ≡ true
    → g.unreadable ≡ false
    → is_blank combo.id ≡ false
    → (s : ActivationStore) × (open_store repr f d ≡ some (s, d))
      × (let saved = (save none (sync_record combo verified s) d).0 in
          (saved.quarantine ≡ d.quarantine)
          × ((next : ActivationStore) × (open_store repr g saved ≡ some (next, saved))
              × ((id : String) → id ≢ combo.id → get id next.records ≡ none)))
unfolding save write_file reopened unread
unreadable_overwritten repr f g c d combo verified h r w b = (
  unread,
  open_store-unreadable repr f c d h r,
  (
    refl,
    (
      reopened (sync_record combo verified unread),
      open_store-save repr g (sync_record combo verified unread) d w
          (sync_record-IsKeyed combo verified unread b tt),
      λ id n.
          get-restore_all-none id (sync_record combo verified unread).records
            (get-sync_unread id combo verified n),
    ),
  ),
)
