-- ===== src/Indexer/Fetching/Waits.antt =====
-- How a wait of `findCoins` ends, by what is in the wait table then.
use rosetta_ergo.Base.{
  pos, String, Bool, true, false, Option, none, some, List, ◌∷◌, ◌≡◌, ap, refl, arith, Result, ok,
  dec64, eq_ℤ, Bool-cases, inl, inr, ◌==◌, if◌then◌else◌,
}
use rosetta_ergo.Base.GoMap.{get, put, delete, get-put, get-delete}
use rosetta_ergo.Indexer.WaitTable.{
  WaitTable, WaitTableEntry, lock, unlock, get_entry, set_entry, delete_entry,
}
use rosetta_ergo.Indexer.State.{Indexer}
use rosetta_ergo.Indexer.Fetching.{Wake, leave_entry, leave, wait_for}

-- The entry when one of its listeners has left it.
abbrev pub left : WaitTableEntry → Option WaitTableEntry
left v =
    if eq_ℤ (dec64 v.listeners) (pos 0)
    then none
    else some (record v { listeners = dec64 v.listeners })

-- A wait for `tx_hash` that starts with the lock free and its entry in the table, and that the
-- channel ends, with the lock free again.
pub record IsWoken {DB : Type 0} (tx_hash : String) (i : Indexer DB) (w : Wake DB) : Type 0 where
  pub entry : WaitTableEntry
  pub is_entry : get tx_hash i.waiter.table ≡ some entry
  pub free : i.waiter.locked ≡ false
  pub closed : w.cancelled ≡ false
  pub free' : (w.others i).waiter.locked ≡ false

pub leave_entry-left :
    (tx_hash : String) (v : WaitTableEntry) (t : WaitTable)
    → t.locked ≡ true
    → (t' : WaitTable) × (leave_entry tx_hash v t ≡ ok t')
      × (t'.locked ≡ false)
      × ((k : String) → get k t'.table ≡ (if tx_hash == k then left v else get k t.table))
unfolding leave_entry set_entry delete_entry unlock
leave_entry-left tx_hash v t held = elim (Bool-cases (eq_ℤ (dec64 v.listeners) (pos 0))) [
  | inl last ↦ (
    record { table = delete tx_hash t.table; locked = false },
    rw (last, leave_entry) (rw held),
    refl,
    λ k. ground (arith, get-delete tx_hash k t.table),
  )
  | inr more ↦ (
    record {
      table = put tx_hash (record v { listeners = dec64 v.listeners }) t.table;
      locked = false;
    },
    rw (more, leave_entry) (rw held),
    refl,
    λ k. ground (arith, get-put tx_hash k (record v { listeners = dec64 v.listeners }) t.table),
  )
]

module _ {DB : Type 0} where
  entry_found :
      (tx_hash : String) (i : Indexer DB) (w : Wake DB) (h : IsWoken tx_hash i w)
      → get_entry tx_hash true i.waiter ≡ ok (some h.entry)
  unfolding get_entry
  entry_found tx_hash i w h = rw (h.is_entry, get_entry) (simp h.free)

  wait_for-woken :
      (tx_hash : String) (i : Indexer DB) (w : Wake DB) (wakes : List (Wake DB)) (r : Result Bool)
      (t : WaitTable)
      → IsWoken tx_hash i w
      → leave tx_hash (w.others i).waiter ≡ (r, t)
      → wait_for tx_hash (w ∷ wakes) i ≡ (r, record (w.others i) { waiter = t }, wakes)
  unfolding wait_for
  wait_for-woken tx_hash i w wakes r t h leaves =
      rw (entry_found tx_hash i w h, wait_for)
        (rw h.closed (ap (λ x. (x.0, record (w.others i) { waiter = x.1 }, wakes)) leaves))

  -- A wait that ends while its entry is in the table tells whether the entry was aborted, and gives
  -- the lock back: the entry has one listener less and is deleted with the last one, and the other
  -- entries are as the others left them.
  pub wait_for-left :
      (tx_hash : String) (i : Indexer DB) (w : Wake DB) (wakes : List (Wake DB))
      (v : WaitTableEntry)
      → IsWoken tx_hash i w
      → get tx_hash (w.others i).waiter.table ≡ some v
      → (t : WaitTable) × (wait_for tx_hash (w ∷ wakes) i
          ≡ (ok v.aborted, record (w.others i) { waiter = t }, wakes))
        × (t.locked ≡ false)
        × ((k : String)
            → get k t.table ≡ (if tx_hash == k then left v else get k (w.others i).waiter.table))
  unfolding wait_for get_entry leave lock
  wait_for-left tx_hash i w wakes v h there =
      let held : WaitTable = record (w.others i).waiter { locked = true } in
      let (t, leaves, free, entries) = leave_entry-left tx_hash v held refl in
      let leaves' : leave tx_hash (w.others i).waiter ≡ (ok v.aborted, t) =
        rw (h.free', leave) (rw there (rw leaves)) in
      (t, wait_for-woken tx_hash i w wakes (ok v.aborted) t h leaves', free, entries)
