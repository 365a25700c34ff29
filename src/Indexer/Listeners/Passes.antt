-- ===== src/Indexer/Listeners/Passes.antt =====
-- The passes of `BlockSeen` and `BlockAdded` over the wait table, and the counters.
use mathlib.Core.Path.{subst}
use rosetta_ergo.Base.{
  ℤ, true, false, List, ◌≡◌, refl, arith, Result, ok, Bool-cases, inl, inr, contains,
}
use rosetta_ergo.Base.GoMap.{get, map_values, get-map_values, GoMap}
use rosetta_ergo.Sdk.{Transaction}
use rosetta_ergo.Indexer.WaitTable.{WaitTable, WaitTableEntry, lock, unlock}
use rosetta_ergo.Indexer.Handlers.{signal_txs, abort_waits, abort_entries}
use rosetta_ergo.Indexer.Handlers.Signals.{
  AllSound, signalled, hashes, signal_txs-Signals, aborted_by, abort_entries-aborted_by,
}
use rosetta_ergo.Indexer.Listeners.{with_waiter, Waits, World, guarded_by_lock}
use rosetta_ergo.Indexer.Listeners.Counts.{Counted-map_found, CountsWaits, IsCounted}

signalled-listeners : (v : WaitTableEntry) → (signalled v).listeners ≡ v.listeners
signalled-listeners v = ground arith

aborted_by-listeners :
    (index : ℤ) (v : WaitTableEntry) → (aborted_by index v).listeners ≡ v.listeners
aborted_by-listeners index v = ground arith

pub abort_waits-ok :
    (index : ℤ) (t : WaitTable) {m : GoMap WaitTableEntry}
    → abort_entries index t.table ≡ ok m
    → abort_waits index (record t { locked = true }) ≡ ok (record { table = m; locked = true })
unfolding abort_waits
abort_waits-ok index t pass = rw pass

-- A pass over the table under the lock, and what it leaves.
record Keeps (t t' : WaitTable) : Type 0 where
  counted : (waits : Waits) → CountsWaits waits t → CountsWaits waits t'
  free : t'.locked ≡ false
  sound : AllSound t'.table

pub guarded_by_lock-ok :
    (f : WaitTable → Result WaitTable) (t t₁ : WaitTable)
    → t.locked ≡ false
    → f (record t { locked = true }) ≡ ok t₁
    → t₁.locked ≡ true
    → guarded_by_lock f t ≡ ok (record t₁ { locked = false })
unfolding lock unlock
guarded_by_lock-ok f t t₁ free pass held = rw free (rw pass (rw held))

pass-Keeps :
    (f : WaitTable → Result WaitTable) (t t₁ t' : WaitTable)
    → t.locked ≡ false
    → f (record t { locked = true }) ≡ ok t₁
    → t₁.locked ≡ true
    → AllSound t₁.table
    → ((waits : Waits) → CountsWaits waits t → CountsWaits waits t₁)
    → guarded_by_lock f t ≡ ok t'
    → Keeps t t'
pass-Keeps f t t₁ t' free pass held sound counted run =
    let end : record t₁ { locked = false } ≡ t' =
      cc (guarded_by_lock-ok f t t₁ free pass held, run) in
    subst (Keeps t) end (record { counted = counted; free = refl; sound = sound })

module _ (t t' : WaitTable) (free : t.locked ≡ false) (sound : AllSound t.table) where
  signals-Keeps : (txs : List Transaction) → guarded_by_lock (signal_txs txs) t ≡ ok t' → Keeps t t'
  signals-Keeps txs run =
      let (t₁, pass, s) = signal_txs-Signals txs (record t { locked = true }) sound in
      pass-Keeps (signal_txs txs) t t₁ t' free pass s.same_lock s.sound
        (λ waits h k. rw (s.entries k) (elim (Bool-cases (contains (hashes txs) k)) [
          | inl seen ↦
              rw seen
                (Counted-map_found signalled (get k t.table) (waits k) signalled-listeners (h k))
          | inr other ↦ rw other (h k)
        ]))
        run

  aborts-Keeps : (index : ℤ) → guarded_by_lock (abort_waits index) t ≡ ok t' → Keeps t t'
  aborts-Keeps index run =
      let (pass, s) = abort_entries-aborted_by index t.table sound in
      pass-Keeps (abort_waits index) t
        (record { table = map_values (aborted_by index) t.table; locked = true }) t' free
        (abort_waits-ok index t pass) refl s
        (λ waits h k.
          rw (get-map_values (aborted_by index) k t.table)
            (Counted-map_found _ (get k t.table) (waits k) (aborted_by-listeners index) (h k)))
        run

pass-IsCounted :
    {DB : Type 0} (w : World DB) (t : WaitTable)
    → Keeps w.indexer.waiter t
    → IsCounted w
    → IsCounted (with_waiter w t)
pass-IsCounted w t k c = record {
  quiet = record { free = k.free; sound = k.sound };
  counted = k.counted w.waits c.counted;
}

pub signals-IsCounted :
    {DB : Type 0} (w : World DB) (txs : List Transaction) (t : WaitTable)
    → guarded_by_lock (signal_txs txs) w.indexer.waiter ≡ ok t
    → IsCounted w
    → IsCounted (with_waiter w t)
signals-IsCounted w txs t run c =
    pass-IsCounted w t (signals-Keeps w.indexer.waiter t c.quiet.free c.quiet.sound txs run) c

pub aborts-IsCounted :
    {DB : Type 0} (w : World DB) (index : ℤ) (t : WaitTable)
    → guarded_by_lock (abort_waits index) w.indexer.waiter ≡ ok t
    → IsCounted w
    → IsCounted (with_waiter w t)
aborts-IsCounted w index t run c =
    pass-IsCounted w t (aborts-Keeps w.indexer.waiter t c.quiet.free c.quiet.sound index run) c
