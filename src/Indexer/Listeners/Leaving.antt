-- ===== src/Indexer/Listeners/Leaving.antt =====
-- The end of an outstanding wait, and the counters.
use mathlib.Core.Path.{subst}
use rosetta_ergo.Base.{
  ℕ, zero, suc, ◌-◌, ◌<◌, pos, String, Bool, true, false, some, ◌≡◌, refl, ap, arith, Result, ok,
  Bool-cases, Option-cases, inl, inr, ◌==◌, eq_iff, eq_ℤ, if◌then◌else◌,
}
use rosetta_ergo.Base.GoMap.{get}
use rosetta_ergo.Indexer.WaitTable.{WaitTable, WaitTableEntry, lock}
use rosetta_ergo.Indexer.Fetching.{leave}
use rosetta_ergo.Indexer.Fetching.Waits.{left, leave_entry-left}
use rosetta_ergo.Indexer.Interleaving.Safe.{IsFree, leave-IsFree}
use rosetta_ergo.Indexer.Listeners.{Waits, World, one_less}
use rosetta_ergo.Indexer.Listeners.Counts.{Counted, CountsWaits, IsCounted}

-- One listener less, and one outstanding wait less.
Counted-left : (v : WaitTableEntry) (n : ℕ) → Counted (some v) n → Counted (left v) (n - 1)
Counted-left v zero (e, more) = absurd (omega arith)
Counted-left v (suc zero) (e, more) = rw e (omega arith)
Counted-left v (suc (suc n)) (e, more) =
    let others : eq_ℤ (pos (suc n)) (pos 0) ≡ false = ground arith in
    rw e (rw others (ap pos (omega arith), omega arith))

CountsWaits-left :
    (tx : String) (v : WaitTableEntry) (waits : Waits) (t t' : WaitTable)
    → get tx t.table ≡ some v
    → ((k : String) → get k t'.table ≡ (if tx == k then left v else get k t.table))
    → CountsWaits waits t
    → CountsWaits (one_less tx waits) t'
CountsWaits-left tx v waits t t' there entries h k = rw (entries k) (elim (Bool-cases (tx == k)) [
  | inl same ↦ rw same (
      subst (λ (j : String). Counted (left v) (waits j - 1)) ((eq_iff tx k).0 same)
        (Counted-left v (waits tx) (rw there at (h tx))))
  | inr other ↦ rw other (h k)
])

-- An outstanding wait has its entry.
pub entry_of_wait :
    (waits : Waits) (t : WaitTable) (tx : String)
    → CountsWaits waits t
    → 0 < waits tx
    → (v : WaitTableEntry) × (get tx t.table ≡ some v)
entry_of_wait waits t tx h more = elim (Option-cases (get tx t.table)) [
  | inl missing ↦ let none_left : waits tx ≡ 0 = rw missing at (h tx) in absurd (omega arith)
  | inr found ↦ found
]

pub leave-IsCounted :
    {DB : Type 0} (w : World DB) (tx : String) (v : WaitTableEntry)
    → get tx w.indexer.waiter.table ≡ some v
    → IsCounted w
    → (t : WaitTable) × (leave tx w.indexer.waiter ≡ (ok v.aborted, t))
      × IsCounted
          (record { indexer = record (w.indexer) { waiter = t }; waits = one_less tx w.waits })
unfolding leave lock
leave-IsCounted w tx v there c =
    let t₀ = w.indexer.waiter in
    let held : WaitTable = record t₀ { locked = true } in
    let (t, leaves, free, entries) = leave_entry-left tx v held refl in
    let run : leave tx t₀ ≡ (ok v.aborted, t) = rw (c.quiet.free, leave) (rw there (rw leaves)) in
    let is_free : IsFree t =
      subst (λ (r : Result Bool × WaitTable). IsFree r.1) run
        (leave-IsFree tx t₀ v c.quiet.free c.quiet.sound there) in
    (
      t,
      run,
      record {
        quiet = record { free = free; sound = is_free.sound };
        counted = CountsWaits-left tx v w.waits held t there entries c.counted;
      },
    )
