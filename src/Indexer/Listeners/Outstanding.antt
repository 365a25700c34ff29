-- ===== src/Indexer/Listeners/Outstanding.antt =====
-- The wait table and the outstanding waits, after any run.
use rosetta_ergo.Base.{
  ◌<◌, String, Bool, Option, ◌≡◌, refl, ok, err, Err, missing_transaction, is_error, Answers, false,
}
use rosetta_ergo.Base.GoMap.{get}
use rosetta_ergo.Sdk.{BlockIdentifier}
use rosetta_ergo.Indexer.Storage.{Storage}
use rosetta_ergo.Indexer.WaitTable.{WaitTable}
use rosetta_ergo.Indexer.State.{Indexer}
use rosetta_ergo.Indexer.Fetching.{leave}
use rosetta_ergo.Indexer.Listeners.{
  World, Step, caches, counts, stores, signals, uncaches, aborts, looks, leaves, Steps, none_yet,
  then_step, new_world, one_less,
}
use rosetta_ergo.Indexer.Listeners.Counts.{IsCounted}
use rosetta_ergo.Indexer.Listeners.Passes.{signals-IsCounted, aborts-IsCounted}
use rosetta_ergo.Indexer.Listeners.Looks.{lock_and_decide-IsCounted}
use rosetta_ergo.Indexer.Listeners.Leaving.{entry_of_wait, leave-IsCounted}

-- A step that leaves the wait table alone.
same_waits :
    {DB : Type 0} (w : World DB) (i : Indexer DB)
    → i.waiter ≡ w.indexer.waiter
    → IsCounted w
    → IsCounted (record w { indexer = i })
same_waits w i e c = record {
  quiet = record { free = rw e c.quiet.free; sound = rw e c.quiet.sound };
  counted = rw e c.counted;
}

module _ {DB : Type 0} (s : Storage DB) (genesis : BlockIdentifier)
    (hash : Option BlockIdentifier → String)
    (heads : (db : DB) → Answers (s.get_head_block_identifier db))
    (foreign : (db : DB) (e : Err)
      → s.get_head_block_identifier db ≡ err e
      → is_error e missing_transaction ≡ false) where
  Step-IsCounted : {w u : World DB} → Step s genesis hash w u → IsCounted w → IsCounted u
  Step-IsCounted (caches w txs) c = same_waits w _ refl c
  Step-IsCounted (counts w) c = same_waits w _ refl c
  Step-IsCounted (stores w db) c = same_waits w _ refl c
  Step-IsCounted (signals w txs t run) c = signals-IsCounted w txs t run c
  Step-IsCounted (uncaches w txs) c = same_waits w _ refl c
  Step-IsCounted (aborts w index t run) c = aborts-IsCounted w index t run c
  Step-IsCounted (looks w header ctx start_seen coin_head small) c =
      lock_and_decide-IsCounted s genesis hash heads foreign w header ctx start_seen coin_head small
        c
  Step-IsCounted (leaves w tx more) c =
      let (v, there) = entry_of_wait w.waits w.indexer.waiter tx c.counted more in
      let (t, run, c') = leave-IsCounted w tx v there c in rw run c'

  pub run-IsCounted : {w u : World DB} → Steps s genesis hash w u → IsCounted w → IsCounted u
  run-IsCounted none_yet c = c
  run-IsCounted (then_step r step) c = Step-IsCounted step (run-IsCounted r c)

  -- The counters of the wait table implement the outstanding waits. Where the storage's reads of
  -- the head return, and never with the indexer's own `errMissingTransaction`: whatever the order
  -- of the small steps of the handlers and of the goroutines that fetch blocks, from a new indexer
  -- on, the lock is free, the closed flags are right, and a transaction has an entry in the table
  -- exactly while a wait for it is outstanding, with their number as its counter. So an
  -- outstanding wait that ends finds its entry, gives the lock back, and leaves all this as it is.
  pub Steps-IsCounted :
      (db : DB) (w : World DB)
      → Steps s genesis hash (new_world db) w
      → IsCounted w
        × ((tx : String)
            → 0 < w.waits tx
            → (aborted : Bool) × (t : WaitTable) × (leave tx w.indexer.waiter ≡ (ok aborted, t))
              × IsCounted (record {
                indexer = record (w.indexer) { waiter = t };
                waits = one_less tx w.waits;
              }))
  Steps-IsCounted db w r =
      let start : IsCounted (new_world db) = record {
        quiet = record { free = refl; sound = tt };
        counted = λ k. unfold get in refl;
      } in
      let c = run-IsCounted r start in
      (
        c,
        λ tx more.
            let (v, there) = entry_of_wait w.waits w.indexer.waiter tx c.counted more in
            let (t, run, c') = leave-IsCounted w tx v there c in (v.aborted, t, run, c'),
      )
