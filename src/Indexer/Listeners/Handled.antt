-- ===== src/Indexer/Listeners/Handled.antt =====
-- The operations of pkg/indexer/indexer.go, run with nothing in between, are sequences of steps.
use rosetta_ergo.Base.{true, false, ◌≡◌, refl, Result, ok, inc64, String, Option}
use rosetta_ergo.Base.GoMap.{map_values}
use rosetta_ergo.Sdk.{Block, BlockIdentifier}
use rosetta_ergo.Indexer.Storage.{Storage}
use rosetta_ergo.Indexer.State.{Indexer}
use rosetta_ergo.Indexer.Negative.{ensure_negative_value_inputs}
use rosetta_ergo.Indexer.Handlers.{
  block_seen, block_added, cache_txs, uncache_txs, signal_txs, abort_waits,
}
use rosetta_ergo.Indexer.Handlers.Signals.{
  signal_txs-Signals, aborted_by, abort_entries-aborted_by, under_lock,
}
use rosetta_ergo.Indexer.Handlers.Seen.{IsQuiet}
use rosetta_ergo.Indexer.Listeners.{
  Waits, World, caches, counts, stores, signals, uncaches, aborts, Steps, none_yet, then_step,
}
use rosetta_ergo.Indexer.Listeners.Passes.{guarded_by_lock-ok, abort_waits-ok}

module _ {DB : Type 0} (s : Storage DB) (negate_value : String → Result String)
    (genesis : BlockIdentifier) (hash : Option BlockIdentifier → String) (waits : Waits) where
  abbrev world : Indexer DB → World DB
  world i = record { indexer = i; waits = waits }

  -- A seen block that the storage accepts is a sequence of steps: the coins are cached, the block
  -- is counted and stored, and then the waits are signalled.
  pub block_seen-Steps :
      (b : Block) (i : Indexer DB) (db' : DB)
      → IsQuiet i
      → s.see_block b i.db ≡ (ok tt, db')
      → (i' : Indexer DB) × (block_seen s negate_value (ok tt) b i ≡ (ok tt, i'))
        × Steps s genesis hash (world i) (world i')
  unfolding block_seen
  block_seen-Steps b i db' q stored =
      let cached : Indexer DB = record i { coin_cache = cache_txs b.transactions i.coin_cache } in
      let counted : Indexer DB = record cached { seen = inc64 i.seen } in
      let kept : Indexer DB = record counted { db = db' } in
      let (t, signalled, h) =
        signal_txs-Signals b.transactions (record i.waiter { locked = true }) q.sound in
      (
        record kept { waiter = record t { locked = false } },
        rw stored (under_lock (signal_txs b.transactions) kept t q.free signalled h.same_lock),
        then_step
            (then_step
              (then_step (then_step none_yet (caches (world i) b.transactions))
                (counts (world cached)))
              (stores (world counted) db'))
            (signals (world kept) b.transactions (record t { locked = false })
              (guarded_by_lock-ok (signal_txs b.transactions) i.waiter t q.free signalled
                h.same_lock)),
      )

  -- An added block that passes the check and that the storage accepts is one too: the block is
  -- stored, its coins leave the cache, and then the waits of the next block are aborted.
  pub block_added-Steps :
      (given b : Block) (i : Indexer DB) (db' : DB)
      → IsQuiet i
      → ensure_negative_value_inputs negate_value given ≡ (ok tt, b)
      → s.add_block b i.db ≡ (ok tt, db')
      → (i' : Indexer DB) × (block_added s negate_value given i ≡ (ok tt, i'))
        × Steps s genesis hash (world i) (world i')
  unfolding block_added
  block_added-Steps given b i db' q checked stored =
      let index = b.block_identifier.index in
      let table = map_values (aborted_by index) i.waiter.table in
      let (aborted, sound) = abort_entries-aborted_by index i.waiter.table q.sound in
      let kept : Indexer DB = record i { db = db' } in
      let emptied : Indexer DB = record kept {
        coin_cache = uncache_txs b.transactions i.coin_cache;
      } in
      let pass = abort_waits-ok index i.waiter aborted in
      (
        record emptied { waiter = record { table = table; locked = false } },
        rw checked (
            rw stored (
              under_lock (abort_waits index) emptied (record { table = table; locked = true })
                q.free pass refl)),
        then_step
            (then_step (then_step none_yet (stores (world i) db'))
              (uncaches (world kept) b.transactions))
            (aborts (world emptied) index (record { table = table; locked = false })
              (guarded_by_lock-ok (abort_waits index) i.waiter
                (record { table = table; locked = true }) q.free pass refl)),
      )
