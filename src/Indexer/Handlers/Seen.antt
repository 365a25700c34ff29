-- ===== src/Indexer/Handlers/Seen.antt =====
-- What `BlockSeen` leaves behind.
use rosetta_ergo.Base.{
  String, true, false, ◌≡◌, refl, Result, ok, inc64, contains, if◌then◌else◌, Among, [],
}
use rosetta_ergo.Base.GoMap.{get, map_found}
use rosetta_ergo.Sdk.{Block, Operation}
use rosetta_ergo.Indexer.Storage.{Storage}
use rosetta_ergo.Indexer.WaitTable.{WaitTable}
use rosetta_ergo.Indexer.State.{Indexer}
use rosetta_ergo.Indexer.Handlers.{block_seen, signal_txs, cache_txs}
use rosetta_ergo.Indexer.Handlers.Signals.{
  AllSound, signalled, hashes, signal_txs-Signals, under_lock,
}
use rosetta_ergo.Indexer.Handlers.Cache.{
  created_in, block_ops, Holds, get-cache_txs, cache_txs-Holds, cache_txs-forgets,
}

-- Nobody holds the wait table's lock, and its entries are sound.
pub record IsQuiet {DB : Type 0} (i : Indexer DB) : Type 0 where
  pub free : i.waiter.locked ≡ false
  pub sound : AllSound i.waiter.table

-- `i'` is `i` after the block was seen.
pub record HasSeen {DB : Type 0} (b : Block) (i i' : Indexer DB) : Type 0 where
  pub counted : i'.seen ≡ inc64 i.seen
  pub quiet : IsQuiet i'
  pub entries :
      (k : String)
      → get k i'.waiter.table ≡ (
          if contains (hashes b.transactions) k
          then map_found signalled (get k i.waiter.table)
          else get k i.waiter.table)
  pub cached :
      (k : String)
      → created_in k b.transactions ≡ true
      → (op : Operation) × Among op (block_ops b.transactions) × Holds k i'.coin_cache op
  pub fixed :
      (k : String)
      → created_in k b.transactions ≡ true
      → get k i'.coin_cache ≡ get k (cache_txs b.transactions [])
  pub kept :
      (k : String) → created_in k b.transactions ≡ false → get k i'.coin_cache ≡ get k i.coin_cache

module _ {DB : Type 0} (s : Storage DB) (negate_value : String → Result String) where
  -- From a table whose lock is free and whose closed flags are right, a block that the storage
  -- accepts is seen without a panic or a deadlock. Then every coin that the block creates is in
  -- the cache, as one of its operations created it, and the other cached coins are as before; the
  -- channel is closed of every wait for one of the block's transactions, and all other waits are
  -- as before; `seen` is one higher, the lock is free, and the closed flags are right again.
  pub block_seen-HasSeen :
      (b : Block) (i : Indexer DB) (db' : DB)
      → IsQuiet i
      → s.see_block b i.db ≡ (ok tt, db')
      → (i' : Indexer DB) × (block_seen s negate_value (ok tt) b i ≡ (ok tt, i'))
        × (i'.db ≡ db')
        × HasSeen b i i'
  unfolding block_seen
  block_seen-HasSeen b i db' q stored =
      let locked : WaitTable = record i.waiter { locked = true } in
      let waiting : Indexer DB = record {
        coin_cache = cache_txs b.transactions i.coin_cache;
        waiter = i.waiter;
        seen = inc64 i.seen;
        db = db';
      } in
      let (t, signals, h) = signal_txs-Signals b.transactions locked q.sound in
      (
        record {
          coin_cache = cache_txs b.transactions i.coin_cache;
          waiter = record t { locked = false };
          seen = inc64 i.seen;
          db = db';
        },
        rw stored (under_lock (signal_txs b.transactions) waiting t q.free signals h.same_lock),
        refl,
        record {
          counted = refl;
          quiet = record { free = refl; sound = h.sound };
          entries = h.entries;
          cached = λ k c. cache_txs-Holds k b.transactions i.coin_cache c;
          fixed = λ k c. cache_txs-forgets k b.transactions i.coin_cache [] c;
          kept = λ k c. get-cache_txs k b.transactions i.coin_cache c;
        },
      )
