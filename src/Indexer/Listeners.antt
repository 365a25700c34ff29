-- ===== src/Indexer/Listeners.antt =====
-- The runs of pkg/indexer/indexer.go in small steps: each access to the shared state of the
-- indexer is a step of its own, by whichever goroutine, and what the wait table's lock guards is
-- one. The reads of `findCoin` before it takes the lock change nothing: what it read then,
-- `start_seen` and `coin_head`, is any value.
-- A wait is outstanding from the `errMissingTransaction` of `findCoin` until `findCoins` has left
-- the entry; one whose goroutine gives up stays outstanding. Their number for each transaction
-- is what the counters of the wait table are about, and no part of the program.
pub mod Counts
pub mod Passes
pub mod Looks
pub mod Leaving
pub mod Outstanding
pub mod Handled
pub mod Tests
use rosetta_ergo.Base.{
  ℕ, suc, ◌-◌, ◌<◌, ℤ, String, Bool, true, false, Option, List, Result, ok, err, panics, blocks,
  missing_transaction, is_error, inc64, max_int64, ◌==◌, ◌≡◌, ◌>>=◌, if◌then◌else◌,
}
use rosetta_ergo.Sdk.{BlockIdentifier, Transaction}
use rosetta_ergo.Ergo.Types.{BlockHeader}
use rosetta_ergo.Ergo.Inputs.{InputCtx}
use rosetta_ergo.Indexer.Storage.{Storage}
use rosetta_ergo.Indexer.WaitTable.{WaitTable, lock, unlock}
use rosetta_ergo.Indexer.State.{Indexer, init_indexer}
use rosetta_ergo.Indexer.Handlers.{cache_txs, uncache_txs, signal_txs, abort_waits}
use rosetta_ergo.Indexer.Waiting.{Round, again, returns, lock_and_decide}
use rosetta_ergo.Indexer.Fetching.{leave}

-- How many waits are outstanding for each transaction.
abbrev pub Waits : Type 0
Waits = String → ℕ

abbrev pub no_waits : Waits
no_waits tx = 0

abbrev pub one_more : String → Waits → Waits
one_more tx waits k = if tx == k then suc (waits k) else waits k

abbrev pub one_less : String → Waits → Waits
one_less tx waits k = if tx == k then waits k - 1 else waits k

pub record World (DB : Type 0) : Type 0 where
  pub indexer : Indexer DB
  pub waits : Waits

-- What `findCoins` tests the error of `findCoin` for.
abbrev pub has_joined : Round → Bool
has_joined again = false
has_joined (returns (ok coin)) = false
has_joined (returns (err e)) = is_error e missing_transaction
has_joined (returns panics) = false
has_joined (returns blocks) = false

-- The steps between `Lock` and `Unlock`.
abbrev pub guarded_by_lock : (WaitTable → Result WaitTable) → WaitTable → Result WaitTable
guarded_by_lock f t = lock t >>= λ held. f held >>= λ t'. unlock t'

module _ {DB : Type 0} where
  abbrev pub with_waiter : World DB → WaitTable → World DB
  with_waiter w t = record w { indexer = record (w.indexer) { waiter = t } }

  abbrev pub after_look : World DB → String → Round × Indexer DB → World DB
  after_look w tx (r, i) = record {
    indexer = i;
    waits = if has_joined r then one_more tx w.waits else w.waits;
  }

  module _ (s : Storage DB) (genesis : BlockIdentifier)
      (hash : Option BlockIdentifier → String) where
    pub data Step : World DB → World DB → Type 0 where
      -- `BlockSeen` fills the cache, and then counts the block.
      caches :
          (w : World DB) (txs : List Transaction)
          → Step w (record w {
            indexer = record (w.indexer) { coin_cache = cache_txs txs w.indexer.coin_cache };
          })
      counts :
          (w : World DB)
          → Step w (record w { indexer = record (w.indexer) { seen = inc64 w.indexer.seen } })
      -- A call of the storage, by whichever handler.
      stores :
          (w : World DB) (db : DB) → Step w (record w { indexer = record (w.indexer) { db = db } })
      signals :
          (w : World DB) (txs : List Transaction) (t : WaitTable)
          → guarded_by_lock (signal_txs txs) w.indexer.waiter ≡ ok t
          → Step w (with_waiter w t)
      -- `BlockAdded` empties the cache, and then aborts the waits of the next block.
      uncaches :
          (w : World DB) (txs : List Transaction)
          → Step w (record w {
            indexer = record (w.indexer) { coin_cache = uncache_txs txs w.indexer.coin_cache };
          })
      aborts :
          (w : World DB) (index : ℤ) (t : WaitTable)
          → guarded_by_lock (abort_waits index) w.indexer.waiter ≡ ok t
          → Step w (with_waiter w t)
      -- The end of a round of `findCoin` that did not find the coin, from the lock on. A waiting goroutine has a
      -- stack, so the waits for a transaction are fewer than the counter can hold.
      looks :
          (w : World DB) (header : BlockHeader) (ctx : InputCtx) (start_seen : ℤ)
          (coin_head : Option BlockIdentifier)
          → w.waits ctx.tx_id < max_int64
          → Step w (
              after_look w ctx.tx_id
                (lock_and_decide s genesis hash header ctx start_seen coin_head w.indexer))
      -- The end of an outstanding wait.
      leaves :
          (w : World DB) (tx : String)
          → 0 < w.waits tx
          → Step w (record {
            indexer = record (w.indexer) { waiter = (leave tx w.indexer.waiter).1 };
            waits = one_less tx w.waits;
          })

    pub data Steps (w : World DB) : World DB → Type 0 where
      none_yet : Steps w w
      then_step : {v u : World DB} → Steps w v → Step v u → Steps w u

abbrev pub new_world : {DB : Type 0} → DB → World DB
new_world db = record { indexer = init_indexer db; waits = no_waits }
