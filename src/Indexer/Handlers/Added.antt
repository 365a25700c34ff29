-- ===== src/Indexer/Handlers/Added.antt =====
-- What `BlockAdded` leaves behind, alone and after `BlockSeen` of the same block.
use rosetta_ergo.Base.{String, true, false, ◌≡◌, refl, arith, Result, ok, if◌then◌else◌, none}
use rosetta_ergo.Base.GoMap.{get, map_values, map_found, get-map_values}
use rosetta_ergo.Sdk.{Block}
use rosetta_ergo.Indexer.Storage.{Storage}
use rosetta_ergo.Indexer.State.{Indexer}
use rosetta_ergo.Indexer.Negative.{ensure_negative_value_inputs}
use rosetta_ergo.Indexer.Handlers.{block_seen, block_added, abort_waits, uncache_txs}
use rosetta_ergo.Indexer.Handlers.Signals.{aborted_by, abort_entries-aborted_by, under_lock}
use rosetta_ergo.Indexer.Handlers.Cache.{created_in, get-uncache_txs}
use rosetta_ergo.Indexer.Handlers.Seen.{IsQuiet, block_seen-HasSeen}

-- `i'` is `i` after the block was added.
pub record HasAdded {DB : Type 0} (b : Block) (i i' : Indexer DB) : Type 0 where
  pub uncounted : i'.seen ≡ i.seen
  pub quiet : IsQuiet i'
  pub entries :
      (k : String)
      → get k i'.waiter.table
        ≡ map_found (aborted_by b.block_identifier.index) (get k i.waiter.table)
  pub cache :
      (k : String)
      → get k i'.coin_cache ≡ (if created_in k b.transactions then none else get k i.coin_cache)

module _ {DB : Type 0} (s : Storage DB) (negate_value : String → Result String) where
  -- From a table whose lock is free and whose closed flags are right, a block whose amounts pass
  -- the check and that the storage accepts is added without a panic or a deadlock. Then no coin
  -- that the block creates is cached and the other cached coins are as before; each wait whose
  -- earliest block is the next one and whose channel was open is aborted and its channel closed,
  -- all other waits are as before; the lock is free and the closed flags are right again.
  pub block_added-HasAdded :
      (given b : Block) (i : Indexer DB) (db' : DB)
      → IsQuiet i
      → ensure_negative_value_inputs negate_value given ≡ (ok tt, b)
      → s.add_block b i.db ≡ (ok tt, db')
      → (i' : Indexer DB) × (block_added s negate_value given i ≡ (ok tt, i'))
        × (i'.db ≡ db')
        × HasAdded b i i'
  unfolding block_added abort_waits
  block_added-HasAdded given b i db' q checked stored =
      let table = map_values (aborted_by b.block_identifier.index) i.waiter.table in
      let (aborts, sound) =
        abort_entries-aborted_by b.block_identifier.index i.waiter.table q.sound in
      let emptied : Indexer DB = record {
        coin_cache = uncache_txs b.transactions i.coin_cache;
        waiter = i.waiter;
        seen = i.seen;
        db = db';
      } in
      (
        record emptied { waiter = record { table = table; locked = false } },
        rw checked (
            rw stored (
              under_lock (abort_waits b.block_identifier.index) emptied
                (record { table = table; locked = true }) q.free (rw aborts) refl)),
        refl,
        record {
          uncounted = refl;
          quiet = record { free = refl; sound = sound };
          entries = λ k. get-map_values (aborted_by b.block_identifier.index) k i.waiter.table;
          cache = λ k. get-uncache_txs k b.transactions i.coin_cache;
        },
      )

  -- A block that is seen and then added, as `b` each time, leaves in the cache exactly the coins
  -- that were there and that it does not create.
  pub block_seen-block_added :
      (b : Block) (i i' : Indexer DB) (db₁ db₂ : DB)
      → IsQuiet i
      → s.see_block b i.db ≡ (ok tt, db₁)
      → ensure_negative_value_inputs negate_value b ≡ (ok tt, b)
      → s.add_block b db₁ ≡ (ok tt, db₂)
      → block_seen s negate_value (ok tt) b i ≡ (ok tt, i')
      → (i'' : Indexer DB) × (block_added s negate_value b i' ≡ (ok tt, i''))
        × ((k : String)
            → get k i''.coin_cache
              ≡ (if created_in k b.transactions then none else get k i.coin_cache))
  block_seen-block_added b i i' db₁ db₂ q seen checked added run =
      let (i₁, run₁, db, s₁) = block_seen-HasSeen s negate_value b i db₁ q seen in
      let same : i₁ ≡ i' = cc (run₁, run) in
      let added' : s.add_block b i₁.db ≡ (ok tt, db₂) = rw db added in
      let (i₂, run₂, _, a₁) = block_added-HasAdded b b i₁ db₂ s₁.quiet checked added' in
      (i₂, rw (← same) run₂, λ k. ground (arith, a₁.cache k, s₁.kept k))
