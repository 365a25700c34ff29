-- ===== src/Indexer/Interleaving/Tests.antt =====
-- A run in which a block is seen, a coin is waited for, and the block is added.
use rosetta_ergo.Base.{ℕ, pos, String, ok, ◌≡◌, Answers, arith}
use rosetta_ergo.Sdk.{Block}
use rosetta_ergo.Indexer.State.{Indexer, init_indexer}
use rosetta_ergo.Indexer.Handlers.{block_seen, block_added}
use rosetta_ergo.Indexer.Handlers.Seen.{IsQuiet}
use rosetta_ergo.Indexer.Waiting.{find_coin_round}
use rosetta_ergo.Indexer.Interleaving.{Run, start, sees, adds, searches}
use rosetta_ergo.Indexer.Interleaving.Safe.{Run-from_init}
use rosetta_ergo.Samples.{negate, storage, head, hash_of, block, header}

abbrev last : Indexer ℕ
last =
    (block_added storage negate block
      (find_coin_round storage head hash_of (header "h3" "h2" (pos 3))
        (record { tx_id = "t8"; input_id = "b8" })
        (λ i. (block_seen storage negate (ok tt) block (init_indexer 0)).1)
        (λ i. (block_seen storage negate (ok tt) block (init_indexer 0)).1)
        (block_seen storage negate (ok tt) block (init_indexer 0)).1).1).1

run : Run storage negate head hash_of (init_indexer 0) last
run =
    adds
      (searches (sees (start (init_indexer 0)) block) (start _) (start _) (header "h3" "h2" (pos 3))
        (record { tx_id = "t8"; input_id = "b8" }))
      block

heads : (db : ℕ) → Answers (storage.get_head_block_identifier db)
heads db = tt

coins : (db : ℕ) (id : String) → Answers (storage.get_coin db id)
coins db id = ground arith

Run-from_init_example :
    IsQuiet last
    × ((b : Block) (db' : ℕ)
        → storage.see_block b last.db ≡ (ok tt, db')
        → (i' : Indexer ℕ) × (block_seen storage negate (ok tt) b last ≡ (ok tt, i')))
Run-from_init_example = Run-from_init storage negate head hash_of heads coins 0 last run
