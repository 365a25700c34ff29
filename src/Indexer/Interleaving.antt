-- ===== src/Indexer/Interleaving.antt =====
-- The runs of the indexer of pkg/indexer/indexer.go: the syncer's calls of `BlockSeen`,
-- `BlockAdded` and `BlockRemoved`, and the rounds of `findCoin` and the ends of waits of the
-- goroutines that fetch blocks, in any order. A call of a handler is one step; a round of `findCoin`
-- has other steps in it, between its read of the storage and its look into the cache.
pub mod Safe
pub mod Tests
use rosetta_ergo.Base.{String, Bool, Option, some, List, Result, ok, ◌≡◌}
use rosetta_ergo.Base.GoMap.{get}
use rosetta_ergo.Sdk.{Block, BlockIdentifier}
use rosetta_ergo.Ergo.Types.{BlockHeader}
use rosetta_ergo.Ergo.Inputs.{InputCtx}
use rosetta_ergo.Indexer.Storage.{Storage}
use rosetta_ergo.Indexer.WaitTable.{WaitTableEntry}
use rosetta_ergo.Indexer.State.{Indexer}
use rosetta_ergo.Indexer.Handlers.{block_seen, block_added, block_removed}
use rosetta_ergo.Indexer.Waiting.{find_coin_round}
use rosetta_ergo.Indexer.Fetching.{leave}

module _ {DB : Type 0} (s : Storage DB) (negate_value : String → Result String)
    (genesis : BlockIdentifier) (hash : Option BlockIdentifier → String) where
  -- What leads from one state to another. A wait ends here only while its entry is in the table.
  pub data Run : Indexer DB → Indexer DB → Type 0 where
    start : (i : Indexer DB) → Run i i
    sees :
        {i j : Indexer DB} → Run i j → (b : Block) → Run i (block_seen s negate_value (ok tt) b j).1
    adds : {i j : Indexer DB} → Run i j → (b : Block) → Run i (block_added s negate_value b j).1
    removes :
        {i j : Indexer DB}
        → Run i j
        → (id : BlockIdentifier) → Run i (block_removed s negate_value id j).1
    searches :
        {i j k l : Indexer DB}
        → Run i j
        → Run j k
        → Run k l
        → (header : BlockHeader) → (ctx : InputCtx)
        → Run i (find_coin_round s genesis hash header ctx (λ x. k) (λ x. l) j).1
    leaves :
        {i j : Indexer DB}
        → Run i j
        → (tx_hash : String) → (v : WaitTableEntry) → get tx_hash j.waiter.table ≡ some v
        → Run i (record j { waiter = (leave tx_hash j.waiter).1 })
