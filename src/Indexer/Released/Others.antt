-- ===== src/Indexer/Released/Others.antt =====
-- `BlockSeen` and `BlockAdded` of another goroutine, beside a call of `findCoins`.
use rosetta_ergo.Base.{ℕ, String, ◌≡◌, Result, ok, List, Option}
use rosetta_ergo.Sdk.{Block, BlockIdentifier}
use rosetta_ergo.Ergo.Inputs.{InputCtx}
use rosetta_ergo.Indexer.Storage.{Storage}
use rosetta_ergo.Indexer.Negative.{ensure_negative_value_inputs}
use rosetta_ergo.Indexer.Handlers.{block_seen, block_added}
use rosetta_ergo.Indexer.Fetching.Rounds.{Keeps}
use rosetta_ergo.Indexer.Listeners.Outstanding.{run-IsCounted}
use rosetta_ergo.Indexer.Listeners.Handled.{block_seen-Steps, block_added-Steps}
use rosetta_ergo.Indexer.Released.{IsReadable, Holds, same_Holds}

module _ (limit : ℕ) {DB : Type 0} (s : Storage DB) (negate_value : String → Result String)
    (genesis : BlockIdentifier) (hash : Option BlockIdentifier → String) (reads : IsReadable s)
    (mine : List InputCtx) where
  pub block_seen-Keeps :
      (b : Block)
      → ((db : DB) → (db' : DB) × (s.see_block b db ≡ (ok tt, db')))
      → Keeps (Holds limit mine) (λ i. (block_seen s negate_value (ok tt) b i).1)
  block_seen-Keeps b accepts i h =
      let (db', stored) = accepts i.db in
      let (i', run, steps) =
        block_seen-Steps s negate_value genesis hash h.waits b i db' h.is_counted.quiet stored in
      rw run (
        same_Holds limit mine i h i' (
          run-IsCounted s genesis hash reads.heads (λ db e f. (reads.foreign_head db e f).0) steps
            h.is_counted))

  pub block_added-Keeps :
      (given b : Block)
      → ensure_negative_value_inputs negate_value given ≡ (ok tt, b)
      → ((db : DB) → (db' : DB) × (s.add_block b db ≡ (ok tt, db')))
      → Keeps (Holds limit mine) (λ i. (block_added s negate_value given i).1)
  block_added-Keeps given b checked accepts i h =
      let (db', stored) = accepts i.db in
      let (i', run, steps) =
        block_added-Steps s negate_value genesis hash h.waits given b i db' h.is_counted.quiet
          checked stored in
      rw run (
        same_Holds limit mine i h i' (
          run-IsCounted s genesis hash reads.heads (λ db e f. (reads.foreign_head db e f).0) steps
            h.is_counted))
