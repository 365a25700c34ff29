-- ===== src/Indexer/Blocks.antt =====
-- `Block` of pkg/indexer/indexer.go, which the syncer calls for a block: fetch it from the node with
-- retries, find the coins that it spends, convert it and check it.
pub mod Retries
pub mod Converts
pub mod Tests
use rosetta_ergo.Base.{
  ℕ, suc, ℤ, String, Option, none, some, List, [], ◌∷◌, Result, ok, err, panics, blocks, wrap,
  wrap_with, deref, ltb, ◌>>=◌, ◌>>◌, if◌then◌else◌,
}
use rosetta_ergo.Sdk.{Block, BlockIdentifier, PartialBlockIdentifier, AccountCoin}
use rosetta_ergo.Base.GoMap.{GoMap}
use rosetta_ergo.Ergo.Types.{FullBlock}
use rosetta_ergo.Ergo.Client.{Client, get_block_by_id, get_block_by_index}
use rosetta_ergo.Ergo.Inputs.{InputCtx, get_inputs_for_txs}
use rosetta_ergo.Rosetta.Converter.{new_block_converter, block_to_rosetta_block}
use rosetta_ergo.Indexer.Storage.{Storage}
use rosetta_ergo.Indexer.State.{Indexer}
use rosetta_ergo.Indexer.Fetching.{Attempt, find_coins}

abbrev pub retry_limit : ℕ
retry_limit = 5

-- One round of the loop: the node as it answers then, and what the sleep after a failure returns.
pub record Try : Type 0 where
  pub node : Client
  pub slept : Result (Unit {0})

abbrev pub fetch_by_hash : Client → Option String → Result (Option FullBlock)
fetch_by_hash e none = ok none
fetch_by_hash e (some hash) = do block ← get_block_by_id e hash; ok (some block)

-- The index counts where both are given.
abbrev pub fetch_by_index : Client → Option FullBlock → Option ℤ → Result (Option FullBlock)
fetch_by_index e block none = ok block
fetch_by_index e block (some index) = do found ← get_block_by_index e index; ok (some found)

unfoldable pub get_block_by_identifier : Client → PartialBlockIdentifier → Result (Option FullBlock)
get_block_by_identifier e id = do block ← fetch_by_hash e id.hash; fetch_by_index e block id.index

-- `ergo.GetInputsForTxs(ergoBlock.BlockTransactions.Transactions)`
unfoldable pub required_inputs : Option FullBlock → Result (List InputCtx)
required_inputs block = do
  b ← deref block
  txs ← deref b.block_transactions
  get_inputs_for_txs txs.transactions

-- The loop, which leaves the block nil when the context is cancelled before a round. The identifier
-- that the error prints is not kept.
unfoldable pub fetch_block :
    PartialBlockIdentifier → ℕ → List Try → Result (Option FullBlock × List InputCtx)
unfolding get_block_by_identifier required_inputs
fetch_block id retries [] = ok (none, [])
fetch_block id retries (t ∷ tries) =
    let rest = fetch_block id (suc retries) tries in
    elim (get_block_by_identifier t.node id) [
      | ok block ↦ do inputs ← required_inputs block; ok (block, inputs)
      | err e ↦
          if ltb retry_limit (suc retries)
          then err (wrap e "%w: unable to get raw block %+v" [])
          else t.slept >>= λ u. rest
      | panics ↦ panics
      | blocks ↦ blocks
    ]

module _ (e : Client) (negate_value : String → Result String)
    (check : Block → Result (Unit {0})) where
  -- `check` is the library's `asserter.Block`.
  unfoldable pub convert_checked : GoMap AccountCoin → Option FullBlock → Result Block
  convert_checked coin_map ergo_block = do
    b ← deref ergo_block
    (block, c) ← block_to_rosetta_block e negate_value (new_block_converter coin_map) b
    wrap_with "%w: block is not valid %+v" [] (check block)
    ok block

  -- What follows the call of `findCoins`.
  abbrev pub convert_found :
      {DB : Type 0}
      → Option FullBlock
      → Result (GoMap AccountCoin) × Indexer DB
      → Result Block × Indexer DB
  convert_found ergo_block (ok coin_map, i) = (convert_checked coin_map ergo_block, i)
  convert_found ergo_block (err e, i) = (err (wrap e "findCoins failed: %w" []), i)
  convert_found ergo_block (panics, i) = (panics, i)
  convert_found ergo_block (blocks, i) = (blocks, i)

  module _ {DB : Type 0} (s : Storage DB) (genesis : BlockIdentifier)
      (hash : Option BlockIdentifier → String) where
    unfoldable pub block :
        List Try
        → List (Attempt DB)
        → PartialBlockIdentifier
        → Indexer DB
        → Result Block × Indexer DB
    unfolding fetch_block convert_checked
    block tries attempts id i = elim (fetch_block id 0 tries) [
      | ok (ergo_block, inputs) ↦
          convert_found ergo_block (find_coins s genesis hash ergo_block attempts inputs i)
      | err x ↦ (err x, i)
      | panics ↦ (panics, i)
      | blocks ↦ (blocks, i)
    ]
