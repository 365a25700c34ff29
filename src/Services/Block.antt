-- ===== src/Services/Block.antt =====
-- pkg/services/block.go. Every read of the storage opens a database transaction of its own, so a
-- request of /block meets a list of states of the database: its n-th read, from 0, sees `reads n`.
pub mod Inline
use rosetta_ergo.Base.{ℕ, suc, String, List, [], ◌∷◌, Option, Result, length, ltb, if◌then◌else◌}
use rosetta_ergo.Sdk.{BlockIdentifier, PartialBlockIdentifier, Transaction, TransactionIdentifier}
use rosetta_ergo.Errutil.{err_block_not_found, err_transaction_not_found}
use rosetta_ergo.Config.{Configuration}
use rosetta_ergo.Indexer.Storage.{Storage, BlockResponse}
use rosetta_ergo.Services.Response.{Response, response, ◌>>=◌, or_fail, when_online}

abbrev pub tx_fetch_limit : ℕ
tx_fetch_limit = 100

module _ {DB : Type 0} (s : Storage DB) (cfg : Configuration) where
  unfoldable pub fetch_txs :
      (ℕ → DB) → BlockIdentifier → List TransactionIdentifier → Response (List Transaction)
  fetch_txs reads block [] = response []
  fetch_txs reads block (other_tx ∷ others) = do
    transaction ←
        or_fail err_transaction_not_found (s.get_block_transaction (reads 0) block other_tx)
    transactions ← fetch_txs (λ n. reads (suc n)) block others
    response (transaction ∷ transactions)

  -- The transactions come with the block if they are few, and by their identifiers if not.
  unfoldable pub with_transactions : (ℕ → DB) → BlockResponse → Response BlockResponse
  unfolding fetch_txs
  with_transactions reads found =
      if ltb tx_fetch_limit (length found.other_transactions) then response found else (do
        txs ← fetch_txs reads found.block.block_identifier found.other_transactions
        response (record {
          block = record (found.block) { transactions = txs };
          other_transactions = [];
        }))

  unfoldable pub block_endpoint : (ℕ → DB) → Option PartialBlockIdentifier → Response BlockResponse
  unfolding with_transactions
  block_endpoint reads id = when_online cfg do
    found ← or_fail err_block_not_found (s.get_block_lazy (reads 0) id)
    with_transactions (λ n. reads (suc n)) found

  unfoldable pub block_transaction :
      DB → BlockIdentifier → TransactionIdentifier → Response Transaction
  block_transaction db block tx =
      when_online cfg do or_fail err_transaction_not_found (s.get_block_transaction db block tx)
