-- ===== src/Services/Mempool.antt =====
-- pkg/services/mempool.go. Each input of a request opens a read transaction of its own, which may see
-- another state of the database: the n-th read, from 0, sees `reads n`.
pub mod Requested
pub mod Confirmed
use rosetta_ergo.Base.{
  ℕ, suc, String, Bool, List, [], ◌∷◌, Option, none, some, Result, ok, err, panics, blocks, Err,
  coin_not_found, is_error, wrap, str, deref, ◌==◌, if◌then◌else◌,
}
use rosetta_ergo.Base
use rosetta_ergo.Base.GoMap.{GoMap, put}
use rosetta_ergo.Sdk.{AccountCoin, Transaction, TransactionIdentifier}
use rosetta_ergo.Ergo.Types.{ErgoTransaction}
use rosetta_ergo.Ergo.Inputs.{InputCtx, get_inputs_for_txs}
use rosetta_ergo.Ergo.Client.{Client, get_unconfirmed_txs}
use rosetta_ergo.Rosetta.Converter.{new_block_converter, tx_to_rosetta_tx}
use rosetta_ergo.Errutil.{
  err_ergo_node, err_transaction_not_found, err_unable_to_get_coins, wrap_err,
}
use rosetta_ergo.Config.{Configuration}
use rosetta_ergo.Indexer.Storage.{Storage}
use rosetta_ergo.Services.Response.{Response, response, failure, ◌>>=◌, or_fail, when_online}

-- A nil id panics.
unfoldable pub tx_identifiers : List ErgoTransaction → Result (List TransactionIdentifier)
tx_identifiers [] = ok []
tx_identifiers (tx ∷ txs) =
    Base.◌>>=◌ (deref tx.id)
      λ id. Base.◌>>=◌ (tx_identifiers txs) λ ids. ok (record { hash = id } ∷ ids)

-- The last transaction with that id, if there is one.
unfoldable pub find_requested :
    String → Option ErgoTransaction → List ErgoTransaction → Result (Option ErgoTransaction)
find_requested hash requested [] = ok requested
find_requested hash requested (tx ∷ txs) =
    Base.◌>>=◌ (deref tx.id)
      λ id. find_requested hash (if id == hash then some tx else requested) txs

module _ {DB : Type 0} (s : Storage DB) where
  -- A coin that the storage does not have is left out.
  abbrev pub coin_or_skip :
      String → GoMap AccountCoin → Result AccountCoin → Result (GoMap AccountCoin)
  coin_or_skip id coin_map (ok coin) = ok (put id coin coin_map)
  coin_or_skip id coin_map (err e) =
      if is_error e coin_not_found
      then ok coin_map
      else err (wrap e "%w: unable to lookup coin %s" (str id ∷ []))
  coin_or_skip id coin_map panics = panics
  coin_or_skip id coin_map blocks = blocks

  abbrev pub stored_coin : DB → String → Result AccountCoin
  stored_coin db id =
      Base.◌>>=◌ (s.get_coin db id)
        λ (coin, owner). ok (record { account = some owner; coin = coin })

  unfoldable pub find_coins_for_mempool_tx :
      (ℕ → DB) → GoMap AccountCoin → List InputCtx → Result (GoMap AccountCoin)
  find_coins_for_mempool_tx reads coin_map [] = ok coin_map
  find_coins_for_mempool_tx reads coin_map (ctx ∷ inputs) =
      Base.◌>>=◌ (coin_or_skip ctx.input_id coin_map (stored_coin (reads 0) ctx.input_id))
        λ coin_map'. find_coins_for_mempool_tx (λ n. reads (suc n)) coin_map' inputs

-- `if requestedTx == nil { return nil, errutil.WrapErr(ErrTransactionNotFound, err) }`, where
-- `err` is nil.
abbrev pub or_not_found {ℓ} : {A : Type ℓ} → Option A → Response A
or_not_found none = failure (wrap_err err_transaction_not_found none)
or_not_found (some a) = response a

module _ {DB : Type 0} (s : Storage DB) (cfg : Configuration) (reads : ℕ → DB) (e : Client)
    (negate_value : String → Result String) where
  unfoldable pub mempool : Response (List TransactionIdentifier)
  unfolding tx_identifiers
  mempool = when_online cfg do
    txs ← or_fail err_ergo_node (get_unconfirmed_txs e)
    or_fail err_ergo_node (tx_identifiers txs)

  unfoldable pub mempool_transaction : TransactionIdentifier → Response Transaction
  unfolding find_requested find_coins_for_mempool_tx
  mempool_transaction id = when_online cfg do
    txs ← or_fail err_ergo_node (get_unconfirmed_txs e)
    requested ← or_fail err_ergo_node (find_requested id.hash none txs)
    requested_tx ← or_not_found requested
    input_coins ← or_fail err_unable_to_get_coins (get_inputs_for_txs (some txs))
    account_coins ←
        or_fail err_unable_to_get_coins (find_coins_for_mempool_tx s reads [] input_coins)
    or_fail err_ergo_node
        (tx_to_rosetta_tx e negate_value (new_block_converter account_coins) requested_tx)
