-- ===== src/Services/Failures/Each.antt =====
-- The errors of each endpoint of pkg/services.
use rosetta_ergo.Base.{
  ℕ, suc, String, Option, none, some, List, [], ◌∷◌, Result, ok, err, panics, blocks, refl, inl,
  inr, Among, get_elem?→Among, Bool-cases, length, ltb,
}
use rosetta_ergo.Sdk.{
  AccountIdentifier, BlockIdentifier, PartialBlockIdentifier, TransactionIdentifier,
}
use rosetta_ergo.Errutil.{
  errors, err_unable_to_get_balance, err_unable_to_get_coins, err_block_not_found,
  err_transaction_not_found, err_ergo_node, err_not_ready,
}
use rosetta_ergo.Config.{Configuration}
use rosetta_ergo.Ergo.Types.{Peer}
use rosetta_ergo.Ergo.Client.{Client, get_unconfirmed_txs, get_connected_peers}
use rosetta_ergo.Ergo.Inputs.{get_inputs_for_txs}
use rosetta_ergo.Rosetta.Converter.{new_block_converter, tx_to_rosetta_tx}
use rosetta_ergo.Indexer.Storage.{Storage, BlockResponse}
use rosetta_ergo.Services.Response.{or_fail}
use rosetta_ergo.Services.Response.Announced.{
  wrap_err-IsListed, FailsListed, response-FailsListed, >>=-FailsListed, or_fail-FailsListed,
  when_online-FailsListed,
}
use rosetta_ergo.Services.Account.{
  AccountBalanceRequest, get_balance, account_balance, account_coins,
}
use rosetta_ergo.Services.Block.{
  tx_fetch_limit, fetch_txs, with_transactions, block_endpoint, block_transaction,
}
use rosetta_ergo.Services.Mempool.{
  tx_identifiers, find_requested, find_coins_for_mempool_tx, mempool, mempool_transaction,
  or_not_found,
}
use rosetta_ergo.Services.Network.{convert_peers, network_status, or_not_ready}

balance_listed : Among err_unable_to_get_balance errors
balance_listed = get_elem?→Among errors 18 err_unable_to_get_balance refl

coins_listed : Among err_unable_to_get_coins errors
coins_listed = get_elem?→Among errors 15 err_unable_to_get_coins refl

tx_listed : Among err_transaction_not_found errors
tx_listed = get_elem?→Among errors 16 err_transaction_not_found refl

block_listed : Among err_block_not_found errors
block_listed = get_elem?→Among errors 4 err_block_not_found refl

node_listed : Among err_ergo_node errors
node_listed = get_elem?→Among errors 3 err_ergo_node refl

or_not_found-FailsListed {ℓ} : {A : Type ℓ} (o : Option A) → FailsListed errors (or_not_found o)
unfolding FailsListed
or_not_found-FailsListed none = wrap_err-IsListed err_transaction_not_found none tx_listed
or_not_found-FailsListed (some a) = tt

or_not_ready-FailsListed {ℓ} : {A : Type ℓ} (r : Result A) → FailsListed errors (or_not_ready r)
unfolding FailsListed
or_not_ready-FailsListed (ok a) = tt
or_not_ready-FailsListed (err e) =
    wrap_err-IsListed err_not_ready none (get_elem?→Among errors 2 err_not_ready refl)
or_not_ready-FailsListed panics = tt
or_not_ready-FailsListed blocks = tt

module _ {DB : Type 0} (s : Storage DB) (cfg : Configuration) (db : DB) where
  pub account_balance-FailsListed :
      (request : AccountBalanceRequest) → FailsListed errors (account_balance s cfg db request)
  unfolding account_balance
  account_balance-FailsListed request = when_online-FailsListed cfg _ (
      >>=-FailsListed
        (or_fail err_unable_to_get_balance
          (get_balance s cfg db request.account_identifier cfg.currency request.block_identifier))
        _
        (or_fail-FailsListed err_unable_to_get_balance
          (get_balance s cfg db request.account_identifier cfg.currency request.block_identifier)
          balance_listed)
        (λ (a, b). response-FailsListed _))

  pub account_coins-FailsListed :
      (account : AccountIdentifier) → FailsListed errors (account_coins s cfg db account)
  unfolding account_coins
  account_coins-FailsListed account = when_online-FailsListed cfg _ (
      >>=-FailsListed (or_fail err_unable_to_get_coins (s.get_coins db account)) _
        (or_fail-FailsListed err_unable_to_get_coins (s.get_coins db account) coins_listed)
        (λ (a, b). response-FailsListed _))

  pub fetch_txs-FailsListed :
      (reads : ℕ → DB) (block : BlockIdentifier) (others : List TransactionIdentifier)
      → FailsListed errors (fetch_txs s cfg reads block others)
  unfolding fetch_txs
  fetch_txs-FailsListed reads block [] = response-FailsListed []
  fetch_txs-FailsListed reads block (other_tx ∷ others) =
      >>=-FailsListed
        (or_fail err_transaction_not_found (s.get_block_transaction (reads 0) block other_tx)) _
        (or_fail-FailsListed err_transaction_not_found
          (s.get_block_transaction (reads 0) block other_tx) tx_listed)
        (λ t.
          >>=-FailsListed _ _ (fetch_txs-FailsListed (λ n. reads (suc n)) block others)
            (λ ts. response-FailsListed _))

  pub with_transactions-FailsListed :
      (reads : ℕ → DB) (found : BlockResponse)
      → FailsListed errors (with_transactions s cfg reads found)
  unfolding with_transactions
  with_transactions-FailsListed reads found =
      elim (Bool-cases (ltb tx_fetch_limit (length found.other_transactions))) [
        | inl many ↦ rw many (response-FailsListed _)
        | inr few ↦
            rw few
              (>>=-FailsListed _ _ (fetch_txs-FailsListed reads _ _) (λ ts. response-FailsListed _))
      ]

  pub block_endpoint-FailsListed :
      (reads : ℕ → DB) (id : Option PartialBlockIdentifier)
      → FailsListed errors (block_endpoint s cfg reads id)
  unfolding block_endpoint
  block_endpoint-FailsListed reads id = when_online-FailsListed cfg _ (
      >>=-FailsListed (or_fail err_block_not_found (s.get_block_lazy (reads 0) id)) _
        (or_fail-FailsListed err_block_not_found (s.get_block_lazy (reads 0) id) block_listed)
        (λ found. with_transactions-FailsListed _ found))

  pub block_transaction-FailsListed :
      (block : BlockIdentifier) (tx : TransactionIdentifier)
      → FailsListed errors (block_transaction s cfg db block tx)
  unfolding block_transaction
  block_transaction-FailsListed block tx =
      when_online-FailsListed cfg _ (or_fail-FailsListed err_transaction_not_found _ tx_listed)

  module _ (reads : ℕ → DB) (e : Client) (negate_value : String → Result String) where
    pub mempool-FailsListed : FailsListed errors (mempool s cfg reads e negate_value)
    unfolding mempool
    mempool-FailsListed = when_online-FailsListed cfg _ (
        >>=-FailsListed (or_fail err_ergo_node (get_unconfirmed_txs e)) _
          (or_fail-FailsListed err_ergo_node (get_unconfirmed_txs e) node_listed)
          (λ txs. or_fail-FailsListed err_ergo_node (tx_identifiers txs) node_listed))

    pub mempool_transaction-FailsListed :
        (id : TransactionIdentifier)
        → FailsListed errors (mempool_transaction s cfg reads e negate_value id)
    unfolding mempool_transaction
    mempool_transaction-FailsListed id = when_online-FailsListed cfg _ (
        >>=-FailsListed (or_fail err_ergo_node (get_unconfirmed_txs e)) _
          (or_fail-FailsListed err_ergo_node (get_unconfirmed_txs e) node_listed)
          (λ txs.
            >>=-FailsListed (or_fail err_ergo_node (find_requested id.hash none txs)) _
              (or_fail-FailsListed err_ergo_node (find_requested id.hash none txs) node_listed)
              (λ requested.
                >>=-FailsListed (or_not_found requested) _ (or_not_found-FailsListed requested)
                  (λ tx.
                    >>=-FailsListed
                      (or_fail err_unable_to_get_coins (get_inputs_for_txs (some txs))) _
                      (or_fail-FailsListed err_unable_to_get_coins (get_inputs_for_txs (some txs))
                        coins_listed)
                      (λ inputs.
                        >>=-FailsListed
                          (or_fail err_unable_to_get_coins
                            (find_coins_for_mempool_tx s reads [] inputs))
                          _
                          (or_fail-FailsListed err_unable_to_get_coins
                            (find_coins_for_mempool_tx s reads [] inputs) coins_listed)
                          (λ coins.
                            or_fail-FailsListed err_ergo_node
                              (tx_to_rosetta_tx e negate_value (new_block_converter coins) tx)
                              node_listed))))))

  pub network_status-FailsListed :
      {Metadata : Type 0} (marshal_map : Peer → Result Metadata) (e : Client)
      → FailsListed errors (network_status marshal_map s cfg db e)
  unfolding network_status
  network_status-FailsListed marshal_map e = when_online-FailsListed cfg _ (
      >>=-FailsListed (or_fail err_ergo_node (get_connected_peers e)) _
        (or_fail-FailsListed err_ergo_node (get_connected_peers e) node_listed)
        (λ connected.
          >>=-FailsListed (or_fail err_ergo_node (convert_peers marshal_map connected)) _
            (or_fail-FailsListed err_ergo_node (convert_peers marshal_map connected) node_listed)
            (λ peers.
              >>=-FailsListed (or_not_ready (s.get_block_lazy db none)) _
                (or_not_ready-FailsListed (s.get_block_lazy db none))
                (λ cached. response-FailsListed _))))
