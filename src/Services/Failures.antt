-- ===== src/Services/Failures.antt =====
-- The errors of the endpoints of pkg/services, taken together.
pub mod Each
use rosetta_ergo.Base.{
  ℕ, String, Option, none, some, List, [], ◌∷◌, Result, ok, err, panics, blocks, ◌≡◌, refl, sym, ap,
  inl, inr, Among, eq_iff, ◌≢◌, Bool, true, false, ◌==◌, Bool-cases, length, ltb, Err, map,
}
use rosetta_ergo.Sdk.{
  RosettaError, AccountIdentifier, BlockIdentifier, PartialBlockIdentifier, TransactionIdentifier,
  Transaction,
}
use rosetta_ergo.Errutil.{
  errors, err_unable_to_get_balance, err_unable_to_get_coins, err_block_not_found,
  err_transaction_not_found, err_ergo_node, err_not_ready, err_unavailable_offline, wrap_err,
}
use rosetta_ergo.Config.{Configuration, online}
use rosetta_ergo.Ergo.Types.{Peer}
use rosetta_ergo.Ergo.Client.{Client, get_node_info, get_unconfirmed_txs, get_connected_peers}
use rosetta_ergo.Ergo.Inputs.{get_inputs_for_txs}
use rosetta_ergo.Rosetta.Converter.{new_block_converter, tx_to_rosetta_tx}
use rosetta_ergo.Indexer.Storage.{Storage, BlockResponse}
use rosetta_ergo.Services.Response.{Response, response, failure, crashes, or_fail}
use rosetta_ergo.Services.Response.Announced.{
  IsListed, FailsListed, response-FailsListed, >>=-eq-response, >>=-FailsListed,
  or_fail-FailsListed, when_online-FailsListed, when_online_refused,
}
use rosetta_ergo.Services.Account.{
  AccountBalanceRequest, get_balance, account_balance, account_coins,
}
use rosetta_ergo.Services.Block.{
  tx_fetch_limit, fetch_txs, with_transactions, block_endpoint, block_transaction,
}
use rosetta_ergo.Services.Mempool.{
  tx_identifiers, find_requested, find_coins_for_mempool_tx, mempool, mempool_transaction,
  or_not_found,
}
use rosetta_ergo.Services.Network.{
  NetworkOptionsResponse, convert_peers, network_options, network_status, or_not_ready,
}
use rosetta_ergo.Services.Failures.Each.{
  account_balance-FailsListed, account_coins-FailsListed, block_endpoint-FailsListed,
  block_transaction-FailsListed, mempool-FailsListed, mempool_transaction-FailsListed,
  network_status-FailsListed,
}

listed : Response NetworkOptionsResponse → List RosettaError
listed (response options) = options.allow.errors
listed (failure e) = []
listed crashes = []

options-errors :
    (rosetta_version : String) (cfg : Configuration) (e : Client) (options : NetworkOptionsResponse)
    → network_options rosetta_version cfg e ≡ response options
    → options.allow.errors ≡ errors
unfolding network_options listed
options-errors rosetta_version cfg e options h =
    let (node_info, got, answer) = >>=-eq-response (or_fail err_ergo_node (get_node_info e)) _ h in
    sym (ap listed answer)

module _ {DB Metadata : Type 0} (s : Storage DB) (cfg : Configuration) (db : DB) (reads : ℕ → DB)
    (e : Client) (negate_value : String → Result String)
    (marshal_map : Peer → Result Metadata) where
  -- What the endpoints that read the chain answer to a request of each.
  abbrev pub AllFailListed :
      List RosettaError
      → AccountBalanceRequest
      → AccountIdentifier
      → Option PartialBlockIdentifier
      → BlockIdentifier
      → TransactionIdentifier
      → Type 0
  AllFailListed listed request account id block tx =
      FailsListed listed (account_balance s cfg db request)
      × FailsListed listed (account_coins s cfg db account)
      × FailsListed listed (block_endpoint s cfg reads id)
      × FailsListed listed (block_transaction s cfg db block tx)
      × FailsListed listed (mempool s cfg reads e negate_value)
      × FailsListed listed (mempool_transaction s cfg reads e negate_value tx)
      × FailsListed listed (network_status marshal_map s cfg db e)

  -- If /network/options answers, then an error of any other endpoint that reads the chain is one
  -- of the errors that the answer lists, with its code, message and `retriable`, whatever the storage
  -- and the node say.
  pub options_list_errors :
      (rosetta_version : String) (options : NetworkOptionsResponse)
      (request : AccountBalanceRequest) (account : AccountIdentifier)
      (id : Option PartialBlockIdentifier) (block : BlockIdentifier) (tx : TransactionIdentifier)
      → network_options rosetta_version cfg e ≡ response options
      → AllFailListed options.allow.errors request account id block tx
  options_list_errors rosetta_version options request account id block tx h =
      rw (options-errors rosetta_version cfg e options h) (
        account_balance-FailsListed s cfg db request,
        account_coins-FailsListed s cfg db account,
        block_endpoint-FailsListed s cfg db reads id,
        block_transaction-FailsListed s cfg db block tx,
        mempool-FailsListed s cfg db reads e negate_value,
        mempool_transaction-FailsListed s cfg db reads e negate_value tx,
        network_status-FailsListed s cfg db marshal_map e,
      )
