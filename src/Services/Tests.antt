-- ===== src/Services/Tests.antt =====
-- The theorems on the endpoints, with the sample node and the sample storage.
use rosetta_ergo.Base.{
  ℕ, suc, pos, true, false, String, none, [], ◌∷◌, Result, ok, ◌≡◌, refl, contains,
}
use rosetta_ergo.Base.GoMap.{get, put}
use rosetta_ergo.Decimal.{parse_int}
use rosetta_ergo.Sdk.{Amount, Transaction}
use rosetta_ergo.Ergo.Types.{Peer}
use rosetta_ergo.Ergo.Constants.{erg_currency, operation_statuses, operation_types}
use rosetta_ergo.Ergo.Client.{get_node_info, get_unconfirmed_txs}
use rosetta_ergo.Ergo.Inputs.{get_inputs_for_txs}
use rosetta_ergo.Rosetta.Converter.{new_block_converter, tx_to_rosetta_tx}
use rosetta_ergo.Errutil.{errors}
use rosetta_ergo.Config.{Configuration, online}
use rosetta_ergo.Indexer.Storage.{BlockResponse}
use rosetta_ergo.Services.Response.{response}
use rosetta_ergo.Services.Account.{AccountBalanceRequest, AccountBalanceResponse, account_balance}
use rosetta_ergo.Services.Account.Answer.{IsBalance, account_balance-IsBalance}
use rosetta_ergo.Services.Block.{block_endpoint}
use rosetta_ergo.Services.Block.Inline.{IsAnswer, block_endpoint-IsAnswer}
use rosetta_ergo.Services.Mempool.{mempool_transaction}
use rosetta_ergo.Services.Mempool.Confirmed.{IsConfirmed, mempool_transaction-IsConfirmed}
use rosetta_ergo.Services.Network.{NetworkOptionsResponse, network_options}
use rosetta_ergo.Services.Failures.{AllFailListed, options_list_errors}
use rosetta_ergo.Samples.{
  negate, client, storage, block, head, first_tx, stored_transaction, owned_coin, first_boxes,
  has_boxes,
}

abbrev configuration : String → Configuration
configuration mode = record {
  mode = mode;
  version = "0.1";
  network = record { blockchain = "Ergo"; network = "mainnet" };
  currency = erg_currency;
  genesis_block_identifier = head;
  rosetta_port = pos 8080;
  node_port = pos 9053;
  indexer_path = "";
  genesis_utxos = [];
  bootstrap_balances = [];
  node_config_path = "node.conf";
}

abbrev marshal_map : Peer → Result String
marshal_map p = ok p.address

abbrev request : AccountBalanceRequest
request = record { account_identifier = record { address = "alice" }; block_identifier = none }

abbrev answer : BlockResponse
answer = record {
  block = record block { transactions = stored_transaction ∷ [] };
  other_transactions = [];
}

-- The storage has not seen the account.
abbrev balance_answer : AccountBalanceResponse
balance_answer = record {
  block_identifier = block.block_identifier;
  balances = record { value = "0"; currency = erg_currency } ∷ [];
}

answers_balance : account_balance storage (configuration online) 0 request ≡ response balance_answer
unfolding account_balance
answers_balance = refl

account_balance-IsBalance_example :
    ((configuration online).mode ≡ online)
    × (found : BlockResponse) × (amount : Amount) × (storage.get_block_lazy 0 none ≡ ok found)
    × (block.block_identifier ≡ found.block.block_identifier)
    × (balance_answer.balances ≡ amount ∷ [])
    × IsBalance erg_currency
        (storage.get_balance 0
          (record { address = "alice" })
          erg_currency
          found.block.block_identifier.index)
        amount
account_balance-IsBalance_example =
    account_balance-IsBalance storage (configuration online) 0 request balance_answer
      answers_balance

-- The database between the reads of a request, where nothing is added to it.
abbrev reads : ℕ → ℕ
reads n = 0

answers : block_endpoint storage (configuration online) reads none ≡ response answer
unfolding block_endpoint
answers = refl

block_endpoint-IsAnswer_example :
    (configuration online).mode ≡ online
    × (found : BlockResponse) × (storage.get_block_lazy 0 none ≡ ok found)
    × IsAnswer storage (λ n. reads (suc n)) found answer
block_endpoint-IsAnswer_example =
    block_endpoint-IsAnswer storage (configuration online) reads none answer answers

abbrev options : NetworkOptionsResponse
options = record {
  version = record {
    rosetta_version = "1.4.10";
    node_version = "4.0.8";
    middleware_version = "0.1";
  };
  allow = record {
    operation_statuses = operation_statuses;
    operation_types = operation_types;
    errors = errors;
    historical_balance_lookup = true;
    mempool_coins = false;
  };
}

lists : network_options "1.4.10" (configuration online) client ≡ response options
unfolding network_options get_node_info
lists = refl

options_list_errors_example :
    AllFailListed storage
      (configuration online)
      0
      reads
      client
      negate
      marshal_map
      errors
      request
      (record { address = "alice" })
      none
      head
      (record { hash = "t1" })
options_list_errors_example =
    options_list_errors storage (configuration online) 0 reads client negate marshal_map "1.4.10"
      options request (record { address = "alice" }) none head (record { hash = "t1" }) lists

abbrev transaction : Transaction
transaction =
    elim (tx_to_rosetta_tx client negate (new_block_converter (("b0", owned_coin) ∷ [])) first_tx) [
      | ok t ↦ t
      | _ ↦ stored_transaction
    ]

unconfirmed : get_unconfirmed_txs client ≡ ok (first_tx ∷ [])
unfolding get_unconfirmed_txs
unconfirmed = refl

is_answered :
    mempool_transaction storage (configuration online) reads client negate (record { hash = "t1" })
    ≡ response transaction
unfolding mempool_transaction get_unconfirmed_txs get_inputs_for_txs tx_to_rosetta_tx negate
    parse_int get put contains
is_answered = refl

mempool_transaction-IsConfirmed_example :
    IsConfirmed storage
      (configuration online)
      reads
      client
      negate
      (first_tx ∷ [])
      (first_boxes ∷ [])
      "t1"
      transaction
mempool_transaction-IsConfirmed_example =
    mempool_transaction-IsConfirmed storage (configuration online) reads client negate
      (record { hash = "t1" }) (first_tx ∷ []) (first_boxes ∷ []) transaction unconfirmed
      (has_boxes.0, tt) is_answered
