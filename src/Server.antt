-- ===== src/Server.antt =====
-- `NewBlockchainRouter` of pkg/server/router.go, with the constructors of the services in
-- pkg/services: one handler for each endpoint. The controllers of rosetta-sdk-go, which check a
-- request before they pass it on, are left out.
-- The command passes a nil client and a nil storage when it is offline, both at once. The handlers
-- are the same ones then: a request of the nil client and a read of the nil storage panic.
pub mod Offline
use rosetta_ergo.Base.{ℕ, String, List, Option, none, some, Result, panics}
use rosetta_ergo.Sdk.{
  AccountIdentifier, BlockIdentifier, NetworkIdentifier, PartialBlockIdentifier, Transaction,
  TransactionIdentifier,
}
use rosetta_ergo.Ergo.Types.{Peer}
use rosetta_ergo.Ergo.Client.{Client, Network}
use rosetta_ergo.Config.{Configuration}
use rosetta_ergo.Indexer.Storage.{Storage, BlockResponse}
use rosetta_ergo.Services.Response.{Response}
use rosetta_ergo.Services.Account.{
  AccountBalanceRequest, AccountBalanceResponse, AccountCoinsResponse, account_balance,
  account_coins,
}
use rosetta_ergo.Services.Block.{block_endpoint, block_transaction}
use rosetta_ergo.Services.Mempool.{mempool, mempool_transaction}
use rosetta_ergo.Services.Network.{
  NetworkOptionsResponse, NetworkStatusResponse, network_list, network_options, network_status,
}

-- The node client and the opened storage, as the services hold them, and the states of the database
-- at the reads of a request: the n-th read, from 0, sees `reads n`.
pub record Dependencies (DB : Type 0) : Type 0 where
  pub client : Client
  pub storage : Storage DB
  pub reads : ℕ → DB

pub record Router (Metadata : Type 0) : Type 0 where
  pub list : Response (List NetworkIdentifier)
  pub options : Response NetworkOptionsResponse
  pub status : Response (NetworkStatusResponse Metadata)
  pub block : Option PartialBlockIdentifier → Response BlockResponse
  pub block_transaction : BlockIdentifier → TransactionIdentifier → Response Transaction
  pub account_balance : AccountBalanceRequest → Response AccountBalanceResponse
  pub account_coins : AccountIdentifier → Response AccountCoinsResponse
  pub mempool : Response (List TransactionIdentifier)
  pub mempool_transaction : TransactionIdentifier → Response Transaction

-- The nil client and the nil storage: every use of them follows the pointer.
abbrev pub nil_network : Network
nil_network = record {
  parse_url = λ url. panics;
  send = λ request. panics;
  decode_node_info = λ body. panics;
  decode_txs = λ body. panics;
  decode_address = λ body. panics;
  decode_peers = λ body. panics;
  decode_headers = λ body. panics;
  decode_ids = λ body. panics;
  decode_block = λ body. panics;
}

abbrev pub nil_client : Client
nil_client = record { base_url = ""; network = nil_network }

abbrev pub nil_storage : Storage (Unit {0})
nil_storage = record {
  get_head_block_identifier = λ db. panics;
  get_block_lazy = λ db id. panics;
  get_block_transaction = λ db block tx. panics;
  get_coin = λ db id. panics;
  get_coins = λ db account. panics;
  get_balance = λ db account currency index. panics;
  add_block = λ b db. (panics, db);
  remove_block = λ id db. (panics, db);
  see_block = λ b db. (panics, db);
  set_coins_imported = λ balances db. (panics, db);
  set_balance = λ account amount id db. (panics, db);
  commit = λ view db. (panics, db);
}

module _ (cfg : Configuration) {Metadata : Type 0} (rosetta_version : String)
    (negate_value : String → Result String) (marshal_map : Peer → Result Metadata) where
  -- The handlers of the services that hold this client and this storage.
  unfoldable pub routes : {DB : Type 0} → Dependencies DB → Router Metadata
  routes d = record {
    list = network_list cfg;
    options = network_options rosetta_version cfg d.client;
    status = network_status marshal_map d.storage cfg (d.reads 0) d.client;
    block = λ id. block_endpoint d.storage cfg d.reads id;
    block_transaction = λ id tx. block_transaction d.storage cfg (d.reads 0) id tx;
    account_balance = λ request. account_balance d.storage cfg (d.reads 0) request;
    account_coins = λ account. account_coins d.storage cfg (d.reads 0) account;
    mempool = mempool d.storage cfg d.reads d.client negate_value;
    mempool_transaction = λ tx. mempool_transaction d.storage cfg d.reads d.client negate_value tx;
  }

  unfoldable pub new_blockchain_router : {DB : Type 0} → Option (Dependencies DB) → Router Metadata
  unfolding routes
  new_blockchain_router none =
      routes (record { client = nil_client; storage = nil_storage; reads = λ n. tt })
  new_blockchain_router (some d) = routes d
