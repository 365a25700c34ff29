-- ===== src/Server/Offline.antt =====
-- What the server answers offline, where the command gives it no client and no storage.
use rosetta_ergo.Base.{
  pos, String, false, ◌==◌, eq_iff, Bool-cases, inl, inr, Option, none, [], ◌∷◌, ◌≡◌, ◌≢◌, refl,
  Result,
}
use rosetta_ergo.Sdk.{
  AccountIdentifier, BlockIdentifier, PartialBlockIdentifier, TransactionIdentifier, RosettaError,
}
use rosetta_ergo.Ergo.Types.{Peer}
use rosetta_ergo.Errutil.{wrap_err}
use rosetta_ergo.Config.{Configuration, online}
use rosetta_ergo.Services.Response.{Response, when_online, response, failure, crashes}
use rosetta_ergo.Services.Response.Announced.{when_online_refused}
use rosetta_ergo.Ergo.Client.{get_node_info, make_request}
use rosetta_ergo.Services.Account.{AccountBalanceRequest, account_balance, account_coins}
use rosetta_ergo.Services.Block.{block_endpoint, block_transaction}
use rosetta_ergo.Services.Mempool.{mempool, mempool_transaction}
use rosetta_ergo.Services.Network.{network_list, network_options, network_status}
use rosetta_ergo.Server.{Router, new_blockchain_router}

-- `ErrUnavailableOffline`, without details.
abbrev pub refused : RosettaError
refused = record {
  code = pos 1;
  message = "Endpoint unavailable offline";
  retriable = false;
  details = none;
}

pub not_eq : (mode : String) → mode ≢ online → mode == online ≡ false
not_eq mode off = elim (Bool-cases (mode == online)) [
  | inl on ↦ absurd (off ((eq_iff mode online).0 on))
  | inr off_line ↦ off_line
]

refuses :
    {A : Type 0} (cfg : Configuration) (r : Response A)
    → cfg.mode ≢ online
    → when_online cfg r ≡ failure refused
unfolding wrap_err
refuses cfg r off = when_online_refused cfg r (not_eq cfg.mode off)

-- A server that answers what can be answered offline: the list of networks, and to each request
-- that reads the chain that it cannot. Only /network/options panics.
pub record AnswersOffline {Metadata : Type 0} (cfg : Configuration) (r : Router Metadata)
    : Type 0 where
  pub list : r.list ≡ response (cfg.network ∷ [])
  pub options : r.options ≡ crashes
  pub status : r.status ≡ failure refused
  pub block : (id : Option PartialBlockIdentifier) → r.block id ≡ failure refused
  pub block_transaction :
      (id : BlockIdentifier) (tx : TransactionIdentifier)
      → r.block_transaction id tx ≡ failure refused
  pub account_balance :
      (request : AccountBalanceRequest) → r.account_balance request ≡ failure refused
  pub account_coins : (account : AccountIdentifier) → r.account_coins account ≡ failure refused
  pub mempool : r.mempool ≡ failure refused
  pub mempool_transaction :
      (tx : TransactionIdentifier) → r.mempool_transaction tx ≡ failure refused

-- Without a client and a storage, and unless the mode is online, the router is such a server.
pub router-AnswersOffline :
    (DB : Type 0) {Metadata : Type 0} (cfg : Configuration) (rosetta_version : String)
    (negate_value : String → Result String) (marshal_map : Peer → Result Metadata)
    → cfg.mode ≢ online
    → AnswersOffline cfg
        (new_blockchain_router cfg rosetta_version negate_value marshal_map {DB = DB} none)
unfolding new_blockchain_router network_list network_options get_node_info make_request
    account_balance account_coins block_endpoint block_transaction mempool mempool_transaction
    network_status
router-AnswersOffline DB cfg rosetta_version negate_value marshal_map off = record {
  list = refl;
  options = refl;
  status = refuses cfg _ off;
  block = λ id. refuses cfg _ off;
  block_transaction = λ id tx. refuses cfg _ off;
  account_balance = λ request. refuses cfg _ off;
  account_coins = λ account. refuses cfg _ off;
  mempool = refuses cfg _ off;
  mempool_transaction = λ tx. refuses cfg _ off;
}
