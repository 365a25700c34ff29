-- ===== src/Services/Network.antt =====
-- pkg/services/network.go.
use rosetta_ergo.Base.{
  ℤ, String, Bool, true, false, List, [], ◌∷◌, Option, none, Result, ok, err, panics, blocks, wrap,
}
use rosetta_ergo.Base
use rosetta_ergo.Sdk.{
  BlockIdentifier, NetworkIdentifier, OperationStatus, RosettaError, RosettaPeer,
}
use rosetta_ergo.Ergo.Types.{Peer}
use rosetta_ergo.Ergo.Client.{Client, get_connected_peers, get_node_info}
use rosetta_ergo.Ergo.Constants.{operation_statuses, operation_types}
use rosetta_ergo.Rosetta.Header.{peer_to_rosetta_peer}
use rosetta_ergo.Errutil.{errors, err_ergo_node, err_not_ready, wrap_err}
use rosetta_ergo.Config.{Configuration}
use rosetta_ergo.Indexer.Storage.{Storage}
use rosetta_ergo.Services.Response.{
  Response, response, failure, crashes, ◌>>=◌, or_fail, when_online,
}

abbrev pub mempool_coins : Bool
mempool_coins = false

abbrev pub historical_balances : Bool
historical_balances = true

pub record NetworkStatusResponse {ℓ} (Metadata : Type ℓ) : Type ℓ where
  pub current_block_identifier : BlockIdentifier
  pub current_block_timestamp : ℤ
  pub genesis_block_identifier : BlockIdentifier
  pub peers : List (RosettaPeer Metadata)

pub record Version : Type 0 where
  pub rosetta_version : String
  pub node_version : String
  pub middleware_version : String

pub record Allow : Type 0 where
  pub operation_statuses : List OperationStatus
  pub operation_types : List String
  pub errors : List RosettaError
  pub historical_balance_lookup : Bool
  pub mempool_coins : Bool

pub record NetworkOptionsResponse : Type 0 where
  pub version : Version
  pub allow : Allow

-- `if err != nil { return nil, errutil.WrapErr(ErrNotReady, nil) }`: the cause is dropped.
abbrev pub or_not_ready {ℓ} : {A : Type ℓ} → Result A → Response A
or_not_ready (ok a) = response a
or_not_ready (err e) = failure (wrap_err err_not_ready none)
or_not_ready panics = crashes
or_not_ready blocks = crashes

module _ {Metadata : Type 0} (marshal_map : Peer → Result Metadata) where
  unfoldable pub convert_peers : List Peer → Result (List (RosettaPeer Metadata))
  convert_peers [] = ok []
  convert_peers (p ∷ ps) =
      Base.◌>>=◌ (peer_to_rosetta_peer marshal_map p)
        λ peer. Base.◌>>=◌ (convert_peers ps) λ peers. ok (peer ∷ peers)

  module _ {DB : Type 0} (s : Storage DB) (cfg : Configuration) (db : DB) (e : Client) where
    unfoldable pub network_status : Response (NetworkStatusResponse Metadata)
    unfolding convert_peers
    network_status = when_online cfg do
      connected ← or_fail err_ergo_node (get_connected_peers e)
      peers ← or_fail err_ergo_node (convert_peers connected)
      cached ← or_not_ready (s.get_block_lazy db none)
      response (record {
        current_block_identifier = cached.block.block_identifier;
        current_block_timestamp = cached.block.timestamp;
        genesis_block_identifier = cfg.genesis_block_identifier;
        peers = peers;
      })

unfoldable pub network_list : Configuration → Response (List NetworkIdentifier)
network_list cfg = response (cfg.network ∷ [])

-- `rosetta_version` is the API version of rosetta-sdk-go.
unfoldable pub network_options : String → Configuration → Client → Response NetworkOptionsResponse
network_options rosetta_version cfg e = do
  node_info ← or_fail err_ergo_node (get_node_info e)
  response (record {
    version = record {
      rosetta_version = rosetta_version;
      node_version = node_info.app_version;
      middleware_version = cfg.version;
    };
    allow = record {
      operation_statuses = operation_statuses;
      operation_types = operation_types;
      errors = errors;
      historical_balance_lookup = historical_balances;
      mempool_coins = mempool_coins;
    };
  })
