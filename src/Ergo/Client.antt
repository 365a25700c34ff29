-- ===== src/Ergo/Client.antt =====
-- pkg/ergo/client.go: the requests to the node's REST API and the order in which they fail.
-- The HTTP transport and the JSON decoder (one for each type that the client decodes) are
-- parameters. No request has a body: every call of `makeRequest` passes nil for it.
pub mod Requests
use Prim.Native.String.{◌++◌ as append}
use rosetta_ergo.Base.{
  ℤ, pos, String, Option, none, some, List, [], ◌∷◌, Result, ok, err, Err, errorf, wrap, str, int,
  ◌>>=◌, ◌>>◌, wrap_with, eq_ℤ, if◌then◌else◌,
}
use rosetta_ergo.Decimal.{format_int}
use rosetta_ergo.Ergo.Types.{AddressHolder, BlockHeader, ErgoTransaction, FullBlock, NodeInfo, Peer}

pub record HttpRequest : Type 0 where
  pub method : String
  pub url : String
  pub headers : List (String × String)

-- `read_error` is what `ioutil.ReadAll` returns beside the body.
pub record HttpResponse : Type 0 where
  pub status_code : ℤ
  pub status : String
  pub body : String
  pub read_error : Option Err

-- net/http and encoding/json, as the client uses them.
pub record Network : Type 0 where
  pub parse_url : String → Result (Unit {0})
  pub send : HttpRequest → Result HttpResponse
  pub decode_node_info : String → Result NodeInfo
  pub decode_txs : String → Result (List ErgoTransaction)
  pub decode_address : String → Result AddressHolder
  pub decode_peers : String → Result (List Peer)
  pub decode_headers : String → Result (List BlockHeader)
  pub decode_ids : String → Result (List String)
  pub decode_block : String → Result FullBlock

pub record Client : Type 0 where
  pub base_url : String
  pub network : Network

abbrev pub method_get : String
method_get = "GET"

abbrev pub status_ok : ℤ
status_ok = pos 200

abbrev pub node_endpoint_node_info : String
node_endpoint_node_info = "info"

abbrev pub node_endpoint_connected_peers : String
node_endpoint_connected_peers = "peers/connected"

abbrev pub node_endpoint_block : String
node_endpoint_block = "blocks"

abbrev pub node_endpoint_last_block_headers : String
node_endpoint_last_block_headers = "blocks/lastHeaders"

abbrev pub node_endpoint_block_at_height : String
node_endpoint_block_at_height = "blocks/at"

abbrev pub node_endpoint_tx_unconfirmed : String
node_endpoint_tx_unconfirmed = "transactions/unconfirmed"

abbrev pub node_endpoint_tree_to_address : String
node_endpoint_tree_to_address = "utils/ergoTreeToAddress"

abbrev pub node_api_token : String
node_api_token = "rosetta"

pub local_node_url : ℤ → String
local_node_url node_port = append "http://127.0.0.1:" (format_int node_port)

-- The timeouts of the HTTP client and the logger are left out.
abbrev pub new_client : String → Network → Client
new_client base_url network = record { base_url = base_url; network = network }

-- `fmt.Sprintf("%s/%s", endpoint, argument)`.
unfoldable pub sub_endpoint : String → String → String
sub_endpoint endpoint argument = append endpoint (append "/" argument)

-- What a response means: the status is tested before the error of the read.
unfoldable pub read_response {ℓ} : {A : Type ℓ} → (String → Result A) → HttpResponse → Result A
read_response decode res =
    if eq_ℤ res.status_code status_ok
    then elim res.read_error [
      | some e ↦ err (wrap e "%w: failed to read response body" [])
      | none ↦ wrap_with "%w: error unmarshalling response body" [] (decode res.body)
    ]
    else err (errorf "invalid response: %s %s" (str res.status ∷ str res.body ∷ []))

unfoldable pub make_request {ℓ} :
    {A : Type ℓ} → Client → String → String → (String → Result A) → Result A
unfolding read_response
make_request e endpoint method decode = do
  let url = append e.base_url (append "/" endpoint)
  wrap_with "%w: error constructing request" [] (e.network.parse_url url)
  res ← wrap_with "%w: error posting to api" [] (
      e.network.send (record {
        method = method;
        url = url;
        headers = ("Content-Type", "application/json") ∷ ("api_key", node_api_token) ∷ [];
      }))
  read_response decode res

unfoldable pub get_node_info : Client → Result NodeInfo
unfolding make_request
get_node_info e =
    wrap_with "%w: error fetching node info" []
      (make_request e node_endpoint_node_info method_get e.network.decode_node_info)

unfoldable pub get_unconfirmed_txs : Client → Result (List ErgoTransaction)
unfolding make_request
get_unconfirmed_txs e =
    wrap_with "%w: error fetching unconfirmed txs" []
      (make_request e node_endpoint_tx_unconfirmed method_get e.network.decode_txs)

unfoldable pub tree_to_address : Client → String → Result String
unfolding make_request sub_endpoint
tree_to_address e et = do
  addr ← wrap_with "%w: error converting ergo tree to address" [] (
      make_request e (sub_endpoint node_endpoint_tree_to_address et) method_get
        e.network.decode_address)
  ok addr.address

unfoldable pub get_connected_peers : Client → Result (List Peer)
unfolding make_request
get_connected_peers e =
    wrap_with "%w: error fetching connected peers" []
      (make_request e node_endpoint_connected_peers method_get e.network.decode_peers)

unfoldable pub get_latest_block_headers : Client → ℤ → Result (List BlockHeader)
unfolding make_request sub_endpoint
get_latest_block_headers e count =
    wrap_with "%w: error fetching last %d block headers" (int count ∷ []) (
      make_request e (sub_endpoint node_endpoint_last_block_headers (format_int count)) method_get
        e.network.decode_headers)

unfoldable pub get_block_by_id : Client → String → Result FullBlock
unfolding make_request sub_endpoint
get_block_by_id e id =
    wrap_with "%w: error fetching block with id %s" (str id ∷ [])
      (make_request e (sub_endpoint node_endpoint_block id) method_get e.network.decode_block)

-- The first id at that height; `%w` wraps a nil error when there is none.
first_block : Client → ℤ → List String → Result FullBlock
first_block e index [] = err (errorf "%w: no blocks found at index %d" (int index ∷ []))
first_block e index (id ∷ ids) = get_block_by_id e id

unfoldable pub get_block_by_index : Client → ℤ → Result FullBlock
unfolding make_request sub_endpoint first_block
get_block_by_index e index = do
  block_headers ← wrap_with "%w: error fetching block at index %d" (int index ∷ []) (
      make_request e (sub_endpoint node_endpoint_block_at_height (format_int index)) method_get
        e.network.decode_ids)
  first_block e index block_headers
