-- ===== src/Samples/Node.antt =====
-- A function that negates decimal texts, and a node that answers every request.
use rosetta_ergo.Base.{
  ℤ, pos, neg, String, false, Option, none, some, [], ◌∷◌, Result, ok, err, errorf, refl,
}
use rosetta_ergo.Decimal.{parse_int, format_int}
use rosetta_ergo.Ergo.Types.{
  BlockHeader, BlockTransactions, FullBlock, ErgoTransaction, ErgoTransactionInput,
  ErgoTransactionOutput, NodeInfo,
}
use rosetta_ergo.Ergo.Client.{Client, Network}
use rosetta_ergo.Ergo.Inputs.Exact.{Boxes, AllHaveBoxes}
use rosetta_ergo.Rosetta.Converter.Success.{NegatesIntegers}

abbrev pub negate_text : Option ℤ → Result String
negate_text none = err (errorf "not an integer" [])
negate_text (some z) = ok (format_int (neg z))

unfoldable pub negate : String → Result String
negate v = negate_text (parse_int v)

pub negate-NegatesIntegers : NegatesIntegers negate
unfolding negate
negate-NegatesIntegers v z e = rw e

abbrev pub node_info : NodeInfo
node_info = record {
  name = "node";
  app_version = "4.0.8";
  full_height = pos 2;
  headers_height = pos 2;
  best_full_header_id = "h2";
  previous_full_header_id = "h1";
  best_header_id = "h2";
  state_root = "";
  state_type = "utxo";
  state_version = "";
  is_mining = false;
  peers_count = pos 0;
  unconfirmed_count = pos 1;
  difficulty = pos 1;
  current_time = pos 9;
  launch_time = pos 1;
  headers_score = pos 1;
  full_blocks_score = pos 1;
  genesis_block_id = "h1";
  parameters = none;
}

abbrev pub input : String → ErgoTransactionInput
input box = record { box_id = box; spending_proof = none; extension = none }

abbrev pub output : String → ℤ → ErgoTransactionOutput
output box value = record {
  box_id = some box;
  value = value;
  ergo_tree = "cd07021a8e6f59fd4a";
  creation_height = pos 1;
  assets = none;
  additional_registers = [];
  transaction_id = none;
  index = some (pos 0);
}

abbrev pub tx : String → String → String → ℤ → ErgoTransaction
tx id spent created value = record {
  id = some id;
  inputs = some (input spent ∷ []);
  data_inputs = none;
  outputs = some (output created value ∷ []);
  size = none;
}

-- The first transaction spends a coin of the storage, the second one the box of the first.
abbrev pub first_tx : ErgoTransaction
first_tx = tx "t1" "b0" "b1" (pos 5)

abbrev pub second_tx : ErgoTransaction
second_tx = tx "t2" "b1" "b2" (pos 5)

abbrev pub first_boxes : Boxes
first_boxes = record { id = "t1"; spent = "b0" ∷ []; created = "b1" ∷ [] }

abbrev pub second_boxes : Boxes
second_boxes = record { id = "t2"; spent = "b1" ∷ []; created = "b2" ∷ [] }

pub has_boxes : AllHaveBoxes (first_tx ∷ second_tx ∷ []) (first_boxes ∷ second_boxes ∷ [])
has_boxes = (
  record {
    inputs = input "b0" ∷ [];
    outputs = output "b1" (pos 5) ∷ [];
    has_id = refl;
    has_inputs = refl;
    has_outputs = refl;
    spends = refl;
    creates = (refl, tt);
  },
  (
    record {
      inputs = input "b1" ∷ [];
      outputs = output "b2" (pos 5) ∷ [];
      has_id = refl;
      has_inputs = refl;
      has_outputs = refl;
      spends = refl;
      creates = (refl, tt);
    },
    tt,
  ),
)

abbrev pub header : String → String → ℤ → BlockHeader
header id parent height = record {
  id = id;
  timestamp = pos 9;
  version = pos 1;
  ad_proofs_root = "";
  state_root = "";
  transactions_root = "";
  n_bits = pos 1;
  extension_hash = "";
  pow_solutions = none;
  height = height;
  difficulty = "1";
  parent_id = parent;
  votes = "";
  size = none;
  extension_id = none;
  transactions_id = none;
  ad_proofs_id = none;
}

abbrev pub txs : BlockTransactions
txs = record { header_id = "h2"; transactions = some (first_tx ∷ second_tx ∷ []); size = pos 9 }

abbrev pub full_block : FullBlock
full_block = record {
  header = some (header "h2" "h1" (pos 2));
  block_transactions = some txs;
  ad_proofs = none;
  extension = none;
  size = pos 9;
}

-- The mempool of this node is the first transaction.
abbrev pub network : Network
network = record {
  parse_url = λ url. ok tt;
  send = λ request.
      ok (record {
        status_code = pos 200;
        status = "200 OK";
        body = request.url;
        read_error = none;
      });
  decode_node_info = λ body. ok node_info;
  decode_txs = λ body. ok (first_tx ∷ []);
  decode_address = λ body. ok (record { address = body });
  decode_peers = λ body. ok [];
  decode_headers = λ body. ok [];
  decode_ids = λ body. ok [];
  decode_block = λ body. ok full_block;
}

abbrev pub client : Client
client = record { base_url = "http://127.0.0.1:9053"; network = network }
