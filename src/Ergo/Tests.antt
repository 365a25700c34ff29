-- ===== src/Ergo/Tests.antt =====
-- The inputs to fetch of two transactions, the second of which spends the box of the first.
use rosetta_ergo.Base.{ℕ, err, errorf, List, some, [], ◌∷◌, ok, ◌≡◌, Among, ◌↔◌}
use rosetta_ergo.Ergo.Inputs.{InputCtx, get_inputs_for_txs}
use rosetta_ergo.Ergo.Inputs.Exact.{IsFetched, get_inputs_for_txs_exact}
use rosetta_ergo.Ergo.Client.{HttpResponse, make_request}
use rosetta_ergo.Ergo.Client.Requests.{IsGood, request, make_request_exact}
use rosetta_ergo.Ergo.Node.{
  NodeHost, NodeConfiguration, log_output, interrupt_node, start_ergo_node, ergo_logger,
  ergo_std_err_logger,
}
use rosetta_ergo.Ergo.Node.Started.{HasStarted, start_ergo_node-HasStarted}
use rosetta_ergo.Samples.{
  client, node_info, first_tx, second_tx, first_boxes, second_boxes, has_boxes,
}

get_inputs_for_txs_exact_example :
    (coins : List InputCtx) × (get_inputs_for_txs (some (first_tx ∷ second_tx ∷ [])) ≡ ok coins)
    × ((c : InputCtx) → Among c coins ↔ IsFetched c (first_boxes ∷ second_boxes ∷ []))
get_inputs_for_txs_exact_example =
    get_inputs_for_txs_exact (first_tx ∷ second_tx ∷ []) (first_boxes ∷ second_boxes ∷ []) has_boxes

make_request_exact_example :
    make_request client "info" "GET" client.network.decode_node_info ≡ ok node_info ↔ (
      (client.network.parse_url (request client "info" "GET").url ≡ ok tt)
      × (res : HttpResponse) × (client.network.send (request client "info" "GET") ≡ ok res)
      × IsGood client.network.decode_node_info res node_info)
make_request_exact_example =
    make_request_exact client "info" "GET" client.network.decode_node_info node_info

abbrev node_host : NodeHost ℕ
node_host = record {
  java_home = "/java";
  join = λ home bin java. home;
  stdout_pipe = ok 1;
  stderr_pipe = ok 2;
  start = λ command. ok tt;
  wait = err (errorf "signal: interrupt" []);
}

abbrev node_cfg : NodeConfiguration
node_cfg = record { network = "mainnet"; config_file_path = "node.conf" }

start_ergo_node-HasStarted_example :
    (Among interrupt_node (start_ergo_node node_host node_cfg).0 ↔ HasStarted node_host node_cfg)
    × ((g : HasStarted node_host node_cfg)
        → start_ergo_node node_host node_cfg ≡ (
          log_output g.stdout ergo_logger
              ∷ log_output g.stderr ergo_std_err_logger
              ∷ interrupt_node
              ∷ [],
          node_host.wait,
        ))
start_ergo_node-HasStarted_example = start_ergo_node-HasStarted node_host node_cfg
