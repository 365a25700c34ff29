-- ===== src/Ergo/Inputs.antt =====
-- pkg/ergo/utils.go: the boxes that the indexer fetches before it converts a block.
pub mod Exact
use rosetta_ergo.Base.{
  String, Option, List, [], ◌∷◌, ◌++◌, Result, ok, ◌>>=◌, deref, contains, if◌then◌else◌,
}
use rosetta_ergo.Ergo.Types.{ErgoTransaction, ErgoTransactionInput, ErgoTransactionOutput}

pub record InputCtx : Type 0 where
  pub tx_id : String
  pub input_id : String

-- `for _, output := range *tx.Outputs { outputs = append(outputs, *output.BoxID) }`
collect_outputs : List String → List ErgoTransactionOutput → Result (List String)
collect_outputs outputs [] = ok outputs
collect_outputs outputs (output ∷ rest) = do
  box_id ← deref output.box_id
  collect_outputs (outputs ++ box_id ∷ []) rest

-- An output of this transaction or of an earlier one is not fetched.
collect_input :
    Option String → List String → List InputCtx → ErgoTransactionInput → Result (List InputCtx)
collect_input id outputs input_coins input =
    if contains outputs input.box_id then ok input_coins else do
      tx_id ← deref id
      ok (input_coins ++ record { tx_id = tx_id; input_id = input.box_id } ∷ [])

collect_inputs :
    Option String → List String → List InputCtx → List ErgoTransactionInput → Result (List InputCtx)
collect_inputs id outputs input_coins [] = ok input_coins
collect_inputs id outputs input_coins (input ∷ rest) = do
  input_coins' ← collect_input id outputs input_coins input
  collect_inputs id outputs input_coins' rest

collect_txs : List String → List InputCtx → List ErgoTransaction → Result (List InputCtx)
collect_txs outputs input_coins [] = ok input_coins
collect_txs outputs input_coins (tx ∷ txs) = do
  tx_outputs ← deref tx.outputs
  outputs' ← collect_outputs outputs tx_outputs
  tx_inputs ← deref tx.inputs
  input_coins' ← collect_inputs tx.id outputs' input_coins tx_inputs
  collect_txs outputs' input_coins' txs

unfoldable pub get_inputs_for_txs : Option (List ErgoTransaction) → Result (List InputCtx)
unfolding collect_txs collect_inputs collect_input collect_outputs contains
get_inputs_for_txs txs = do txs' ← deref txs; collect_txs [] [] txs'
