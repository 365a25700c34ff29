-- ===== src/Rosetta/Converter.antt =====
-- `BlockConverter` of pkg/rosetta/converter.go. The node client and the library's `NegateValue`
-- are parameters. What the conversion does is proved in the modules below.
pub mod Operations
pub mod Success
pub mod Coins
pub mod Values
pub mod Coverage
use rosetta_ergo.Base.{
  ℕ, suc, ℤ, pos, String, Option, none, some, List, [], ◌∷◌, ◌++◌, Result, ok, err, panics, blocks,
  errorf, wrap, str, ◌>>=◌, wrap_with, deref, length, ◌==◌, if◌then◌else◌,
}
use rosetta_ergo.Base.GoMap.{GoMap, get, put}
use rosetta_ergo.Decimal.{format_int}
use rosetta_ergo.Sdk.{
  Block, Transaction, Operation, OperationIdentifier, AccountCoin, CoinChange, coin_created,
  coin_spent,
}
use rosetta_ergo.Ergo.Types.{
  FullBlock, ErgoTransaction, ErgoTransactionInput, ErgoTransactionOutput,
}
use rosetta_ergo.Ergo.Constants.{erg_currency, input_op_type, output_op_type, success_status}
use rosetta_ergo.Ergo.Client.{Client, tree_to_address}
use rosetta_ergo.Rosetta.Header.{header_to_rosetta_block}

pub record BlockConverter : Type 0 where
  pub block_tx_inputs : GoMap AccountCoin
  pub pre_fetched_inputs : GoMap AccountCoin

abbrev pub new_block_converter : GoMap AccountCoin → BlockConverter
new_block_converter pre_fetched_inputs = record {
  block_tx_inputs = [];
  pre_fetched_inputs = pre_fetched_inputs;
}

-- An output of this block is preferred to a coin of the storage.
unfoldable pub find_coin_for_input : BlockConverter → String → Result AccountCoin
find_coin_for_input c input_id = elim (get input_id c.block_tx_inputs) [
  | some acct_coin ↦ ok acct_coin
  | none ↦ elim (get input_id c.pre_fetched_inputs) [
    | some acct_coin ↦ ok acct_coin
    | none ↦ err (errorf "unable to find input with ID: %s" (str input_id ∷ []))
  ]
]

abbrev pub created_coin : Operation → CoinChange → AccountCoin
created_coin op change = record {
  account = op.account;
  coin = record { coin_identifier = change.coin_identifier; amount = op.amount };
}

-- One round of the loop of `storeTxCoins`: only created coins are stored.
abbrev pub store_change : Operation → Option CoinChange → GoMap AccountCoin → GoMap AccountCoin
store_change op none coins = coins
store_change op (some change) coins = elim change.coin_action [
  | coin_created ↦ put change.coin_identifier.identifier (created_coin op change) coins
  | coin_spent ↦ coins
]

unfoldable pub store_ops : List Operation → GoMap AccountCoin → GoMap AccountCoin
store_ops [] coins = coins
store_ops (op ∷ ops) coins = store_ops ops (store_change op op.coin_change coins)

unfoldable pub store_tx_coins : Transaction → BlockConverter → BlockConverter
unfolding store_ops
store_tx_coins tx c = record c { block_tx_inputs = store_ops tx.operations c.block_tx_inputs }

-- `fmt.Errorf(format, err, *p)`: a nil `p` panics only when there is an error to format.
abbrev pub wrap_deref {ℓ} : {A : Type ℓ} → String → Option String → Result A → Result A
wrap_deref format p (ok a) = ok a
wrap_deref format p (err e) = do id ← deref p; err (wrap e format (str id ∷ []))
wrap_deref format p panics = panics
wrap_deref format p blocks = blocks

-- The tree whose address the node cannot compute, and its address.
abbrev pub unparsed_tree : String
unparsed_tree = "cd07021a8e6f59fd4a"

abbrev pub unparsed_tree_address : String
unparsed_tree_address = "4MQyMKvMbnCJG3aJ"

module _ (e : Client) (negate_value : String → Result String) where
  unfoldable pub input_to_rosetta_op : ErgoTransactionInput → ℤ → ℤ → AccountCoin → Result Operation
  input_to_rosetta_op i operation_index input_index input_coin = do
    amount ← deref input_coin.coin.amount
    negated_val ← wrap_with "%w: unable to negate previous output" [] (negate_value amount.value)
    ok (record {
      operation_identifier = record { index = operation_index; network_index = some input_index };
      related_operations = [];
      op_type = input_op_type;
      status = some success_status;
      account = input_coin.account;
      amount = some (record { value = negated_val; currency = erg_currency });
      coin_change =
          some (record {
            coin_identifier = record { identifier = i.box_id };
            coin_action = coin_spent;
          });
    })

  unfoldable pub output_address : String → Result String
  output_address ergo_tree =
      if ergo_tree == unparsed_tree
      then ok unparsed_tree_address
      else wrap_with "%w: failed to get address from ergo tree" [] (tree_to_address e ergo_tree)

  unfoldable pub output_to_rosetta_op :
      ErgoTransactionOutput → ℤ → List OperationIdentifier → Result Operation
  unfolding output_address
  output_to_rosetta_op o operation_index related_ops = do
    addr ← output_address o.ergo_tree
    index ← deref o.index
    box_id ← deref o.box_id
    ok (record {
      operation_identifier = record { index = operation_index; network_index = some index };
      related_operations = related_ops;
      op_type = output_op_type;
      status = some success_status;
      account = some (record { address = addr });
      amount = some (record { value = format_int o.value; currency = erg_currency });
      coin_change =
          some (record {
            coin_identifier = record { identifier = box_id };
            coin_action = coin_created;
          });
    })

  -- One round of the loop over the inputs.
  unfoldable pub convert_input :
      BlockConverter → Option String → ℕ → ℕ → ErgoTransactionInput → Result Operation
  unfolding find_coin_for_input input_to_rosetta_op
  convert_input c id op_index input_idx input = do
    acct_coin ←
        wrap_deref "%w: unable to find input (tx: %s)" id (find_coin_for_input c input.box_id)
    wrap_with "%w: error parsing tx input, boxId: %s" (str input.box_id ∷ [])
        (input_to_rosetta_op input (pos op_index) (pos input_idx) acct_coin)

  unfoldable pub convert_inputs :
      BlockConverter
      → Option String
      → ℕ
      → List Operation
      → List OperationIdentifier
      → List ErgoTransactionInput
      → Result (List Operation × List OperationIdentifier)
  unfolding convert_input
  convert_inputs c id input_idx tx_ops related_ops [] = ok (tx_ops, related_ops)
  convert_inputs c id input_idx tx_ops related_ops (input ∷ inputs) = do
    tx_op ← convert_input c id (length tx_ops) input_idx input
    convert_inputs c id (suc input_idx) (tx_ops ++ tx_op ∷ [])
        (related_ops
          ++ record { index = tx_op.operation_identifier.index; network_index = none } ∷ [])
        inputs

  unfoldable pub convert_outputs :
      List OperationIdentifier
      → List Operation
      → List ErgoTransactionOutput
      → Result (List Operation)
  unfolding output_to_rosetta_op
  convert_outputs related_ops tx_ops [] = ok tx_ops
  convert_outputs related_ops tx_ops (output ∷ outputs) = do
    tx_op ←
        wrap_deref "%w: error parsing tx output, boxId: %s" output.box_id
          (output_to_rosetta_op output (pos (length tx_ops)) related_ops)
    convert_outputs related_ops (tx_ops ++ tx_op ∷ []) outputs

  unfoldable pub tx_to_rosetta_tx : BlockConverter → ErgoTransaction → Result Transaction
  unfolding convert_inputs convert_outputs
  tx_to_rosetta_tx c ergo_tx = do
    inputs ← deref ergo_tx.inputs
    (tx_ops, related_ops) ← convert_inputs c ergo_tx.id 0 [] [] inputs
    outputs ← deref ergo_tx.outputs
    all_ops ← convert_outputs related_ops tx_ops outputs
    id ← deref ergo_tx.id
    ok (record { transaction_identifier = record { hash = id }; operations = all_ops })

  -- The loop of `BlockToRosettaBlock`: the outputs of each transaction are kept for the next.
  unfoldable pub convert_txs :
      BlockConverter → List ErgoTransaction → Result (List Transaction × BlockConverter)
  unfolding tx_to_rosetta_tx store_tx_coins
  convert_txs c [] = ok ([], c)
  convert_txs c (ergo_tx ∷ ergo_txs) = do
    parsed_tx ←
        wrap_deref "%w: error parsing transaction operations, txId: %s" ergo_tx.id
          (tx_to_rosetta_tx c ergo_tx)
    (parsed_txs, c') ← convert_txs (store_tx_coins parsed_tx c) ergo_txs
    ok (parsed_tx ∷ parsed_txs, c')

  unfoldable pub block_to_rosetta_block :
      BlockConverter → FullBlock → Result (Block × BlockConverter)
  unfolding header_to_rosetta_block convert_txs
  block_to_rosetta_block c block = do
    header ← deref block.header
    block_transactions ← deref block.block_transactions
    ergo_txs ← deref block_transactions.transactions
    (parsed_txs, c') ← convert_txs c ergo_txs
    ok (record (header_to_rosetta_block header) { transactions = parsed_txs }, c')
