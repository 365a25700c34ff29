-- ===== src/Rosetta/Converter/Success.antt =====
-- When the conversion of one transaction succeeds.
use rosetta_ergo.Base.{
  ℕ, suc, ℤ, pos, neg, String, Option, some, List, [], ◌∷◌, ◌++◌, ◌≡◌, refl, Result, ok, length,
  All, Succeeds, >>=-Succeeds, wrap_with-ok, deref, deref-ok,
}
use rosetta_ergo.Decimal.{format_int, parse_int}
use rosetta_ergo.Sdk.{Transaction, Operation, OperationIdentifier, AccountCoin, Amount}
use rosetta_ergo.Ergo.Types.{ErgoTransaction, ErgoTransactionInput, ErgoTransactionOutput}
use rosetta_ergo.Ergo.Client.{Client}
use rosetta_ergo.Rosetta.Converter.Operations.{wrap_deref-ok}
use rosetta_ergo.Rosetta.Converter.{
  BlockConverter, find_coin_for_input, input_to_rosetta_op, output_address, output_to_rosetta_op,
  convert_input, convert_inputs, convert_outputs, tx_to_rosetta_tx,
}

-- What rosetta-sdk-go documents of `NegateValue`: the decimal text of an integer becomes that of
-- its negation.
abbrev pub NegatesIntegers : (String → Result String) → Type 0
NegatesIntegers negate_value =
    (v : String) (z : ℤ) → parse_int v ≡ some z → negate_value v ≡ ok (format_int (neg z))

-- The coin's amount is set, and is the decimal text of an integer.
abbrev pub HasValue : AccountCoin → Type 0
HasValue coin = (a : Amount) × (z : ℤ) × (coin.coin.amount ≡ some a) × (parse_int a.value ≡ some z)

-- The converter finds a coin with a value for the input.
abbrev pub InputReady : BlockConverter → ErgoTransactionInput → Type 0
InputReady c i = (coin : AccountCoin) × (find_coin_for_input c i.box_id ≡ ok coin) × HasValue coin

module _ (e : Client) (negate_value : String → Result String) where
  -- The output's pointers are set, and its tree has an address.
  pub record OutputReady (o : ErgoTransactionOutput) : Type 0 where
    pub address : String
    pub index : ℤ
    pub box_id : String
    pub has_address : output_address e negate_value o.ergo_tree ≡ ok address
    pub has_index : o.index ≡ some index
    pub has_box_id : o.box_id ≡ some box_id

  module _ (law : NegatesIntegers negate_value) where
    convert_input_total :
        (c : BlockConverter) (id : Option String) (n k : ℕ) (i : ErgoTransactionInput)
        → InputReady c i
        → (op : Operation) × (convert_input e negate_value c id n k i ≡ ok op)
    unfolding convert_input input_to_rosetta_op
    convert_input_total c id n k i (coin, found, (a, z, held, parsed)) =
        >>=-Succeeds _ _ (wrap_deref-ok _ id _ found) (
          let (op, made) =
            >>=-Succeeds (deref coin.coin.amount) (λ amount. _) (deref-ok _ held)
              (>>=-Succeeds _ _ (wrap_with-ok _ _ _ (law a.value z parsed)) (_, refl)) in
          (op, wrap_with-ok _ _ _ made))

    convert_inputs_total :
        (c : BlockConverter) (id : Option String) (k : ℕ) (done : List Operation)
        (ids : List OperationIdentifier) (is : List ErgoTransactionInput)
        → All (InputReady c) is
        → (r : List Operation × List OperationIdentifier) × (convert_inputs e negate_value c id k
              done ids is
            ≡ ok r)
    unfolding convert_inputs
    convert_inputs_total c id k done ids [] h = (_, refl)
    convert_inputs_total c id k done ids (i ∷ is) (h, hs) =
        let (op, first) = convert_input_total c id (length done) k i h in
        >>=-Succeeds _ _ first (convert_inputs_total c id (suc k) (done ++ op ∷ []) _ is hs)

    output_op_total :
        (ids : List OperationIdentifier) (n : ℕ) (o : ErgoTransactionOutput)
        → OutputReady o
        → Succeeds (output_to_rosetta_op e negate_value o (pos n) ids)
    unfolding output_to_rosetta_op
    output_op_total ids n o h = >>=-Succeeds _ _ h.has_address (
        >>=-Succeeds _ _ (deref-ok _ h.has_index)
          (>>=-Succeeds _ _ (deref-ok _ h.has_box_id) (_, refl)))

    convert_outputs_total :
        (ids : List OperationIdentifier) (done : List Operation) (os : List ErgoTransactionOutput)
        → All OutputReady os
        → (r : List Operation) × (convert_outputs e negate_value ids done os ≡ ok r)
    unfolding convert_outputs
    convert_outputs_total ids done [] h = (_, refl)
    convert_outputs_total ids done (o ∷ os) (h, hs) =
        let (op, made) = output_op_total ids (length done) o h in
        >>=-Succeeds _ _ (wrap_deref-ok _ o.box_id _ made)
          (convert_outputs_total ids (done ++ op ∷ []) os hs)

    -- Where `NegateValue` negates decimal texts, `tx_to_rosetta_tx` succeeds if the transaction's
    -- pointers are set, a coin with a value is found for each input, and each output has its
    -- pointers set and a tree with an address.
    pub tx_to_rosetta_tx_total :
        (c : BlockConverter) (tx : ErgoTransaction) (id : String) (is : List ErgoTransactionInput)
        (os : List ErgoTransactionOutput)
        → tx.id ≡ some id
        → tx.inputs ≡ some is
        → tx.outputs ≡ some os
        → All (InputReady c) is
        → All OutputReady os
        → (t : Transaction) × (tx_to_rosetta_tx e negate_value c tx ≡ ok t)
    unfolding tx_to_rosetta_tx
    tx_to_rosetta_tx_total c tx id is os has_id has_is has_os ins outs =
        let (r, first) = convert_inputs_total c tx.id 0 [] [] is ins in
        let (all, rest) = convert_outputs_total r.1 r.0 os outs in
        >>=-Succeeds _ _ (deref-ok _ has_is) (
          >>=-Succeeds _ _ first (
            >>=-Succeeds _ _ (deref-ok _ has_os)
              (>>=-Succeeds _ _ rest (>>=-Succeeds _ _ (deref-ok _ has_id) (_, refl)))))
