-- ===== src/Rosetta/Converter/Coins.antt =====
-- The coins that the converter keeps from the transactions it has converted.
use mathlib.Core.Path.{subst}
use rosetta_ergo.Base.{
  ℕ, suc, String, some, List, [], ◌∷◌, ◌++◌, ◌≡◌, ◌≢◌, eq_iff, ◌∙◌, refl, ap, inl, inr, arith, ok,
  length, All, Among, ◌==◌, eq_refl, Result, Bool-cases,
}
use rosetta_ergo.Base.GoMap.{GoMap, get, put, get-put}
use rosetta_ergo.Decimal.{format_int}
use rosetta_ergo.Sdk.{Transaction, Operation, OperationIdentifier, AccountCoin}
use rosetta_ergo.Ergo.Types.{ErgoTransaction, ErgoTransactionInput, ErgoTransactionOutput}
use rosetta_ergo.Ergo.Inputs.Exact.{OutputBoxes}
use rosetta_ergo.Ergo.Constants.{erg_currency}
use rosetta_ergo.Ergo.Client.{Client}
use rosetta_ergo.Rosetta.Converter.{
  BlockConverter, store_ops, store_tx_coins, find_coin_for_input, output_address, tx_to_rosetta_tx,
}
use rosetta_ergo.Rosetta.Converter.Operations.{
  SpendsAll, CreatesAll, IsConverted, input_ids, tx_to_rosetta_tx-IsConverted,
}

abbrev pub IsStored : String → GoMap AccountCoin → Type 0
IsStored k coins = (v : AccountCoin) × (get k coins ≡ some v)

IsStored-put :
    (k j : String) (v : AccountCoin) (coins : GoMap AccountCoin)
    → IsStored k coins
    → IsStored k (put j v coins)
IsStored-put k j v coins (w, e) = elim (Bool-cases (j == k)) [
  | inl same ↦ (v, rw (get-put j k v coins, same))
  | inr other ↦ (w, rw (get-put j k v coins, other) e)
]

IsStored-put_key :
    (k j : String) (v : AccountCoin) (coins : GoMap AccountCoin)
    → j ≡ k
    → IsStored k (put j v coins)
IsStored-put_key k j v coins e = (v, rw (get-put j k v coins, e, eq_refl k))

-- A transaction's operations in the map: `spent` ones change nothing.
store_ops-SpendsAll :
    (e : Client) (negate_value : String → Result String) (c : BlockConverter) (n : ℕ)
    (is : List ErgoTransactionInput) (ops rest : List Operation) (coins : GoMap AccountCoin)
    → SpendsAll e negate_value c n is ops
    → store_ops (ops ++ rest) coins ≡ store_ops rest coins
unfolding store_ops
store_ops-SpendsAll e nv c n [] [] rest coins h = refl
store_ops-SpendsAll e nv c n [] (op ∷ ops) rest coins h = absurd h
store_ops-SpendsAll e nv c n (i ∷ is) [] rest coins h = absurd h
store_ops-SpendsAll e nv c n (i ∷ is) (op ∷ ops) rest coins (h, hs) =
    rw h.is_op (store_ops-SpendsAll e nv c (suc n) is ops rest coins hs)

get-put_other :
    (j k : String) (v : AccountCoin) (coins : GoMap AccountCoin)
    → j ≢ k
    → get k (put j v coins) ≡ get k coins
get-put_other j k v coins d = ground (arith, get-put j k v coins, eq_iff j k)

-- The coin of an output, under its box id and at its tree's address.
abbrev pub output_coin : String → String → ErgoTransactionOutput → AccountCoin
output_coin k address o = record {
  account = some (record { address = address });
  coin = record {
    coin_identifier = record { identifier = k };
    amount = some (record { value = format_int o.value; currency = erg_currency });
  };
}

get-put_output :
    (j k address : String) (o : ErgoTransactionOutput) (coins : GoMap AccountCoin)
    → j ≡ k
    → get k (put j (output_coin j address o) coins) ≡ some (output_coin k address o)
get-put_output j k address o coins q = rw (q, get-put k k _ coins, eq_refl k)

module _ (e : Client) (negate_value : String → Result String) where
  store_ops-IsStored :
      (related : List OperationIdentifier) (n : ℕ) (os : List ErgoTransactionOutput)
      (ops : List Operation) (coins : GoMap AccountCoin) (k : String)
      → CreatesAll e negate_value related n os ops
      → IsStored k coins
      → IsStored k (store_ops ops coins)
  unfolding store_ops
  store_ops-IsStored related n [] [] coins k h s = s
  store_ops-IsStored related n [] (op ∷ ops) coins k h s = absurd h
  store_ops-IsStored related n (o ∷ os) [] coins k h s = absurd h
  store_ops-IsStored related n (o ∷ os) (op ∷ ops) coins k (h, hs) s =
      rw h.is_op
        (store_ops-IsStored related (suc n) os ops _ k hs (IsStored-put k h.box_id _ coins s))

  store_ops-Among :
      (related : List OperationIdentifier) (n : ℕ) (os : List ErgoTransactionOutput)
      (bs : List String) (ops : List Operation) (coins : GoMap AccountCoin) (k : String)
      → CreatesAll e negate_value related n os ops
      → OutputBoxes os bs
      → Among k bs
      → IsStored k (store_ops ops coins)
  unfolding store_ops
  store_ops-Among related n [] [] [] coins k h b m = absurd m
  store_ops-Among related n [] [] (op ∷ ops) coins k h b m = absurd h
  store_ops-Among related n [] (b' ∷ bs) ops coins k h b m = absurd b
  store_ops-Among related n (o ∷ os) [] ops coins k h b m = absurd b
  store_ops-Among related n (o ∷ os) (b' ∷ bs) [] coins k h b m = absurd h
  store_ops-Among related n (o ∷ os) (b' ∷ bs) (op ∷ ops) coins k (h, hs) (b, ob) (inr m) =
      rw h.is_op (store_ops-Among related (suc n) os bs ops _ k hs ob m)
  store_ops-Among related n (o ∷ os) (b' ∷ bs) (op ∷ ops) coins k (h, hs) (b, ob) (inl here) =
      let key : h.box_id ≡ k = cc (h.is_box_id, b, here) in
      rw h.is_op
        (store_ops-IsStored related (suc n) os ops _ k hs (IsStored-put_key k h.box_id _ coins key))

  get-store_ops_other :
      (related : List OperationIdentifier) (n : ℕ) (os : List ErgoTransactionOutput)
      (ops : List Operation) (coins : GoMap AccountCoin) (k : String)
      → CreatesAll e negate_value related n os ops
      → All (λ o. o.box_id ≢ some k) os
      → get k (store_ops ops coins) ≡ get k coins
  unfolding store_ops
  get-store_ops_other related n [] [] coins k h d = refl
  get-store_ops_other related n [] (op ∷ ops) coins k h d = absurd h
  get-store_ops_other related n (o ∷ os) [] coins k h d = absurd h
  get-store_ops_other related n (o ∷ os) (op ∷ ops) coins k (h, hs) (d, ds) = rw h.is_op (
      get-store_ops_other related (suc n) os ops _ k hs ds
      ∙ get-put_other h.box_id k _ coins (λ q. d (h.is_box_id ∙ ap some q)))

  get-store_ops_last :
      (related : List OperationIdentifier) (n : ℕ) (before : List ErgoTransactionOutput)
      (o : ErgoTransactionOutput) (after : List ErgoTransactionOutput) (ops : List Operation)
      (coins : GoMap AccountCoin) (k : String)
      → CreatesAll e negate_value related n (before ++ o ∷ after) ops
      → o.box_id ≡ some k
      → All (λ o'. o'.box_id ≢ some k) after
      → (address : String) × (output_address e negate_value o.ergo_tree ≡ ok address)
        × (get k (store_ops ops coins) ≡ some (output_coin k address o))
  unfolding store_ops
  get-store_ops_last related n [] o after [] coins k h b d = absurd h
  get-store_ops_last related n (p ∷ before) o after [] coins k h b d = absurd h
  get-store_ops_last related n [] o after (op ∷ ops) coins k (h, hs) b d = (
    h.address,
    h.is_address,
    rw h.is_op (
        get-store_ops_other related (suc n) after ops _ k hs d
        ∙ get-put_output h.box_id k h.address o coins (cc (h.is_box_id, b))),
  )
  get-store_ops_last related n (p ∷ before) o after (op ∷ ops) coins k (h, hs) b d =
      get-store_ops_last related (suc n) before o after ops _ k hs b d

  module _ (c : BlockConverter) (tx : ErgoTransaction) (t : Transaction)
      (h : IsConverted e negate_value c tx t) where
    -- Only the created coins are stored.
    pub stored_ops : (store_tx_coins t c).block_tx_inputs ≡ store_ops h.output_ops c.block_tx_inputs
    unfolding store_tx_coins
    stored_ops =
        ap (λ ops. store_ops ops c.block_tx_inputs) h.in_order
        ∙ store_ops-SpendsAll e negate_value c 0 h.inputs h.input_ops h.output_ops _ h.spends

    -- What the converter had stored is still stored after the transaction.
    pub IsStored-before :
        (k : String)
        → IsStored k c.block_tx_inputs
        → IsStored k (store_tx_coins t c).block_tx_inputs
    IsStored-before k s = rw stored_ops (store_ops-IsStored _ _ h.outputs _ _ k h.creates s)

    -- The boxes that the transaction creates are stored after it.
    pub IsStored-created :
        (bs : List String) (k : String)
        → OutputBoxes h.outputs bs
        → Among k bs
        → IsStored k (store_tx_coins t c).block_tx_inputs
    IsStored-created bs k b m = rw stored_ops (store_ops-Among _ _ h.outputs bs _ _ k h.creates b m)

  -- After a transaction is converted, a later input of the block that spends one of its boxes is
  -- given the coin with the output's address and value, whatever coins were fetched for the block
  -- (where an id is repeated among the outputs, the last one counts).
  pub find_coin-created :
      (c : BlockConverter) (tx : ErgoTransaction) (t : Transaction)
      (before : List ErgoTransactionOutput) (o : ErgoTransactionOutput)
      (after : List ErgoTransactionOutput) (k : String)
      → tx_to_rosetta_tx e negate_value c tx ≡ ok t
      → tx.outputs ≡ some (before ++ o ∷ after)
      → o.box_id ≡ some k
      → All (λ o'. o'.box_id ≢ some k) after
      → (address : String) × (output_address e negate_value o.ergo_tree ≡ ok address)
        × (find_coin_for_input (store_tx_coins t c) k ≡ ok (output_coin k address o))
  unfolding find_coin_for_input
  find_coin-created c tx t before o after k converted outs b d =
      let h : IsConverted e negate_value c tx t =
        tx_to_rosetta_tx-IsConverted e negate_value c tx t converted in
      let same : h.outputs ≡ before ++ o ∷ after = cc (h.has_outputs, outs) in
      let creates =
        subst
          (λ os. CreatesAll e negate_value (input_ids 0 h.inputs) (length h.inputs) os h.output_ops)
          same h.creates in
      let (address, is_address, last) =
        get-store_ops_last (input_ids 0 h.inputs) (length h.inputs) before o after h.output_ops
          c.block_tx_inputs k creates b d in
      let stored : get k (store_tx_coins t c).block_tx_inputs ≡ some (output_coin k address o) =
        ap (get k) (stored_ops c tx t h) ∙ last in
      (address, is_address, rw (stored, find_coin_for_input))
