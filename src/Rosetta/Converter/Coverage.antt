-- ===== src/Rosetta/Converter/Coverage.antt =====
-- The coins that `get_inputs_for_txs` asks for, and those that the conversion needs.
use mathlib.Core.Path.{subst}
use rosetta_ergo.Base.{
  String, some, List, [], ◌∷◌, ◌++◌, ◌≡◌, refl, ap, inl, inr, Result, ok, Succeeds, >>=-Succeeds,
  deref-ok, contains, contains→Among, Bool-cases, Option-cases, All, All-Among, Among, Among-append,
  Among-append_left, Among-append_right,
}
use rosetta_ergo.Base.GoMap.{GoMap, get}
use rosetta_ergo.Sdk.{Block, Transaction, AccountCoin}
use rosetta_ergo.Ergo.Types.{
  FullBlock, BlockHeader, BlockTransactions, ErgoTransaction, ErgoTransactionInput,
  ErgoTransactionOutput,
}
use rosetta_ergo.Ergo.Inputs.{InputCtx, get_inputs_for_txs}
use rosetta_ergo.Ergo.Inputs.Exact.{
  Boxes, HasBoxes, AllHaveBoxes, pick, needed, pick_complete, not_contained, input_boxes,
  OutputBoxes, get_inputs_for_txs-needed,
}
use rosetta_ergo.Ergo.Client.{Client}
use rosetta_ergo.Rosetta.Converter.{
  BlockConverter, new_block_converter, find_coin_for_input, store_tx_coins, convert_txs,
  block_to_rosetta_block,
}
use rosetta_ergo.Rosetta.Converter.Operations.{
  wrap_deref-ok, IsConverted, tx_to_rosetta_tx-IsConverted,
}
use rosetta_ergo.Rosetta.Converter.Success.{
  NegatesIntegers, HasValue, InputReady, OutputReady, tx_to_rosetta_tx_total,
}
use rosetta_ergo.Rosetta.Converter.Coins.{IsStored, IsStored-before, IsStored-created}
use rosetta_ergo.Rosetta.Converter.Values.{AllHaveValue, stored_values}

-- The map holds a coin with a value for the box.
abbrev pub IsCovered : GoMap AccountCoin → InputCtx → Type 0
IsCovered coins ctx = (coin : AccountCoin) × (get ctx.input_id coins ≡ some coin) × HasValue coin

-- No transaction spends a box that it creates.
abbrev pub SpendsNoOwn : List Boxes → Type 0
SpendsNoOwn bs = All (λ (b : Boxes). (s : String) → Among s b.spent → ¬ Among s b.created) bs

abbrev pub OutputsReady : Client → (String → Result String) → ErgoTransaction → Type 0
OutputsReady e negate_value tx =
    (os : List ErgoTransactionOutput) × (tx.outputs ≡ some os) × All (OutputReady e negate_value) os

-- A stored coin is found, whatever was fetched.
find_stored :
    (c : BlockConverter) (i : ErgoTransactionInput)
    → AllHaveValue c.block_tx_inputs
    → IsStored i.box_id c.block_tx_inputs
    → InputReady c i
unfolding find_coin_for_input
find_stored c i values (coin, stored) =
    (coin, rw (stored, find_coin_for_input), values i.box_id coin stored)

find_fetched :
    (c : BlockConverter) (i : ErgoTransactionInput) (ctx : InputCtx)
    → ctx.input_id ≡ i.box_id
    → AllHaveValue c.block_tx_inputs
    → IsCovered c.pre_fetched_inputs ctx
    → InputReady c i
unfolding find_coin_for_input
find_fetched c i ctx e values (coin, fetched, value) =
    elim (Option-cases (get i.box_id c.block_tx_inputs)) [
      | inl missing ↦
          let fetched' : get i.box_id c.pre_fetched_inputs ≡ some coin = rw e at fetched in
          (coin, rw (missing, fetched', find_coin_for_input), value)
      | inr stored ↦ find_stored c i values stored
    ]

module _ (c : BlockConverter) (seen : List String) (b : Boxes)
    (values : AllHaveValue c.block_tx_inputs)
    (kept : (k : String) → Among k seen → IsStored k c.block_tx_inputs)
    (no_own : (s : String) → Among s b.spent → ¬ Among s b.created)
    (covered : (ctx : InputCtx)
      → Among ctx (pick b.id (seen ++ b.created) b.spent)
      → IsCovered c.pre_fetched_inputs ctx) where
  input-InputReady : (i : ErgoTransactionInput) → Among i.box_id b.spent → InputReady c i
  input-InputReady i m = elim (Bool-cases (contains (seen ++ b.created) i.box_id)) [
    | inl known ↦ elim (Among-append i.box_id seen b.created (contains→Among _ _ known)) [
      | inl before ↦ find_stored c i values (kept i.box_id before)
      | inr own ↦ absurd (no_own i.box_id m own)
    ]
    | inr new ↦
        let ctx : InputCtx = record { tx_id = b.id; input_id = i.box_id } in
        find_fetched c i ctx refl values (
          covered ctx
            (pick_complete b.id (seen ++ b.created) b.spent ctx refl m (not_contained _ _ new)))
  ]

  inputs-InputReady :
      (is : List ErgoTransactionInput)
      → ((s : String) → Among s (input_boxes is) → Among s b.spent)
      → All (InputReady c) is
  inputs-InputReady [] h = tt
  inputs-InputReady (i ∷ is) h =
      (input-InputReady i (h i.box_id (inl refl)), inputs-InputReady is (λ s m. h s (inr m)))

no_coin : (k : String) (v : AccountCoin) → get k [] ≡ some v → ⊥
unfolding get
no_coin k v h = cc

IsCovered-after :
    (c : BlockConverter) (t : Transaction) (ctx : InputCtx)
    → IsCovered c.pre_fetched_inputs ctx
    → IsCovered (store_tx_coins t c).pre_fetched_inputs ctx
unfolding store_tx_coins
IsCovered-after c t ctx h = h

kept_after :
    (e : Client) (negate_value : String → Result String) (c : BlockConverter) (tx : ErgoTransaction)
    (t : Transaction) (done : IsConverted e negate_value c tx t) (seen : List String) (b : Boxes)
    → HasBoxes tx b
    → ((k : String) → Among k seen → IsStored k c.block_tx_inputs)
    → (k : String) → Among k (seen ++ b.created)
    → IsStored k (store_tx_coins t c).block_tx_inputs
kept_after e negate_value c tx t done seen b h kept k m = elim (Among-append k seen b.created m) [
  | inl before ↦ IsStored-before e negate_value c tx t done k (kept k before)
  | inr own ↦
      let same : h.outputs ≡ done.outputs = cc (h.has_outputs, done.has_outputs) in
      IsStored-created e negate_value c tx t done b.created k
        (subst (λ os. OutputBoxes os b.created) same h.creates) own
]

module _ (e : Client) (negate_value : String → Result String)
    (law : NegatesIntegers negate_value) where
  convert_txs_total :
      (c : BlockConverter) (seen : List String) (txs : List ErgoTransaction) (bs : List Boxes)
      → AllHaveBoxes txs bs
      → All (OutputsReady e negate_value) txs
      → SpendsNoOwn bs
      → AllHaveValue c.block_tx_inputs
      → ((k : String) → Among k seen → IsStored k c.block_tx_inputs)
      → ((ctx : InputCtx) → Among ctx (needed seen bs) → IsCovered c.pre_fetched_inputs ctx)
      → Succeeds (convert_txs e negate_value c txs)
  unfolding convert_txs needed
  convert_txs_total c seen [] [] h ready own values kept covered = (_, refl)
  convert_txs_total c seen [] (b ∷ bs) h ready own values kept covered = absurd h
  convert_txs_total c seen (tx ∷ txs) [] h ready own values kept covered = absurd h
  convert_txs_total c seen (tx ∷ txs) (b ∷ bs) (t, h) ((os, has_os, outs), ready) (no_own, own)
        values kept covered =
      let ins : All (InputReady c) t.inputs =
        inputs-InputReady c seen b values kept no_own
          (λ ctx m. covered ctx (Among-append_left ctx _ _ m)) t.inputs (λ s m. rw t.spends at m) in
      let (parsed, made) =
        tx_to_rosetta_tx_total e negate_value law c tx b.id t.inputs os t.has_id t.has_inputs has_os
          ins outs in
      let done : IsConverted e negate_value c tx parsed =
        tx_to_rosetta_tx-IsConverted e negate_value c tx parsed made in
      let (r, rest) =
        convert_txs_total (store_tx_coins parsed c) (seen ++ b.created) txs bs h ready own
          (stored_values e negate_value c tx parsed done values)
          (kept_after e negate_value c tx parsed done seen b t kept)
          (λ ctx m. IsCovered-after c parsed ctx (covered ctx (Among-append_right ctx _ _ m))) in
      >>=-Succeeds _ _ (wrap_deref-ok _ tx.id _ made) (>>=-Succeeds _ _ rest (_, refl))

  -- Where `NegateValue` negates decimal texts, a block converts if its header and transactions are
  -- set with all the pointers that the converter follows, no transaction spends a box that it
  -- creates itself, each output's tree has an address, and the fetched coins hold one with a
  -- decimal value for each context that `get_inputs_for_txs` returns for the block.
  pub block_to_rosetta_block_total :
      (block : FullBlock) (header : BlockHeader) (txs : BlockTransactions)
      (ergo_txs : List ErgoTransaction) (bs : List Boxes) (coins : List InputCtx)
      (coin_map : GoMap AccountCoin)
      → block.header ≡ some header
      → block.block_transactions ≡ some txs
      → txs.transactions ≡ some ergo_txs
      → AllHaveBoxes ergo_txs bs
      → SpendsNoOwn bs
      → All (OutputsReady e negate_value) ergo_txs
      → get_inputs_for_txs txs.transactions ≡ ok coins
      → All (IsCovered coin_map) coins
      → (b : Block) × (c : BlockConverter) × (block_to_rosetta_block e negate_value
            (new_block_converter coin_map)
            block
          ≡ ok (b, c))
  unfolding block_to_rosetta_block
  block_to_rosetta_block_total block header txs ergo_txs bs coins coin_map has_header has_txs
        has_ergo_txs boxes own ready asked covered =
      let c : BlockConverter = new_block_converter coin_map in
      let asked' : coins ≡ needed [] bs =
        cc (
          asked,
          ap get_inputs_for_txs has_ergo_txs,
          get_inputs_for_txs-needed ergo_txs bs boxes,
        ) in
      let (r, converted) =
        convert_txs_total c [] ergo_txs bs boxes ready own
          (λ k v stored. absurd (no_coin k v stored)) (λ k m. absurd m)
          (λ ctx m. All-Among (IsCovered coin_map) ctx coins covered (rw asked' m)) in
      let (r', total) = >>=-Succeeds _ _ (deref-ok _ has_header) (
        >>=-Succeeds _ _ (deref-ok _ has_txs)
          (>>=-Succeeds _ _ (deref-ok _ has_ergo_txs) (>>=-Succeeds _ _ converted (_, refl)))) in
      (r'.0, r'.1, total)
