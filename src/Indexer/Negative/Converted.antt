-- ===== src/Indexer/Negative/Converted.antt =====
-- `ensureNegativeValueInputs` on the blocks that `Block` of pkg/indexer/indexer.go converts.
use rosetta_ergo.Base.{
  ℕ, zero, suc, pos, neg, String, some, List, [], ◌∷◌, ◌≡◌, ◌≢◌, ◌∙◌, refl, ap, inl, inr, Result,
  ok, >>=-eq-ok, deref, deref-eq-ok, sign, plus, All, All-append, Option-cases,
}
use rosetta_ergo.Base.GoMap.{GoMap, get}
use rosetta_ergo.Decimal.{parse_int, format_int}
use rosetta_ergo.Decimal.RoundTrip.{parse_int-format_int}
use rosetta_ergo.Sdk.{Amount, Block, Operation, OperationIdentifier, Transaction, AccountCoin}
use rosetta_ergo.Ergo.Types.{
  BlockTransactions, ErgoTransaction, ErgoTransactionInput, ErgoTransactionOutput, FullBlock,
}
use rosetta_ergo.Ergo.Client.{Client}
use rosetta_ergo.Rosetta.Header.{header_to_rosetta_block}
use rosetta_ergo.Rosetta.Converter.{
  BlockConverter, new_block_converter, find_coin_for_input, store_tx_coins, convert_txs,
  block_to_rosetta_block,
}
use rosetta_ergo.Rosetta.Converter.Operations.{
  SpendsInput, SpendsAll, CreatesAll, IsConverted, tx_to_rosetta_tx-IsConverted, wrap_deref-eq-ok,
}
use rosetta_ergo.Rosetta.Converter.Success.{NegatesIntegers}
use rosetta_ergo.Rosetta.Converter.Values.{AllCoins, OutputFits, stored_coins}
use rosetta_ergo.Indexer.Storage.{Storage}
use rosetta_ergo.Indexer.State.{Indexer}
use rosetta_ergo.Indexer.Negative.{ensure_negative_value_inputs}
use rosetta_ergo.Indexer.Negative.Signs.{IsNegative, AllNegative, ensure_negative_value_inputs-kept}
use rosetta_ergo.Indexer.Handlers.{block_added}
use rosetta_ergo.Indexer.Handlers.Seen.{IsQuiet}
use rosetta_ergo.Indexer.Handlers.Added.{HasAdded, block_added-HasAdded}

-- The coin's amount is set, to the decimal text of a number that is not negative.
abbrev pub HasBoxValue : AccountCoin → Type 0
HasBoxValue coin =
    (a : Amount) × (n : ℕ) × (coin.coin.amount ≡ some a) × (parse_int a.value ≡ some (pos n))

-- The outputs of the transaction have values that are not negative.
abbrev pub CreatesValues : ErgoTransaction → Type 0
CreatesValues tx =
    (os : List ErgoTransactionOutput)
    → tx.outputs ≡ some os
    → All (λ (o : ErgoTransactionOutput). (n : ℕ) × (o.value ≡ pos n)) os

no_coin : (k : String) (v : AccountCoin) → get k [] ≡ some v → ⊥
unfolding get
no_coin k v h = cc

last_step :
    (from : Block) (txs : List Transaction) (c' c : BlockConverter) (b : Block)
    → ◌≡◌ {A = Result (Block × BlockConverter)}
        (ok (record from { transactions = txs }, c'))
        (ok (b, c))
    → txs ≡ b.transactions
last_step from txs c' c b h =
    let e : record from { transactions = txs } ≡ b = cc h in ap (λ (x : Block). x.transactions) e

not_plus : (n : ℕ) → sign (neg (pos n)) ≢ plus
not_plus zero = λ q. cc q
not_plus (suc n) = λ q. cc q

outputs-HasBoxValue :
    (os : List ErgoTransactionOutput)
    → All (λ (o : ErgoTransactionOutput). (n : ℕ) × (o.value ≡ pos n)) os
    → All (OutputFits HasBoxValue) os
outputs-HasBoxValue [] h = tt
outputs-HasBoxValue (o ∷ os) ((n, e), h) =
    (λ k address. (_, n, refl, rw e (parse_int-format_int (pos n))), outputs-HasBoxValue os h)

found-HasBoxValue :
    (c : BlockConverter) (id : String) (coin : AccountCoin)
    → AllCoins HasBoxValue c.block_tx_inputs
    → AllCoins HasBoxValue c.pre_fetched_inputs
    → find_coin_for_input c id ≡ ok coin
    → HasBoxValue coin
unfolding find_coin_for_input
found-HasBoxValue c id coin kept fetched h = elim (Option-cases (get id c.block_tx_inputs)) [
  | inr (v, e) ↦ kept id coin (e ∙ ap some (cc (rw (e, find_coin_for_input) at h)))
  | inl missing ↦ elim (Option-cases (get id c.pre_fetched_inputs)) [
    | inr (v, e) ↦ fetched id coin (e ∙ ap some (cc (rw (missing, e, find_coin_for_input) at h)))
    | inl gone ↦ cc (rw (missing, gone, find_coin_for_input) at h)
  ]
]

module _ (e : Client) (negate_value : String → Result String)
    (law : NegatesIntegers negate_value) where
  spent-IsNegative :
      (c : BlockConverter) (n : ℕ) (i : ErgoTransactionInput) (op : Operation)
      → AllCoins HasBoxValue c.block_tx_inputs
      → AllCoins HasBoxValue c.pre_fetched_inputs
      → SpendsInput e negate_value c n i op
      → IsNegative op
  spent-IsNegative c n i op kept fetched h =
      let (a, v, has, parsed) = found-HasBoxValue c i.box_id h.coin kept fetched h.is_found in
      let same : a ≡ h.held = cc (has, h.is_held) in
      let negated : h.negated ≡ format_int (neg (pos v)) =
        cc (h.is_negated, law h.held.value (pos v) (rw same at parsed)) in
      rw h.is_op (neg (pos v), rw negated (parse_int-format_int (neg (pos v))), not_plus v)

  spends-IsNegative :
      (c : BlockConverter) (n : ℕ) (is : List ErgoTransactionInput) (ops : List Operation)
      → AllCoins HasBoxValue c.block_tx_inputs
      → AllCoins HasBoxValue c.pre_fetched_inputs
      → SpendsAll e negate_value c n is ops
      → All IsNegative ops
  spends-IsNegative c n [] [] kept fetched h = tt
  spends-IsNegative c n [] (op ∷ ops) kept fetched h = absurd h
  spends-IsNegative c n (i ∷ is) [] kept fetched h = absurd h
  spends-IsNegative c n (i ∷ is) (op ∷ ops) kept fetched (h, hs) =
      (spent-IsNegative c n i op kept fetched h, spends-IsNegative c (suc n) is ops kept fetched hs)

  creates-IsNegative :
      (related : List OperationIdentifier) (n : ℕ) (os : List ErgoTransactionOutput)
      (ops : List Operation)
      → CreatesAll e negate_value related n os ops
      → All IsNegative ops
  creates-IsNegative related n [] [] h = tt
  creates-IsNegative related n [] (op ∷ ops) h = absurd h
  creates-IsNegative related n (o ∷ os) [] h = absurd h
  creates-IsNegative related n (o ∷ os) (op ∷ ops) (h, hs) =
      (rw h.is_op tt, creates-IsNegative related (suc n) os ops hs)

  convert_txs-AllNegative :
      (c c' : BlockConverter) (txs : List ErgoTransaction) (parsed : List Transaction)
      → All CreatesValues txs
      → AllCoins HasBoxValue c.block_tx_inputs
      → AllCoins HasBoxValue c.pre_fetched_inputs
      → convert_txs e negate_value c txs ≡ ok (parsed, c')
      → AllNegative parsed
  unfolding convert_txs
  convert_txs-AllNegative c c' [] parsed made kept fetched h =
      let empty : [] ≡ parsed = cc h in rw (← empty) tt
  convert_txs-AllNegative c c' (tx ∷ txs) parsed (made, more) kept fetched h =
      let (t, first, h₁) = >>=-eq-ok _ _ h in
      let ((ts, c''), rest, h₂) =
        >>=-eq-ok (convert_txs e negate_value (store_tx_coins t c) txs) _ h₁ in
      let d : IsConverted e negate_value c tx t =
        tx_to_rosetta_tx-IsConverted e negate_value c tx t (wrap_deref-eq-ok _ tx.id _ first) in
      let kept' : AllCoins HasBoxValue (store_tx_coins t c).block_tx_inputs =
        stored_coins e negate_value HasBoxValue c tx t d
          (outputs-HasBoxValue d.outputs (made d.outputs d.has_outputs)) kept in
      let all : t ∷ ts ≡ parsed = cc h₂ in
      rw (← all) (
        rw d.in_order (
            All-append IsNegative d.input_ops d.output_ops
              (spends-IsNegative c 0 d.inputs d.input_ops kept fetched d.spends)
              (creates-IsNegative _ _ d.outputs d.output_ops d.creates)),
        convert_txs-AllNegative (store_tx_coins t c) c'' txs ts more kept'
            (unfold store_tx_coins in fetched) rest,
      )

  converted-AllNegative :
      (coin_map : GoMap AccountCoin) (block : FullBlock) (b : Block) (c : BlockConverter)
      → AllCoins HasBoxValue coin_map
      → ((txs : BlockTransactions) (ergo_txs : List ErgoTransaction)
          → block.block_transactions ≡ some txs
          → txs.transactions ≡ some ergo_txs
          → All CreatesValues ergo_txs)
      → block_to_rosetta_block e negate_value (new_block_converter coin_map) block ≡ ok (b, c)
      → AllNegative b.transactions
  unfolding block_to_rosetta_block
  converted-AllNegative coin_map block b c fetched made h =
      let (header, has_header, h₁) = >>=-eq-ok (deref block.header) _ h in
      let (txs, has_txs, h₂) = >>=-eq-ok (deref block.block_transactions) _ h₁ in
      let (ergo_txs, has_ergo_txs, h₃) = >>=-eq-ok (deref txs.transactions) _ h₂ in
      let ((parsed, c'), converted, h₄) =
        >>=-eq-ok (convert_txs e negate_value (new_block_converter coin_map) ergo_txs) _ h₃ in
      let same : parsed ≡ b.transactions =
        last_step (header_to_rosetta_block header) parsed c' c b h₄ in
      rw (← same) (
        convert_txs-AllNegative (new_block_converter coin_map) c' ergo_txs parsed
          (made txs ergo_txs (deref-eq-ok _ has_txs) (deref-eq-ok _ has_ergo_txs))
          (λ k v stored. absurd (no_coin k v stored)) fetched converted)

  -- Where `NegateValue` negates decimal texts, the fetched coins have decimal values that are not
  -- negative and neither are the values of the block's outputs: a block that the converter
  -- returns and that the storage accepts is added by `BlockAdded`, from a table whose lock is
  -- free and whose closed flags are right, with its amounts unchanged by the check and without a
  -- panic or a deadlock, and leaves the state as an added block does.
  pub converted-HasAdded :
      {DB : Type 0} (s : Storage DB) (coin_map : GoMap AccountCoin) (block : FullBlock) (b : Block)
      (c : BlockConverter) (i : Indexer DB) (db' : DB)
      → AllCoins HasBoxValue coin_map
      → ((txs : BlockTransactions) (ergo_txs : List ErgoTransaction)
          → block.block_transactions ≡ some txs
          → txs.transactions ≡ some ergo_txs
          → All CreatesValues ergo_txs)
      → block_to_rosetta_block e negate_value (new_block_converter coin_map) block ≡ ok (b, c)
      → IsQuiet i
      → s.add_block b i.db ≡ (ok tt, db')
      → (ensure_negative_value_inputs negate_value b ≡ (ok tt, b))
        × (i' : Indexer DB) × (block_added s negate_value b i ≡ (ok tt, i'))
        × (i'.db ≡ db')
        × HasAdded b i i'
  converted-HasAdded s coin_map block b c i db' fetched made h q stored =
      let passes =
        ensure_negative_value_inputs-kept negate_value b
          (converted-AllNegative coin_map block b c fetched made h) in
      let (i', run, db, added) = block_added-HasAdded s negate_value b b i db' q passes stored in
      (passes, i', run, db, added)
