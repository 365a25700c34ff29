-- ===== src/Indexer/Negative/Signs.antt =====
-- What `ensure_negative_value_inputs` guarantees of the amounts of a block.
use rosetta_ergo.Base.{
  ℤ, pos, negsuc, zero, suc, String, Option, none, some, List, [], ◌∷◌, ◌≡◌, ◌≢◌, ◌∙◌, refl, ap,
  arith, Result, ok, err, panics, blocks, >>=-eq-ok, sign, plus, All,
}
use rosetta_ergo.Decimal.{parse_int, format_int}
use rosetta_ergo.Decimal.RoundTrip.{parse_int-format_int}
use rosetta_ergo.Sdk.{
  Block, Transaction, Operation, Amount, CoinChange, CoinAction, coin_created, coin_spent,
}
use rosetta_ergo.Rosetta.Converter.Success.{NegatesIntegers}
use rosetta_ergo.Indexer.Negative.{
  negative_amount, negative_spent, negative_input, then_ops, negative_ops, negative_txs, then_txs,
  ensure_negative_value_inputs,
}

-- The amount is the text of an integer that is not positive.
abbrev pub IsNotPositive : Amount → Type 0
IsNotPositive a = (z : ℤ) × (parse_int a.value ≡ some z) × (sign z ≢ plus)

-- A spent coin's amount is set, and not positive.
abbrev pub SpentIsNegative : CoinAction → Option Amount → Type 0
SpentIsNegative coin_created amount = Unit
SpentIsNegative coin_spent none = ⊥
SpentIsNegative coin_spent (some a) = IsNotPositive a

abbrev pub ChangeIsNegative : Option CoinChange → Option Amount → Type 0
ChangeIsNegative none amount = ⊥
ChangeIsNegative (some change) amount = SpentIsNegative change.coin_action amount

abbrev pub IsNegative : Operation → Type 0
IsNegative op = ChangeIsNegative op.coin_change op.amount

abbrev pub AllNegative : List Transaction → Type 0
AllNegative txs = All (λ (tx : Transaction). All IsNegative tx.operations) txs

-- An amount that is not positive stays as it is.
negative_amount-kept :
    (negate_value : String → Result String) (a : Amount)
    → IsNotPositive a
    → negative_amount negate_value a ≡ ok a
unfolding negative_amount
negative_amount-kept nv a (pos zero, e, n) = rw (e, negative_amount)
negative_amount-kept nv a (pos (suc k), e, n) = absurd (n refl)
negative_amount-kept nv a (negsuc k, e, n) = rw (e, negative_amount)

module _ (negate_value : String → Result String) where
  negative_spent-kept :
      (op : Operation) (act : CoinAction) (amount : Option Amount)
      → op.amount ≡ amount
      → SpentIsNegative act amount
      → negative_spent negate_value op act amount ≡ ok op
  negative_spent-kept op coin_created amount e h = refl
  negative_spent-kept op coin_spent none e h = absurd h
  negative_spent-kept op coin_spent (some a) e h =
      rw (negative_amount-kept negate_value a h) (ap ok (ground arith))

  negative_input-kept :
      (op : Operation) (change : Option CoinChange)
      → ChangeIsNegative change op.amount
      → negative_input negate_value op change ≡ ok op
  negative_input-kept op none h = absurd h
  negative_input-kept op (some change) h =
      negative_spent-kept op change.coin_action op.amount refl h

  negative_ops-kept :
      (ops : List Operation) → All IsNegative ops → negative_ops negate_value ops ≡ (ok tt, ops)
  unfolding negative_ops
  negative_ops-kept [] h = refl
  negative_ops-kept (op ∷ ops) (h, hs) =
      rw (negative_input-kept op op.coin_change h, negative_ops-kept ops hs)

  negative_txs-kept :
      (txs : List Transaction) → AllNegative txs → negative_txs negate_value txs ≡ (ok tt, txs)
  unfolding negative_txs
  negative_txs-kept [] h = refl
  negative_txs-kept (tx ∷ txs) (h, hs) =
      rw (negative_ops-kept tx.operations h, negative_txs-kept txs hs)

  -- A block whose spent amounts are not positive passes the check and is left as it is.
  pub ensure_negative_value_inputs-kept :
      (b : Block)
      → AllNegative b.transactions
      → ensure_negative_value_inputs negate_value b ≡ (ok tt, b)
  unfolding ensure_negative_value_inputs
  ensure_negative_value_inputs-kept b h = rw (negative_txs-kept b.transactions h)

module _ (negate_value : String → Result String) (law : NegatesIntegers negate_value) where
  negative_amount-of :
      (a a' : Amount) (o : Option ℤ)
      → parse_int a.value ≡ o
      → negative_amount negate_value a ≡ ok a'
      → IsNotPositive a'
  unfolding negative_amount
  negative_amount-of a a' none e h = absurd (ground arith)
  negative_amount-of a a' (some (pos zero)) e h =
      let same : a ≡ a' = ground arith in (pos 0, rw (← same) e, λ q. cc q)
  negative_amount-of a a' (some (negsuc k)) e h =
      let same : a ≡ a' = ground arith in (negsuc k, rw (← same) e, λ q. cc q)
  negative_amount-of a a' (some (pos (suc k))) e h =
      let negated : negate_value a.value ≡ ok (format_int (negsuc k)) =
        law a.value (pos (suc k)) e in
      let value : a'.value ≡ format_int (negsuc k) = ground arith in
      (negsuc k, rw value (parse_int-format_int (negsuc k)), λ q. cc q)

  negative_spent-IsNegative :
      (op op' : Operation) (act : CoinAction) (amount : Option Amount)
      → op.amount ≡ amount
      → negative_spent negate_value op act amount ≡ ok op'
      → (op'.coin_change ≡ op.coin_change) × SpentIsNegative act op'.amount
  negative_spent-IsNegative op op' coin_created amount e h = (ground arith, tt)
  negative_spent-IsNegative op op' coin_spent none e h = cc
  negative_spent-IsNegative op op' coin_spent (some a) e h =
      let (a', made, h') = >>=-eq-ok (negative_amount negate_value a) _ h in
      let written : op'.amount ≡ some a' = ground arith in
      (ground arith, rw written (negative_amount-of a a' (parse_int a.value) refl made))

  negative_input-IsNegative :
      (op op' : Operation) (change : Option CoinChange)
      → op.coin_change ≡ change
      → negative_input negate_value op change ≡ ok op'
      → IsNegative op'
  negative_input-IsNegative op op' none e h = cc
  negative_input-IsNegative op op' (some change) e h =
      let (same, n) = negative_spent-IsNegative op op' change.coin_action op.amount refl h in
      rw (same ∙ e) n

  then_ops-IsNegative :
      (op : Operation) (ops : List Operation) (r : Result Operation)
      (rest : Result (Unit {0}) × List Operation)
      → negative_input negate_value op op.coin_change ≡ r
      → (rest.0 ≡ ok tt → All IsNegative rest.1)
      → (then_ops op ops r rest).0 ≡ ok tt
      → All IsNegative (then_ops op ops r rest).1
  then_ops-IsNegative op ops (ok op') rest e ih q =
      (negative_input-IsNegative op op' op.coin_change refl e, ih q)
  then_ops-IsNegative op ops (err x) rest e ih q = cc
  then_ops-IsNegative op ops panics rest e ih q = cc
  then_ops-IsNegative op ops blocks rest e ih q = cc

  negative_ops-IsNegative :
      (ops : List Operation)
      → (negative_ops negate_value ops).0 ≡ ok tt
      → All IsNegative (negative_ops negate_value ops).1
  unfolding negative_ops
  negative_ops-IsNegative [] h = tt
  negative_ops-IsNegative (op ∷ ops) h =
      then_ops-IsNegative op ops _ (negative_ops negate_value ops) refl
        (negative_ops-IsNegative ops) h

  then_txs-AllNegative :
      (r : Result (Unit {0})) (txs : List Transaction) (rest : Result (Unit {0}) × List Transaction)
      → (r ≡ ok tt → rest.0 ≡ ok tt → AllNegative rest.1)
      → (then_txs r txs rest).0 ≡ ok tt
      → AllNegative (then_txs r txs rest).1
  then_txs-AllNegative (ok tt) txs rest ih q = ih refl q
  then_txs-AllNegative (err x) txs rest ih q = cc
  then_txs-AllNegative panics txs rest ih q = cc
  then_txs-AllNegative blocks txs rest ih q = cc

  negative_txs-AllNegative :
      (txs : List Transaction)
      → (negative_txs negate_value txs).0 ≡ ok tt
      → AllNegative (negative_txs negate_value txs).1
  unfolding negative_txs
  negative_txs-AllNegative [] h = tt
  negative_txs-AllNegative (tx ∷ txs) h =
      let ops = negative_ops negate_value tx.operations in
      let rest = negative_txs negate_value txs in
      let tx' = record tx { operations = ops.1 } in
      then_txs-AllNegative ops.0 (tx' ∷ txs) (rest.0, tx' ∷ rest.1)
        (λ now later.
          (negative_ops-IsNegative tx.operations now, negative_txs-AllNegative txs later))
        h

  -- Where `NegateValue` negates decimal texts, a block that passes has every spent coin's amount
  -- set to the text of an integer that is not positive, and to pass it again changes nothing.
  pub ensure_negative_value_inputs-AllNegative :
      (b : Block)
      → (ensure_negative_value_inputs negate_value b).0 ≡ ok tt
      → let b' = (ensure_negative_value_inputs negate_value b).1 in
        AllNegative b'.transactions × (ensure_negative_value_inputs negate_value b' ≡ (ok tt, b'))
  unfolding ensure_negative_value_inputs
  ensure_negative_value_inputs-AllNegative b h =
      let n = negative_txs-AllNegative b.transactions h in
      (n, ensure_negative_value_inputs-kept negate_value _ n)
