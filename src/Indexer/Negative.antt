-- ===== src/Indexer/Negative.antt =====
-- `ensureNegativeValueInputs` of pkg/indexer/indexer.go: it rewrites the amounts of the block that
-- it is given, and stops at the first operation that fails.
pub mod Signs
pub mod Converted
pub mod Tests
use rosetta_ergo.Base.{
  String, Option, none, some, List, [], ◌∷◌, Result, ok, err, panics, blocks, errorf, str, ◌>>=◌,
  wrap_with, sign, plus, minus, null,
}
use rosetta_ergo.Decimal.{parse_int}
use rosetta_ergo.Sdk.{
  Block, Transaction, Operation, Amount, CoinAction, CoinChange, coin_created, coin_spent,
}

-- The loops: what was rewritten before a failure stays rewritten.
abbrev pub then_ops :
    Operation
    → List Operation
    → Result Operation
    → Result (Unit {0}) × List Operation
    → Result (Unit {0}) × List Operation
then_ops op ops (ok op') (r, ops') = (r, op' ∷ ops')
then_ops op ops (err e) rest = (err e, op ∷ ops)
then_ops op ops panics rest = (panics, op ∷ ops)
then_ops op ops blocks rest = (blocks, op ∷ ops)

abbrev pub then_txs :
    Result (Unit {0})
    → List Transaction
    → Result (Unit {0}) × List Transaction
    → Result (Unit {0}) × List Transaction
then_txs (ok u) txs r = r
then_txs (err e) txs r = (err e, txs)
then_txs panics txs r = (panics, txs)
then_txs blocks txs r = (blocks, txs)

module _ (negate_value : String → Result String) where
  -- `op.Amount.Value`, made negative if it is positive. A text that is no integer is not printed:
  -- the error formats the nil `bigVal`.
  unfoldable pub negative_amount : Amount → Result Amount
  negative_amount amount = elim (parse_int amount.value) [
    | none ↦ err (errorf "%s is not an integer" (str "<nil>" ∷ []))
    | some big_val ↦ elim (sign big_val) [
      | plus ↦
          wrap_with "%w: unable to negate input" [] (negate_value amount.value) >>= λ negated_val.
          ok (record amount { value = negated_val })
      | null ↦ ok amount
      | minus ↦ ok amount
    ]
  ]

  abbrev pub negative_spent : Operation → CoinAction → Option Amount → Result Operation
  negative_spent op coin_created amount = ok op
  negative_spent op coin_spent none = panics
  negative_spent op coin_spent (some a) =
      negative_amount a >>= λ a'. ok (record op { amount = some a' })

  -- `op.CoinChange.CoinAction` and `op.Amount.Value` follow the pointers without a test for nil.
  abbrev pub negative_input : Operation → Option CoinChange → Result Operation
  negative_input op none = panics
  negative_input op (some change) = negative_spent op change.coin_action op.amount

  unfoldable pub negative_ops : List Operation → Result (Unit {0}) × List Operation
  unfolding negative_amount
  negative_ops [] = (ok tt, [])
  negative_ops (op ∷ ops) = then_ops op ops (negative_input op op.coin_change) (negative_ops ops)

  unfoldable pub negative_txs : List Transaction → Result (Unit {0}) × List Transaction
  unfolding negative_ops
  negative_txs [] = (ok tt, [])
  negative_txs (tx ∷ txs) =
      let (r, ops) = negative_ops tx.operations in
      let (r', txs') = negative_txs txs in
      then_txs r (record tx { operations = ops } ∷ txs) (r', record tx { operations = ops } ∷ txs')

  unfoldable pub ensure_negative_value_inputs : Block → Result (Unit {0}) × Block
  unfolding negative_txs
  ensure_negative_value_inputs block =
      let (r, txs) = negative_txs block.transactions in (r, record block { transactions = txs })
