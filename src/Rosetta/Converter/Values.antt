-- ===== src/Rosetta/Converter/Values.antt =====
-- A property of all the coins that the converter keeps from the transactions it has converted.
use rosetta_ergo.Base.{
  ℕ, suc, String, some, List, [], ◌∷◌, ◌≡◌, refl, inl, inr, arith, All, ◌==◌, Result, Bool-cases,
}
use rosetta_ergo.Base.GoMap.{GoMap, get, put, get-put}
use rosetta_ergo.Decimal.RoundTrip.{parse_int-format_int}
use rosetta_ergo.Sdk.{Transaction, Operation, OperationIdentifier, AccountCoin}
use rosetta_ergo.Ergo.Types.{ErgoTransaction, ErgoTransactionOutput}
use rosetta_ergo.Ergo.Client.{Client}
use rosetta_ergo.Rosetta.Converter.{BlockConverter, store_ops, store_tx_coins}
use rosetta_ergo.Rosetta.Converter.Operations.{CreatesAll, IsConverted}
use rosetta_ergo.Rosetta.Converter.Success.{HasValue}
use rosetta_ergo.Rosetta.Converter.Coins.{output_coin, stored_ops}

abbrev pub AllCoins : (AccountCoin → Type 0) → GoMap AccountCoin → Type 0
AllCoins P coins = (k : String) (v : AccountCoin) → get k coins ≡ some v → P v

abbrev pub AllHaveValue : GoMap AccountCoin → Type 0
AllHaveValue = AllCoins HasValue

-- Whatever its box and its address, the coin of the output has the property.
abbrev pub OutputFits : (AccountCoin → Type 0) → ErgoTransactionOutput → Type 0
OutputFits P o = (k address : String) → P (output_coin k address o)

AllCoins-put :
    (P : AccountCoin → Type 0) (j : String) (v : AccountCoin) (coins : GoMap AccountCoin)
    → P v
    → AllCoins P coins
    → AllCoins P (put j v coins)
AllCoins-put P j v coins hv h k w e = elim (Bool-cases (j == k)) [
  | inl same ↦ let e' : v ≡ w = ground (arith, get-put j k v coins) in rw (← e') hv
  | inr other ↦ let e' : get k coins ≡ some w = ground (arith, get-put j k v coins) in h k w e'
]

module _ (e : Client) (negate_value : String → Result String) (P : AccountCoin → Type 0) where
  store_ops-AllCoins :
      (related : List OperationIdentifier) (n : ℕ) (os : List ErgoTransactionOutput)
      (ops : List Operation) (coins : GoMap AccountCoin)
      → CreatesAll e negate_value related n os ops
      → All (OutputFits P) os
      → AllCoins P coins
      → AllCoins P (store_ops ops coins)
  unfolding store_ops
  store_ops-AllCoins related n [] [] coins h fits v = v
  store_ops-AllCoins related n [] (op ∷ ops) coins h fits v = absurd h
  store_ops-AllCoins related n (o ∷ os) [] coins h fits v = absurd h
  store_ops-AllCoins related n (o ∷ os) (op ∷ ops) coins (h, hs) (fit, fits) v = rw h.is_op (
      store_ops-AllCoins related (suc n) os ops _ hs fits
        (AllCoins-put P h.box_id _ coins (fit h.box_id h.address) v))

  -- What holds of the kept coins and of those of the transaction's outputs holds after it.
  pub stored_coins :
      (c : BlockConverter) (tx : ErgoTransaction) (t : Transaction)
      (h : IsConverted e negate_value c tx t)
      → All (OutputFits P) h.outputs
      → AllCoins P c.block_tx_inputs
      → AllCoins P (store_tx_coins t c).block_tx_inputs
  stored_coins c tx t h fits v =
      rw (stored_ops e negate_value c tx t h)
        (store_ops-AllCoins _ _ h.outputs _ _ h.creates fits v)

outputs-HasValue : (os : List ErgoTransactionOutput) → All (OutputFits HasValue) os
outputs-HasValue [] = tt
outputs-HasValue (o ∷ os) =
    (λ k address. (_, o.value, refl, parse_int-format_int o.value), outputs-HasValue os)

pub stored_values :
    (e : Client) (negate_value : String → Result String) (c : BlockConverter) (tx : ErgoTransaction)
    (t : Transaction)
    → IsConverted e negate_value c tx t
    → AllHaveValue c.block_tx_inputs
    → AllHaveValue (store_tx_coins t c).block_tx_inputs
stored_values e negate_value c tx t h v =
    stored_coins e negate_value HasValue c tx t h (outputs-HasValue h.outputs) v
