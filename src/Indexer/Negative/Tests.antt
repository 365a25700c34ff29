-- ===== src/Indexer/Negative/Tests.antt =====
-- The second block of the sample chain, converted and then added.
use mathlib.Core.Path.{subst}
use rosetta_ergo.Base.{
  ℕ, pos, String, some, List, [], ◌∷◌, ok, ◌≡◌, refl, Bool-cases, inl, inr, All, ◌==◌, ap,
}
use rosetta_ergo.Base.GoMap.{GoMap, get}
use rosetta_ergo.Decimal.{parse_int}
use rosetta_ergo.Sdk.{AccountCoin, Block}
use rosetta_ergo.Ergo.Constants.{erg_currency}
use rosetta_ergo.Ergo.Types.{BlockTransactions, ErgoTransaction, ErgoTransactionOutput}
use rosetta_ergo.Rosetta.Converter.{BlockConverter, new_block_converter, block_to_rosetta_block}
use rosetta_ergo.Rosetta.Converter.Coverage.{block_to_rosetta_block_total}
use rosetta_ergo.Rosetta.Converter.Values.{AllCoins}
use rosetta_ergo.Indexer.State.{Indexer}
use rosetta_ergo.Indexer.Handlers.{block_added}
use rosetta_ergo.Indexer.Handlers.Added.{HasAdded}
use rosetta_ergo.Indexer.Negative.{ensure_negative_value_inputs}
use rosetta_ergo.Indexer.Negative.Converted.{HasBoxValue, CreatesValues, converted-HasAdded}
use rosetta_ergo.Samples.{
  asked, client, fetched, first_boxes, first_tx, full_block, has_boxes, has_value, header, indexer,
  negate, negate-NegatesIntegers, output, owned_coin, ready, second_boxes, second_tx, spend_no_own,
  storage, txs,
}

abbrev coins : GoMap AccountCoin
coins = ("b0", owned_coin) ∷ []

in_coins : get "b0" coins ≡ some owned_coin
unfolding get
in_coins = refl

conversion :
    (b : Block) × (c : BlockConverter) × (block_to_rosetta_block client negate
        (new_block_converter coins)
        full_block
      ≡ ok (b, c))
conversion =
    block_to_rosetta_block_total client negate negate-NegatesIntegers full_block
      (header "h2" "h1" (pos 2)) txs (first_tx ∷ second_tx ∷ []) (first_boxes ∷ second_boxes ∷ [])
      (fetched ∷ []) coins refl refl refl has_boxes spend_no_own
      (
        (output "b1" (pos 5) ∷ [], refl, (ready "b1", tt)),
        ((output "b2" (pos 5) ∷ [], refl, (ready "b2", tt)), tt),
      )
      asked ((owned_coin, in_coins, has_value), tt)

has_box_value : HasBoxValue owned_coin
unfolding parse_int
has_box_value = (record { value = "5"; currency = erg_currency }, 5, refl, refl)

coins-HasBoxValue : AllCoins HasBoxValue coins
unfolding get
coins-HasBoxValue k v h = elim (Bool-cases ("b0" == k)) [
  | inl there ↦
      let found : some owned_coin ≡ some v = rw there at h in
      let same : owned_coin ≡ v = cc found in subst HasBoxValue same has_box_value
  | inr missing ↦ cc (rw missing at h)
]

output-CreatesValues :
    (tx : ErgoTransaction) (box : String)
    → tx.outputs ≡ some (output box (pos 5) ∷ [])
    → CreatesValues tx
output-CreatesValues tx box e os h =
    let same : output box (pos 5) ∷ [] ≡ os = cc (e, h) in
    subst (All (λ (o : ErgoTransactionOutput). (n : ℕ) × (o.value ≡ pos n))) same ((5, refl), tt)

made :
    (t : BlockTransactions) (ergo_txs : List ErgoTransaction)
    → full_block.block_transactions ≡ some t
    → t.transactions ≡ some ergo_txs
    → All CreatesValues ergo_txs
made t ergo_txs h h' =
    let same : txs ≡ t = cc h in
    let same' : first_tx ∷ second_tx ∷ [] ≡ ergo_txs =
      cc (ap (λ (x : BlockTransactions). x.transactions) same, h') in
    subst (All CreatesValues) same'
      (output-CreatesValues first_tx "b1" refl, (output-CreatesValues second_tx "b2" refl, tt))

converted-HasAdded_example :
    (ensure_negative_value_inputs negate conversion.0 ≡ (ok tt, conversion.0))
    × (i' : Indexer ℕ) × (block_added storage negate conversion.0 indexer ≡ (ok tt, i'))
    × (i'.db ≡ 1)
    × HasAdded conversion.0 indexer i'
converted-HasAdded_example =
    converted-HasAdded client negate negate-NegatesIntegers storage coins full_block conversion.0
      conversion.1 indexer 1 coins-HasBoxValue made conversion.2
      (record {
        free = refl;
        sound = (
          record { flag = refl; over = λ q. cc q },
          (record { flag = refl; over = λ q. cc q }, tt),
        );
      })
      refl
