-- ===== src/Rosetta/Tests.antt =====
-- The theorems on the conversion at a block of two transactions, the second of which spends the
-- box of the first.
use rosetta_ergo.Base.{String, pos, some, [], ◌∷◌, ok, ◌≡◌, refl, arith}
use rosetta_ergo.Sdk.{Block, Transaction}
use rosetta_ergo.Rosetta.Header.{header_to_rosetta_block}
use rosetta_ergo.Rosetta.Header.Links.{AreLinked, to_blocks, header_to_rosetta_block-AreLinked}
use rosetta_ergo.Rosetta.Converter.{
  BlockConverter, new_block_converter, tx_to_rosetta_tx, block_to_rosetta_block,
  find_coin_for_input, output_address, store_tx_coins,
}
use rosetta_ergo.Rosetta.Converter.Operations.{IsConverted, tx_to_rosetta_tx-IsConverted}
use rosetta_ergo.Rosetta.Converter.Coins.{output_coin, find_coin-created}
use rosetta_ergo.Rosetta.Converter.Coverage.{block_to_rosetta_block_total}
use rosetta_ergo.Samples.{
  has_value, ready, fetched, asked, spend_no_own, first_boxes, second_boxes, has_boxes, negate,
  negate-NegatesIntegers, client, output, first_tx, second_tx, header, txs, full_block, owned_coin,
}
use rosetta_ergo.Base.GoMap.{get}
use rosetta_ergo.Decimal.{parse_int}

abbrev converter : BlockConverter
converter = new_block_converter (("b0", owned_coin) ∷ [])

-- What the first transaction becomes.
abbrev first_parsed : Transaction
first_parsed = elim (tx_to_rosetta_tx client negate converter first_tx) [
  | ok t ↦ t
  | _ ↦ record { transaction_identifier = record { hash = "" }; operations = [] }
]

first_converts : tx_to_rosetta_tx client negate converter first_tx ≡ ok first_parsed
unfolding tx_to_rosetta_tx negate get parse_int
first_converts = refl

found : find_coin_for_input converter "b0" ≡ ok owned_coin
unfolding find_coin_for_input get
found = refl

held : get "b0" (("b0", owned_coin) ∷ []) ≡ some owned_coin
unfolding get
held = refl

tx_to_rosetta_tx-IsConverted_example : IsConverted client negate converter first_tx first_parsed
tx_to_rosetta_tx-IsConverted_example =
    tx_to_rosetta_tx-IsConverted client negate converter first_tx first_parsed first_converts

find_coin-created_example :
    (address : String) × (output_address client negate "cd07021a8e6f59fd4a" ≡ ok address)
    × (find_coin_for_input (store_tx_coins first_parsed converter) "b1"
        ≡ ok (output_coin "b1" address (output "b1" (pos 5))))
find_coin-created_example =
    find_coin-created client negate converter first_tx first_parsed [] (output "b1" (pos 5)) [] "b1"
      first_converts refl refl tt

block_to_rosetta_block_total_example :
    (b : Block) × (c : BlockConverter) × (block_to_rosetta_block client negate
        (new_block_converter (("b0", owned_coin) ∷ []))
        full_block
      ≡ ok (b, c))
block_to_rosetta_block_total_example =
    block_to_rosetta_block_total client negate negate-NegatesIntegers full_block
      (header "h2" "h1" (pos 2)) txs (first_tx ∷ second_tx ∷ []) (first_boxes ∷ second_boxes ∷ [])
      (fetched ∷ []) (("b0", owned_coin) ∷ []) refl refl refl has_boxes spend_no_own
      (
        (output "b1" (pos 5) ∷ [], refl, (ready "b1", tt)),
        ((output "b2" (pos 5) ∷ [], refl, (ready "b2", tt)), tt),
      )
      asked ((owned_coin, held, has_value), tt)

header_to_rosetta_block-AreLinked_example :
    AreLinked
      (record { hash = "h1"; index = pos 1 })
      (to_blocks (header "h1" "h0" (pos 1) ∷ header "h2" "h1" (pos 2) ∷ []))
unfolding header_to_rosetta_block
header_to_rosetta_block-AreLinked_example =
    header_to_rosetta_block-AreLinked (header "h1" "h0" (pos 1)) (header "h2" "h1" (pos 2) ∷ [])
      refl
      (record { in_range = omega arith; parent = refl; next = refl; above = λ q. ground arith }, tt)
