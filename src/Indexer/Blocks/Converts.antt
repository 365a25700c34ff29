-- ===== src/Indexer/Blocks/Converts.antt =====
-- A block whose coins `findCoins` has found is converted.
use rosetta_ergo.Base.{
  String, Option, some, List, [], ◌∷◌, ◌≡◌, ◌∙◌, ap, Result, ok, err, Err, wrap, All,
}
use rosetta_ergo.Base.GoMap.{GoMap, get}
use rosetta_ergo.Sdk.{
  Block, BlockIdentifier, PartialBlockIdentifier, AccountCoin, AccountIdentifier, Coin,
}
use rosetta_ergo.Ergo.Types.{BlockHeader, BlockTransactions, ErgoTransaction, FullBlock}
use rosetta_ergo.Ergo.Client.{Client}
use rosetta_ergo.Ergo.Inputs.{InputCtx, get_inputs_for_txs}
use rosetta_ergo.Ergo.Inputs.Exact.{Boxes, AllHaveBoxes}
use rosetta_ergo.Rosetta.Converter.{BlockConverter, new_block_converter, block_to_rosetta_block}
use rosetta_ergo.Rosetta.Converter.Success.{NegatesIntegers, HasValue}
use rosetta_ergo.Rosetta.Converter.Coverage.{
  IsCovered, SpendsNoOwn, OutputsReady, block_to_rosetta_block_total,
}
use rosetta_ergo.Indexer.Storage.{Storage}
use rosetta_ergo.Indexer.State.{Indexer}
use rosetta_ergo.Indexer.Fetching.{Attempt, find_coins}
use rosetta_ergo.Indexer.Fetching.Maps.{HasKey, AllFit, get-AllFit}
use rosetta_ergo.Indexer.Fetching.Found.{AttemptsKeep, find_coins-HasCoins}
use rosetta_ergo.Indexer.Blocks.{Try, fetch_block, convert_checked, convert_found, block}

-- Each cached coin has a decimal value.
abbrev pub CacheHasValues : {DB : Type 0} → Indexer DB → Type 0
CacheHasValues i = (id : String) (a : AccountCoin) → get id i.coin_cache ≡ some a → HasValue a

-- Each coin of the storage has a decimal value.
abbrev pub StorageHasValues : {DB : Type 0} → Storage DB → Type 0
StorageHasValues {DB} s =
    (db : DB) (id : String) (coin : Coin) (owner : AccountIdentifier)
    → s.get_coin db id ≡ ok (coin, owner)
    → HasValue (record { account = some owner; coin = coin })

-- A block of the node that the converter can follow.
pub record IsComplete (e : Client) (negate_value : String → Result String) (b : FullBlock)
    : Type 0 where
  pub header : BlockHeader
  pub txs : BlockTransactions
  pub ergo_txs : List ErgoTransaction
  pub boxes : List Boxes
  pub has_header : b.header ≡ some header
  pub has_txs : b.block_transactions ≡ some txs
  pub has_ergo_txs : txs.transactions ≡ some ergo_txs
  pub have_boxes : AllHaveBoxes ergo_txs boxes
  pub spend_no_own : SpendsNoOwn boxes
  pub outputs_ready : All (OutputsReady e negate_value) ergo_txs

module _ (e : Client) (negate_value : String → Result String) (check : Block → Result (Unit {0}))
    {DB : Type 0} (s : Storage DB) (genesis : BlockIdentifier)
    (hash : Option BlockIdentifier → String) where
  All-IsCovered :
      (m : GoMap AccountCoin) (coins : List InputCtx)
      → AllFit (λ k a. HasValue a) m
      → All (λ (c : InputCtx). HasKey c.input_id m) coins
      → All (IsCovered m) coins
  All-IsCovered m [] fit has = tt
  All-IsCovered m (c ∷ coins) fit ((a, found), has) = (
    (a, found, get-AllFit (λ k a. HasValue a) c.input_id a m fit found),
    All-IsCovered m coins fit has,
  )

  convert_checked-ok :
      (m : GoMap AccountCoin) (b : FullBlock) (r : Block) (c : BlockConverter)
      → block_to_rosetta_block e negate_value (new_block_converter m) b ≡ ok (r, c)
      → check r ≡ ok tt
      → convert_checked e negate_value check m (some b) ≡ ok r
  unfolding convert_checked
  convert_checked-ok m b r c made accepted = rw (made, convert_checked) (rw accepted)

  convert_checked-err :
      (m : GoMap AccountCoin) (b : FullBlock) (r : Block) (c : BlockConverter) (x : Err)
      → block_to_rosetta_block e negate_value (new_block_converter m) b ≡ ok (r, c)
      → check r ≡ err x
      → convert_checked e negate_value check m (some b)
        ≡ err (wrap x "%w: block is not valid %+v" [])
  unfolding convert_checked
  convert_checked-err m b r c x made refused = rw (made, convert_checked) (rw refused)

  -- Where `NegateValue` negates decimal texts, where all coins of the storage and of the cache have
  -- decimal values and the other goroutines cache only such coins: if the node returns a block with
  -- all the pointers that the converter follows, of which no transaction spends a box that it
  -- creates itself and each output's tree has an address, and `findCoins` finds the coins for what
  -- `get_inputs_for_txs` returns for it, then the block is converted, and `Block` returns the
  -- converted block if the asserter accepts it, and the asserter's error, wrapped, if it does not.
  pub block_total :
      (tries : List Try) (attempts : List (Attempt DB)) (id : PartialBlockIdentifier)
      (i i' : Indexer DB) (b : FullBlock) (inputs : List InputCtx) (m : GoMap AccountCoin)
      → NegatesIntegers negate_value
      → StorageHasValues s
      → AttemptsKeep CacheHasValues attempts
      → CacheHasValues i
      → fetch_block id 0 tries ≡ ok (some b, inputs)
      → (c : IsComplete e negate_value b) → get_inputs_for_txs c.txs.transactions ≡ ok inputs
      → find_coins s genesis hash (some b) attempts inputs i ≡ (ok m, i')
      → (r : Block) × (c : BlockConverter) × (block_to_rosetta_block e negate_value
            (new_block_converter m)
            b
          ≡ ok (r, c))
        × (check r ≡ ok tt
            → block e negate_value check s genesis hash tries attempts id i ≡ (ok r, i'))
        × ((x : Err)
            → check r ≡ err x
            → block e negate_value check s genesis hash tries attempts id i
              ≡ (err (wrap x "%w: block is not valid %+v" []), i'))
  unfolding block convert_checked
  block_total tries attempts id i i' b inputs m law stored keep values fetched c asked found =
      let (has, values') =
        find_coins-HasCoins s genesis hash CacheHasValues (λ j t h. h) (λ k a. HasValue a) stored
          (λ j k a h. h k a) (some b) attempts inputs i i' m keep values found in
      let (r, c', made) =
        block_to_rosetta_block_total e negate_value law b c.header c.txs c.ergo_txs c.boxes inputs m
          c.has_header c.has_txs c.has_ergo_txs c.have_boxes c.spend_no_own c.outputs_ready asked
          (All-IsCovered m inputs has.0 has.1) in
      let converts = ap (convert_found e negate_value check (some b)) found in
      (
        r,
        c',
        made,
        λ accepted.
            rw (fetched, block)
              (converts ∙ ap (λ x. (x, i')) (convert_checked-ok m b r c' made accepted)),
        λ x refused.
            rw (fetched, block)
              (converts ∙ ap (λ y. (y, i')) (convert_checked-err m b r c' x made refused)),
      )
