-- ===== src/Indexer/Blocks/Tests.antt =====
-- The theorems on the fetch of a block and of its coins, at the second block of the sample chain.
use mathlib.Core.Path.{subst}
use rosetta_ergo.Base.{
  ℕ, pos, String, false, none, some, [], ◌∷◌, Result, ok, err, Err, errorf, wrap, str, ◌≡◌, refl,
  ◌==◌, Bool-cases, inl, inr, contains, if◌then◌else◌, arith,
}
use rosetta_ergo.Base.GoMap.{get, put}
use rosetta_ergo.Sdk.{Block, PartialBlockIdentifier}
use rosetta_ergo.Ergo.Client.{get_block_by_id}
use rosetta_ergo.Ergo.Inputs.{get_inputs_for_txs}
use rosetta_ergo.Rosetta.Converter.Success.{HasValue}
use rosetta_ergo.Indexer.WaitTable.{WaitTable}
use rosetta_ergo.Indexer.Waiting.{check_header_match}
use rosetta_ergo.Indexer.Fetching.{Attempt, Wake, wait_for, find_coins}
use rosetta_ergo.Indexer.Fetching.Found.{HasCoins, AttemptsKeep, find_coins-HasCoins}
use rosetta_ergo.Indexer.Fetching.Waits.{IsWoken, left, wait_for-left}
use rosetta_ergo.Rosetta.Converter.{BlockConverter, new_block_converter, block_to_rosetta_block}
use rosetta_ergo.Indexer.Blocks.{Try, get_block_by_identifier, required_inputs, fetch_block, block}
use rosetta_ergo.Indexer.Blocks.Retries.{Fails, fetch_block-retries, fetch_block_gives_up}
use rosetta_ergo.Indexer.Blocks.Converts.{CacheHasValues, StorageHasValues, IsComplete, block_total}
use rosetta_ergo.Samples
use rosetta_ergo.Samples.{
  negate, negate-NegatesIntegers, client, network, storage, head, hash_of, indexer, wait,
  full_block, owned_coin, header, txs, first_tx, second_tx, first_boxes, second_boxes, has_boxes,
  spend_no_own, has_value, ready, output, fetched, asked,
}

-- One round, in which the others do nothing.
abbrev attempt : Attempt ℕ
attempt = record {
  rounds = record { before = λ i. i; during = λ i. i; locking = λ i. i } ∷ [];
  wakes = [];
}

keep : AttemptsKeep CacheHasValues (attempt ∷ [])
keep = (((((λ i h. h), (λ i h. h), (λ i h. h)), tt), tt), tt)

stored : StorageHasValues storage
stored db id coin owner h = elim (Bool-cases (id == "b0")) [
  | inl there ↦
      let found : ok (Samples.coin "b0" "5", record { address = "alice" }) ≡ ok (coin, owner) =
        rw there at h in
      let same : owned_coin ≡ record { account = some owner; coin = coin } = cc found in
      subst HasValue same has_value
  | inr missing ↦ cc (rw missing at h)
]

cached : CacheHasValues indexer
unfolding get
cached id a h = elim (Bool-cases ("b9" == id)) [
  | inl there ↦
      let found : some owned_coin ≡ some a = rw there at h in
      let same : owned_coin ≡ a = cc found in subst HasValue same has_value
  | inr other ↦ cc (rw other at h)
]

found :
    find_coins storage head hash_of (some full_block) (attempt ∷ []) (fetched ∷ []) indexer
    ≡ (ok (("b0", owned_coin) ∷ []), indexer)
unfolding find_coins get put check_header_match
found = refl

find_coins-HasCoins_example :
    HasCoins storage head hash_of CacheHasValues
      (λ i t h. h)
      (λ k a. HasValue a)
      stored
      (λ i k a h. h k a)
      (some full_block)
      (fetched ∷ [])
      (("b0", owned_coin) ∷ [])
    × CacheHasValues indexer
find_coins-HasCoins_example =
    find_coins-HasCoins storage head hash_of CacheHasValues (λ i t h. h) (λ k a. HasValue a) stored
      (λ i k a h. h k a) (some full_block) (attempt ∷ []) (fetched ∷ []) indexer indexer
      (("b0", owned_coin) ∷ []) keep cached found

abbrev id : PartialBlockIdentifier
id = record { hash = some "h2"; index = none }

-- The node as it should be, and one that cannot be reached.
abbrev good : Try
good = record { node = client; slept = ok tt }

abbrev bad : Try
bad = record {
  node = record client { network = record network { send = λ request. err (errorf "refused" []) } };
  slept = ok tt;
}

is_fetched : fetch_block id 0 (good ∷ []) ≡ ok (some full_block, fetched ∷ [])
unfolding fetch_block get_block_by_id get_inputs_for_txs contains
is_fetched = refl

abbrev complete : IsComplete client negate full_block
complete = record {
  header = header "h2" "h1" (pos 2);
  txs = txs;
  ergo_txs = first_tx ∷ second_tx ∷ [];
  boxes = first_boxes ∷ second_boxes ∷ [];
  has_header = refl;
  has_txs = refl;
  has_ergo_txs = refl;
  have_boxes = has_boxes;
  spend_no_own = spend_no_own;
  outputs_ready = (
    (output "b1" (pos 5) ∷ [], refl, (ready "b1", tt)),
    ((output "b2" (pos 5) ∷ [], refl, (ready "b2", tt)), tt),
  );
}

-- An asserter that wants a parent of another hash.
abbrev checks : Block → Result (Unit {0})
checks b =
    if b.parent_block_identifier.hash == b.block_identifier.hash
    then err (errorf "duplicate hash" [])
    else ok tt

block_total_example :
    (r : Block) × (c : BlockConverter) × (block_to_rosetta_block client negate
        (new_block_converter (("b0", owned_coin) ∷ []))
        full_block
      ≡ ok (r, c))
    × (checks r ≡ ok tt
        → block client negate checks storage head hash_of (good ∷ []) (attempt ∷ []) id indexer
          ≡ (ok r, indexer))
    × ((x : Err)
        → checks r ≡ err x
        → block client negate checks storage head hash_of (good ∷ []) (attempt ∷ []) id indexer
          ≡ (err (wrap x "%w: block is not valid %+v" []), indexer))
block_total_example =
    block_total client negate checks storage head hash_of (good ∷ []) (attempt ∷ []) id indexer
      indexer full_block (fetched ∷ []) (("b0", owned_coin) ∷ []) negate-NegatesIntegers stored keep
      cached is_fetched complete asked found

-- Why the node that cannot be reached fails.
abbrev refused : Err
refused =
    wrap (wrap (errorf "refused" []) "%w: error posting to api" [])
      "%w: error fetching block with id %s" (str "h2" ∷ [])

bad_fails : get_block_by_identifier bad.node id ≡ err refused
unfolding get_block_by_identifier get_block_by_id
bad_fails = refl

fails : Fails id bad
fails = record { error = refused; is_error = bad_fails; sleeps = refl }

has_block : get_block_by_identifier client id ≡ ok (some full_block)
unfolding get_block_by_identifier get_block_by_id
has_block = refl

requires : required_inputs (some full_block) ≡ ok (fetched ∷ [])
unfolding required_inputs get_inputs_for_txs contains
requires = refl

fetch_block-retries_example :
    fetch_block id 0 (bad ∷ bad ∷ good ∷ []) ≡ ok (some full_block, fetched ∷ [])
fetch_block-retries_example =
    fetch_block-retries id (bad ∷ bad ∷ []) good [] (some full_block) (fetched ∷ []) (omega arith)
      (fails, (fails, tt)) has_block requires

fetch_block_gives_up_example :
    fetch_block id 0 (bad ∷ bad ∷ bad ∷ bad ∷ bad ∷ bad ∷ good ∷ [])
    ≡ err (wrap refused "%w: unable to get raw block %+v" [])
fetch_block_gives_up_example =
    fetch_block_gives_up id (bad ∷ bad ∷ bad ∷ bad ∷ bad ∷ []) bad (good ∷ []) refused refl
      (fails, (fails, (fails, (fails, (fails, tt))))) bad_fails

-- The channel of the entry is closed, with the entry left alone or deleted.
abbrev closing : Wake ℕ
closing = record { others = λ i. i; cancelled = false }

waits : get "t7" indexer.waiter.table ≡ some (wait (pos 3))
unfolding get
waits = refl

woken : IsWoken "t7" indexer closing
woken = record { entry = wait (pos 3); is_entry = waits; free = refl; closed = refl; free' = refl }

wait_for-left_example :
    (t : WaitTable) × (wait_for "t7" (closing ∷ []) indexer
      ≡ (ok false, record indexer { waiter = t }, []))
    × (t.locked ≡ false)
    × ((k : String)
        → get k t.table ≡ (if "t7" == k then left (wait (pos 3)) else get k indexer.waiter.table))
wait_for-left_example = wait_for-left "t7" indexer closing [] (wait (pos 3)) woken waits
