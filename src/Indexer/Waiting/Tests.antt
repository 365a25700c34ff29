-- ===== src/Indexer/Waiting/Tests.antt =====
-- Rounds of `findCoin` at the second block of the sample chain.
use rosetta_ergo.Base.{
  ℕ, ℤ, pos, String, true, false, none, ok, err, sentinel, missing_transaction, coin_not_found,
  arith, ◌≡◌, refl, ◌==◌, if◌then◌else◌, some,
}
use rosetta_ergo.Base.GoMap.{get}
use rosetta_ergo.Sdk.{AccountCoin}
use rosetta_ergo.Ergo.Inputs.{InputCtx}
use rosetta_ergo.Indexer.WaitTable.{WaitTable}
use rosetta_ergo.Indexer.State.{Indexer}
use rosetta_ergo.Indexer.Handlers.{block_seen}
use rosetta_ergo.Indexer.Handlers.Cache.{created_in}
use rosetta_ergo.Indexer.Handlers.Signals.{IsSound}
use rosetta_ergo.Indexer.Handlers.Seen.{IsQuiet, HasSeen}
use rosetta_ergo.Indexer.Fetching.{leave}
use rosetta_ergo.Indexer.Waiting.{again, returns, find_coin_round}
use rosetta_ergo.Indexer.Waiting.Missing.{IsMissing}
use rosetta_ergo.Indexer.Waiting.Joined.{with_listener, restored, find_coin_round-leave}
use rosetta_ergo.Indexer.Waiting.Seen.{IsSeeing, find_coin_round-block_seen}
use rosetta_ergo.Samples.{wait, indexer, hash_of, negate, block, header, head, storage}

wait-IsSound : (earliest : ℤ) → IsSound (wait earliest)
wait-IsSound earliest = record { flag = refl; over = λ q. cc q }

quiet : IsQuiet indexer
quiet = record { free = refl; sound = (wait-IsSound (pos 9), (wait-IsSound (pos 3), tt)) }

abbrev idle : Indexer ℕ → Indexer ℕ
idle i = i

abbrev sees : Indexer ℕ → Indexer ℕ
sees i = (block_seen storage negate (ok tt) block i).1

-- A coin that `block` creates.
abbrev ctx : InputCtx
ctx = record { tx_id = "t8"; input_id = "b1" }

seeing : IsSeeing storage block ctx indexer
seeing = record {
  head = head;
  head' = head;
  db' = 1;
  error = sentinel coin_not_found;
  quiet = quiet;
  is_head = refl;
  is_stored = refl;
  is_head' = refl;
  not_stored = refl;
  is_not_found = refl;
}

find_coin_round-block_seen_example :
    (i' : Indexer ℕ) × HasSeen block indexer i'
    × (created_in "b1" block.transactions ≡ true
        → (a : AccountCoin) × (find_coin_round storage head hash_of
              (header "h3" "h2" (pos 3))
              ctx
              sees
              idle
              indexer
            ≡ (returns (ok a), i'))
          × (get "b1" i'.coin_cache ≡ some a))
    × (created_in "b1" block.transactions ≡ false
        → get "b1" indexer.coin_cache ≡ none
        → find_coin_round storage head hash_of (header "h3" "h2" (pos 3)) ctx sees idle indexer
          ≡ (again, i'))
    × (get "b1" indexer.coin_cache ≡ none
        → find_coin_round storage head hash_of (header "h3" "h2" (pos 3)) ctx idle sees indexer
          ≡ (again, i'))
find_coin_round-block_seen_example =
    find_coin_round-block_seen storage negate head hash_of (header "h3" "h2" (pos 3)) ctx block
      indexer seeing

-- A coin that nobody has, for a transaction that another goroutine waits for.
abbrev waited : InputCtx
waited = record { tx_id = "t7"; input_id = "b8" }

missing : IsMissing storage head hash_of waited idle idle indexer head head
unfolding get
missing = record {
  error = sentinel coin_not_found;
  is_head = refl;
  is_head' = refl;
  not_stored = refl;
  is_not_found = refl;
  not_cached = refl;
  free = refl;
}

has_wait : get "t7" indexer.waiter.table ≡ some (wait (pos 3))
unfolding get
has_wait = refl

find_coin_round-leave_example :
    let found = get "t7" indexer.waiter.table in
    (t : WaitTable) × (find_coin_round storage head hash_of
        (header "h3" "h2" (pos 2))
        waited
        idle
        idle
        indexer
      ≡ (returns (err (sentinel missing_transaction)), record indexer { waiter = t }))
    × (t.locked ≡ false)
    × ((tx : String)
        → get tx t.table ≡ (
            if "t7" == tx then some (with_listener (pos 2) found) else get tx indexer.waiter.table))
    × (t' : WaitTable) × (leave "t7" t ≡ (ok (with_listener (pos 2) found).aborted, t'))
    × (t'.locked ≡ false)
    × ((tx : String)
        → get tx t'.table
          ≡ (if "t7" == tx then restored (pos 2) found else get tx indexer.waiter.table))
find_coin_round-leave_example =
    find_coin_round-leave storage head hash_of (header "h3" "h2" (pos 2)) waited idle idle indexer
      head head missing refl refl (rw has_wait (0, refl, omega arith))
