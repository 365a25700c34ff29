-- ===== src/Indexer/Tests.antt =====
-- The theorems on the indexer at the second block of the sample chain, with two waits: one for a
-- transaction of the block, and one that the added block aborts.
use rosetta_ergo.Base.{
  eq_iff, inl, inr, ap, sym, ◌∙◌, some, contains, ℕ, ℤ, pos, String, true, false, none, [], ◌∷◌, ok,
  arith, inc64, Answers, ◌≡◌, refl, if◌then◌else◌,
}
use rosetta_ergo.Base.GoMap.{get, put}
use rosetta_ergo.Decimal.{parse_int}
use rosetta_ergo.Sdk.{Block, AccountCoin}
use rosetta_ergo.Ergo.Inputs.{InputCtx, get_inputs_for_txs}
use rosetta_ergo.Ergo.Inputs.Exact.{Boxes}
use rosetta_ergo.Indexer.Handlers.Awaited.{AreOthers, block_seen_keeps_waiting}
use rosetta_ergo.Indexer.State.{Indexer}
use rosetta_ergo.Indexer.Negative.{ensure_negative_value_inputs}
use rosetta_ergo.Indexer.Negative.Signs.{AllNegative, ensure_negative_value_inputs-AllNegative}
use rosetta_ergo.Base.Exec.{◌>>◌}
use rosetta_ergo.Indexer.Handlers.{block_seen, block_added, cache_txs}
use rosetta_ergo.Indexer.Handlers.Signals.{IsSound}
use rosetta_ergo.Indexer.Handlers.Cache.{created_in}
use rosetta_ergo.Indexer.Handlers.Seen.{IsQuiet, HasSeen, block_seen-HasSeen}
use rosetta_ergo.Indexer.Handlers.Order.{AreCompatible, view, block_seen_comm}
use rosetta_ergo.Indexer.Handlers.Added.{HasAdded, block_added-HasAdded, block_seen-block_added}
use rosetta_ergo.Indexer.Waiting.{find_coin_round}
use rosetta_ergo.Indexer.Waiting.Rounds.{IsFine, find_coin_round-IsFine}
use rosetta_ergo.Samples.{
  second_tx, second_boxes, has_boxes, wait, indexer, hash_of, negate, negate-NegatesIntegers, block,
  coin, operation, spending, header, head, storage, owned_coin,
}

wait-IsSound : (earliest : ℤ) → IsSound (wait earliest)
wait-IsSound earliest = record { flag = refl; over = λ q. cc q }

quiet : IsQuiet indexer
quiet = record { free = refl; sound = (wait-IsSound (pos 9), (wait-IsSound (pos 3), tt)) }

block_seen-HasSeen_example :
    (i' : Indexer ℕ) × (block_seen storage negate (ok tt) block indexer ≡ (ok tt, i'))
    × (i'.db ≡ 1)
    × HasSeen block indexer i'
block_seen-HasSeen_example = block_seen-HasSeen storage negate block indexer 1 quiet refl

checked : ensure_negative_value_inputs negate block ≡ (ok tt, block)
unfolding ensure_negative_value_inputs
checked = refl

block_added-HasAdded_example :
    (i' : Indexer ℕ) × (block_added storage negate block indexer ≡ (ok tt, i'))
    × (i'.db ≡ 1)
    × HasAdded block indexer i'
block_added-HasAdded_example =
    block_added-HasAdded storage negate block block indexer 1 quiet checked refl

-- Another block at that height, with the same transaction and one more that is waited for.
abbrev fork : Block
fork = record block {
  block_identifier = record { hash = "h2b"; index = pos 2 };
  transactions =
      record {
        transaction_identifier = record { hash = "t1" };
        operations = operation "b1" (pos 0) ∷ [];
      }
      ∷ record {
        transaction_identifier = record { hash = "t7" };
        operations = spending "b9" (pos 0) ∷ operation "b7" (pos 1) ∷ [];
      }
      ∷ [];
}

share_b1 : AreCompatible block fork
unfolding cache_txs get put
share_b1 k in_block in_fork = ground arith

block_seen_comm_example :
    (i' j' : Indexer ℕ) × ((block_seen storage negate (ok tt) block
          >> block_seen storage negate (ok tt) fork)
        indexer
      ≡ (ok tt, i'))
    × ((block_seen storage negate (ok tt) fork >> block_seen storage negate (ok tt) block) indexer
        ≡ (ok tt, j'))
    × (i'.db ≡ 2)
    × (j'.db ≡ 2)
    × (view i' ≡ view j')
block_seen_comm_example =
    block_seen_comm storage negate block fork indexer 1 2 1 2 quiet refl refl refl refl share_b1

-- The indexer after the block was seen.
abbrev seen_indexer : Indexer ℕ
seen_indexer = record {
  coin_cache = ("b9", owned_coin) ∷ ("b1", record owned_coin { coin = coin "b1" "5" }) ∷ [];
  waiter = record {
    table =
        ("t1", record (wait (pos 9)) { is_closed = true; channel_closed = true })
        ∷ ("t7", wait (pos 3))
        ∷ [];
    locked = false;
  };
  seen = pos 5;
  db = 1;
}

is_seen : block_seen storage negate (ok tt) block indexer ≡ (ok tt, seen_indexer)
unfolding block_seen get put
is_seen = refl

block_seen-block_added_example :
    (i'' : Indexer ℕ) × (block_added storage negate block seen_indexer ≡ (ok tt, i''))
    × ((k : String)
        → get k i''.coin_cache
          ≡ (if created_in k block.transactions then none else get k indexer.coin_cache))
block_seen-block_added_example =
    block_seen-block_added storage negate block indexer seen_indexer 1 2 quiet refl checked refl
      is_seen

-- A block that spends a coin with a positive amount.
abbrev spending_block : Block
spending_block = record block {
  transactions =
      record {
        transaction_identifier = record { hash = "t2" };
        operations = spending "b1" (pos 0) ∷ [];
      }
      ∷ [];
}

passes : (ensure_negative_value_inputs negate spending_block).0 ≡ ok tt
unfolding ensure_negative_value_inputs negate parse_int
passes = refl

ensure_negative_value_inputs-AllNegative_example :
    let b' = (ensure_negative_value_inputs negate spending_block).1 in
    AllNegative b'.transactions × (ensure_negative_value_inputs negate b' ≡ (ok tt, b'))
ensure_negative_value_inputs-AllNegative_example =
    ensure_negative_value_inputs-AllNegative negate negate-NegatesIntegers spending_block passes

-- The search for a coin that nobody has.
abbrev ctx : InputCtx
ctx = record { tx_id = "t8"; input_id = "b8" }

abbrev idle : Indexer ℕ → Indexer ℕ
idle i = i

-- Another goroutine sees a block.
abbrev sees : Indexer ℕ → Indexer ℕ
sees i = record i { seen = inc64 i.seen }

heads : (db : ℕ) → Answers (storage.get_head_block_identifier db)
heads db = tt

coins : (db : ℕ) (id : String) → Answers (storage.get_coin db id)
coins db id = ground arith

sees-IsQuiet : (i : Indexer ℕ) → IsQuiet i → IsQuiet (sees i)
sees-IsQuiet i q = record { free = q.free; sound = q.sound }

find_coin_round-IsFine_example :
    IsFine (find_coin_round storage head hash_of (header "h3" "h2" (pos 3)) ctx sees idle indexer)
find_coin_round-IsFine_example =
    find_coin_round-IsFine storage head hash_of heads coins sees idle sees-IsQuiet (λ i q. q)
      (header "h3" "h2" (pos 3)) ctx indexer quiet

-- The next block spends the coin that `block` creates, and waits for it.
abbrev next_input : InputCtx
next_input = record { tx_id = "t2"; input_id = "b1" }

abbrev waiting_indexer : Indexer ℕ
waiting_indexer = record indexer {
  waiter = record { table = ("t2", wait (pos 3)) ∷ []; locked = false };
}

next_asks : get_inputs_for_txs (some (second_tx ∷ [])) ≡ ok (next_input ∷ [])
unfolding get_inputs_for_txs contains
next_asks = refl

others : AreOthers block (second_boxes ∷ [])
others x (inl here) (inl there) =
    cc ((eq_iff "t2" "t1").1 (ap (λ (y : Boxes). y.id) (sym here) ∙ there))
others x (inl here) (inr there) = elim there [ ]
others x (inr there) _ = elim there [ ]

creates_b1 : created_in "b1" block.transactions ≡ true
creates_b1 = refl

next_waits : get "t2" waiting_indexer.waiter.table ≡ some (wait (pos 3))
unfolding get
next_waits = refl

block_seen_keeps_waiting_example :
    (i' : Indexer ℕ) × (block_seen storage negate (ok tt) block waiting_indexer ≡ (ok tt, i'))
    × (a : AccountCoin) × (get "b1" i'.coin_cache ≡ some a)
    × (get "t2" i'.waiter.table ≡ some (wait (pos 3)))
block_seen_keeps_waiting_example =
    block_seen_keeps_waiting storage negate block waiting_indexer 1 (second_tx ∷ [])
      (second_boxes ∷ []) (next_input ∷ []) next_input (wait (pos 3))
      (record { free = refl; sound = (wait-IsSound (pos 3), tt) }) refl (has_boxes.1.0, tt)
      next_asks (inl refl) others creates_b1 next_waits
