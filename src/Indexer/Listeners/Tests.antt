-- ===== src/Indexer/Listeners/Tests.antt =====
-- A run in which a goroutine waits for a transaction, and the wait then ends.
use rosetta_ergo.Base.{
  ℕ, ◌<◌, pos, String, Bool, some, ok, err, Err, ◌≡◌, refl, Answers, arith, is_error,
  missing_transaction, false,
}
use rosetta_ergo.Base.GoMap.{get}
use rosetta_ergo.Ergo.Inputs.{InputCtx}
use rosetta_ergo.Indexer.WaitTable.{WaitTable}
use rosetta_ergo.Indexer.Waiting.{lock_and_decide}
use rosetta_ergo.Indexer.Fetching.{leave}
use rosetta_ergo.Indexer.Listeners.{
  World, Steps, none_yet, then_step, looks, new_world, after_look, one_less,
}
use rosetta_ergo.Indexer.Listeners.Counts.{IsCounted}
use rosetta_ergo.Indexer.Listeners.Outstanding.{Steps-IsCounted}
use rosetta_ergo.Samples.{storage, head, hash_of, header}

abbrev ctx : InputCtx
ctx = record { tx_id = "t8"; input_id = "b8" }

abbrev waiting : World ℕ
waiting = after_look (new_world 0) "t8" (
    lock_and_decide storage head hash_of (header "h3" "h2" (pos 3)) ctx (pos 0) (some head)
      (new_world 0).indexer)

is_outstanding : waiting.waits "t8" ≡ 1
unfolding lock_and_decide get
is_outstanding = refl

run : Steps storage head hash_of (new_world 0) waiting
run =
    then_step none_yet
      (looks (new_world 0) (header "h3" "h2" (pos 3)) ctx (pos 0) (some head) (omega arith))

heads : (db : ℕ) → Answers (storage.get_head_block_identifier db)
heads db = tt

foreign :
    (db : ℕ) (e : Err)
    → storage.get_head_block_identifier db ≡ err e
    → is_error e missing_transaction ≡ false
foreign db e h = cc

Steps-IsCounted_example :
    IsCounted waiting
    × ((tx : String)
        → 0 < waiting.waits tx
        → (aborted : Bool) × (t : WaitTable) × (leave tx waiting.indexer.waiter ≡ (ok aborted, t))
          × IsCounted (record {
            indexer = record (waiting.indexer) { waiter = t };
            waits = one_less tx waiting.waits;
          }))
Steps-IsCounted_example = Steps-IsCounted storage head hash_of heads foreign 0 waiting run
