-- ===== src/Indexer/Waiting/Rounds.antt =====
-- The rounds of `findCoin`, beside other goroutines.
mod Listening
pub use Listening.{listening, listening-IsSound}
use rosetta_ergo.Base.{
  ℤ, String, true, false, not, ◌||◌, Option, none, some, ◌≡◌, ◌≢◌, ◌⊎◌, ◌∙◌, refl, ap, arith, ok,
  err, Err, panics, blocks, sentinel, missing_transaction, coin_not_found, head_block_not_found,
  is_error, ◌==◌, eq_iff, eq_refl, sym, eq_ℤ, eq_ℤ_iff, inc64, Answers, Answers-cases, Bool-cases,
  Option-cases, inl, inr, if◌then◌else◌,
}
use rosetta_ergo.Base.GoMap.{GoMap, get, put, get-put}
use rosetta_ergo.Sdk.{BlockIdentifier}
use rosetta_ergo.Ergo.Types.{BlockHeader}
use rosetta_ergo.Ergo.Inputs.{InputCtx}
use rosetta_ergo.Indexer.Storage.{Storage}
use rosetta_ergo.Indexer.WaitTable.{WaitTable, WaitTableEntry, lock, unlock}
use rosetta_ergo.Indexer.State.{Indexer}
use rosetta_ergo.Indexer.Handlers.Signals.{IsSound, AllSound, get-AllSound, put-AllSound}
use rosetta_ergo.Indexer.Handlers.Seen.{IsQuiet}
use rosetta_ergo.Indexer.Waiting.{
  Round, again, returns, joined, register_wait, wait_or_retry, lock_and_decide, look_in_cache,
  look_in_storage, find_coin_round, is_genesis,
}

-- A round that is over with the lock free and the table sound, and neither panics nor deadlocks.
abbrev pub IsFine : {DB : Type 0} → Round × Indexer DB → Type 0
IsFine (again, i) = IsQuiet i
IsFine (returns (ok a), i) = IsQuiet i
IsFine (returns (err e), i) = IsQuiet i
IsFine (returns panics, i) = ⊥
IsFine (returns blocks, i) = ⊥

module _ {DB : Type 0} (s : Storage DB) (genesis : BlockIdentifier)
    (hash : Option BlockIdentifier → String)
    (heads : (db : DB) → Answers (s.get_head_block_identifier db))
    (coins : (db : DB) (id : String) → Answers (s.get_coin db id)) where
  wait_or_retry-IsFine :
      (header : BlockHeader) (ctx : InputCtx) (start_seen : ℤ) (coin_head : Option BlockIdentifier)
      (i : Indexer DB)
      → i.waiter.locked ≡ true
      → AllSound i.waiter.table
      → IsFine (wait_or_retry s genesis hash header ctx start_seen coin_head i)
  unfolding wait_or_retry unlock
  wait_or_retry-IsFine header ctx start_seen coin_head i held sound =
      elim (Answers-cases _ (heads i.db)) [
        | inr (e, failed) ↦
            rw (failed, wait_or_retry) (rw held (record { free = refl; sound = sound }))
        | inl (head, known) ↦
            elim (Bool-cases
              (not (hash (some head) == hash coin_head) || not (eq_ℤ i.seen start_seen))) [
                | inl changed ↦
                    rw (known, wait_or_retry)
                      (rw (changed, held) (record { free = refl; sound = sound }))
                | inr same ↦
                    rw (known, wait_or_retry)
                      (rw same (
                        rw held (record {
                          free = refl;
                          sound =
                              put-AllSound ctx.tx_id _ i.waiter.table
                                (listening-IsSound header.height ctx.tx_id i.waiter.table _ sound
                                  refl)
                                sound;
                        })))
              ]
      ]

  pub lock_and_decide-IsFine :
      (header : BlockHeader) (ctx : InputCtx) (start_seen : ℤ) (coin_head : Option BlockIdentifier)
      (i : Indexer DB)
      → IsQuiet i
      → IsFine (lock_and_decide s genesis hash header ctx start_seen coin_head i)
  unfolding lock_and_decide lock
  lock_and_decide-IsFine header ctx start_seen coin_head i q =
      rw (q.free, lock_and_decide)
        (wait_or_retry-IsFine header ctx start_seen coin_head
          (record i { waiter = record i.waiter { locked = true } }) refl q.sound)

  module _ (during locking : Indexer DB → Indexer DB)
      (keeps : (i : Indexer DB) → IsQuiet i → IsQuiet (during i))
      (keeps' : (i : Indexer DB) → IsQuiet i → IsQuiet (locking i)) where
    look_in_cache-IsFine :
        (header : BlockHeader) (ctx : InputCtx) (start_seen : ℤ)
        (coin_head : Option BlockIdentifier) (i : Indexer DB)
        → IsQuiet i
        → IsFine (look_in_cache s genesis hash header ctx locking start_seen coin_head i)
    unfolding look_in_cache
    look_in_cache-IsFine header ctx start_seen coin_head i q =
        elim (Option-cases (get ctx.input_id i.coin_cache)) [
          | inr (coin, cached) ↦ rw (cached, look_in_cache) q
          | inl missing ↦
              rw (missing, look_in_cache)
                (lock_and_decide-IsFine header ctx start_seen coin_head (locking i) (keeps' i q))
        ]

    look_in_storage-IsFine :
        (header : BlockHeader) (ctx : InputCtx) (coin_head : Option BlockIdentifier)
        (i : Indexer DB)
        → IsQuiet i
        → IsFine (look_in_storage s genesis hash header ctx during locking coin_head i)
    unfolding look_in_storage
    look_in_storage-IsFine header ctx coin_head i q =
        elim (Answers-cases _ (coins i.db ctx.input_id)) [
          | inl (found, e) ↦ rw (e, look_in_storage) q
          | inr (x, e) ↦ elim (Bool-cases (is_error x coin_not_found)) [
            | inl missing ↦
                rw (e, look_in_storage)
                  (rw missing
                    (look_in_cache-IsFine header ctx i.seen coin_head (during i) (keeps i q)))
            | inr other ↦ rw (e, look_in_storage) (rw other q)
          ]
        ]

    -- If the storage's reads return and the other goroutines leave the lock free and the closed
    -- flags right, a round of `findCoin` that starts so ends so: it neither panics nor waits for
    -- the lock forever, whatever it returns.
    pub find_coin_round-IsFine :
        (header : BlockHeader) (ctx : InputCtx) (i : Indexer DB)
        → IsQuiet i
        → IsFine (find_coin_round s genesis hash header ctx during locking i)
    unfolding find_coin_round
    find_coin_round-IsFine header ctx i q = elim (Answers-cases _ (heads i.db)) [
      | inl (head, e) ↦ rw (e, find_coin_round) (look_in_storage-IsFine header ctx (some head) i q)
      | inr (x, e) ↦ elim (Bool-cases (is_genesis s genesis hash header)) [
        | inl first ↦
            rw (e, find_coin_round) (rw first (look_in_storage-IsFine header ctx none i q))
        | inr later ↦ elim (Bool-cases (is_error x head_block_not_found)) [
          | inl none_yet ↦ rw (e, find_coin_round) (rw (later, none_yet) q)
          | inr other ↦ rw (e, find_coin_round) (rw (later, other) q)
        ]
      ]
    ]
