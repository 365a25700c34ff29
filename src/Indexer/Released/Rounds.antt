-- ===== src/Indexer/Released/Rounds.antt =====
-- The rounds of `findCoin`, and the waits that they join.
use rosetta_ergo.Base.{
  ℕ, ◌+◌, ◌<◌, max_int64, ℤ, String, true, not, ◌||◌, ◌==◌, eq_ℤ, Option-cases, Option, none, some,
  List, [], ◌∷◌, Result, err, arith, Answers-cases, is_error, sentinel, missing_transaction,
  coin_not_found, head_block_not_found, Bool-cases, inl, inr, length, refl,
}
use rosetta_ergo.Base.GoMap.{get, put}
use rosetta_ergo.Sdk.{BlockIdentifier, AccountCoin}
use rosetta_ergo.Ergo.Types.{BlockHeader}
use rosetta_ergo.Ergo.Inputs.{InputCtx}
use rosetta_ergo.Indexer.Storage.{Storage}
use rosetta_ergo.Indexer.WaitTable.{lock, unlock}
use rosetta_ergo.Indexer.State.{Indexer}
use rosetta_ergo.Indexer.Waiting.{
  Others, Round, again, returns, unlock_then, register_wait, wait_or_retry, lock_and_decide,
  look_in_cache, look_in_storage, is_genesis, find_coin_round, find_coin,
}
use rosetta_ergo.Indexer.Waiting.Rounds.{listening, lock_and_decide-IsFine}
use rosetta_ergo.Indexer.Fetching.Rounds.{Keeps, RoundsKeep}
use rosetta_ergo.Indexer.Listeners.Looks.{lock_and_decide-IsCounted}
use rosetta_ergo.Indexer.Released.{
  IsReadable, count-length, FindsNoOrphan, Holds, After, Holds-After,
}

module _ {DB : Type 0} (s : Storage DB) (genesis : BlockIdentifier)
    (hash : Option BlockIdentifier → String) (reads : IsReadable s) (header : BlockHeader)
    (ctx : InputCtx) where
  unlock_then-FindsNoOrphan :
      (r : Round) (i : Indexer DB)
      → FindsNoOrphan r
      → FindsNoOrphan (unlock_then s genesis hash r i).0
  unfolding unlock
  unlock_then-FindsNoOrphan r i h = elim (Bool-cases i.waiter.locked) [
    | inl held ↦ rw held h
    | inr free ↦ rw free tt
  ]

  wait_or_retry-FindsNoOrphan :
      (start_seen : ℤ) (coin_head : Option BlockIdentifier) (i : Indexer DB)
      → FindsNoOrphan (wait_or_retry s genesis hash header ctx start_seen coin_head i).0
  unfolding wait_or_retry register_wait
  wait_or_retry-FindsNoOrphan start_seen coin_head i = elim (Answers-cases _ (reads.heads i.db)) [
    | inr (e, failed) ↦
        rw (failed, wait_or_retry)
          (unlock_then-FindsNoOrphan _ i (reads.foreign_head i.db e failed).1)
    | inl (head, known) ↦
        elim (Bool-cases
          (not (hash (some head) == hash coin_head) || not (eq_ℤ i.seen start_seen))) [
            | inl changed ↦
                rw (known, wait_or_retry) (rw changed (unlock_then-FindsNoOrphan again i tt))
            | inr same ↦
                rw (known, wait_or_retry)
                  (rw same (
                    unlock_then-FindsNoOrphan (returns (err (sentinel missing_transaction)))
                      (record i {
                        waiter = record i.waiter {
                          table =
                              put ctx.tx_id (listening header.height (get ctx.tx_id i.waiter.table))
                                i.waiter.table;
                        };
                      })
                      refl))
          ]
  ]

  lock_and_decide-FindsNoOrphan :
      (start_seen : ℤ) (coin_head : Option BlockIdentifier) (i : Indexer DB)
      → FindsNoOrphan (lock_and_decide s genesis hash header ctx start_seen coin_head i).0
  unfolding lock_and_decide lock
  lock_and_decide-FindsNoOrphan start_seen coin_head i = elim (Bool-cases i.waiter.locked) [
    | inl held ↦ rw (held, lock_and_decide) tt
    | inr free ↦
        rw (free, lock_and_decide)
          (wait_or_retry-FindsNoOrphan start_seen coin_head
            (record i { waiter = record i.waiter { locked = true } }))
  ]

module _ (limit : ℕ) {DB : Type 0} (s : Storage DB) (genesis : BlockIdentifier)
    (hash : Option BlockIdentifier → String) (reads : IsReadable s) (header : BlockHeader)
    (mine : List InputCtx) (room : length mine + limit < max_int64) (ctx : InputCtx) where
  lock_and_decide-After :
      (start_seen : ℤ) (coin_head : Option BlockIdentifier) (i : Indexer DB)
      → Holds limit mine i
      → After limit mine ctx (lock_and_decide s genesis hash header ctx start_seen coin_head i)
  lock_and_decide-After start_seen coin_head i h =
      let fits : h.waits ctx.tx_id < max_int64 =
        omega (arith, h.sum ctx.tx_id, h.few ctx.tx_id, count-length ctx.tx_id mine) in
      Holds-After limit mine ctx i h _
        (lock_and_decide-IsFine s genesis hash reads.heads reads.coins header ctx start_seen
          coin_head i h.is_counted.quiet)
        (lock_and_decide-FindsNoOrphan s genesis hash reads header ctx start_seen coin_head i)
        (lock_and_decide-IsCounted s genesis hash reads.heads
          (λ db e failed. (reads.foreign_head db e failed).0)
          (record { indexer = i; waits = h.waits }) header ctx start_seen coin_head fits
          h.is_counted)

  module _ (during locking : Indexer DB → Indexer DB) (keeps : Keeps (Holds limit mine) during)
      (keeps' : Keeps (Holds limit mine) locking) where
    look_in_cache-After :
        (start_seen : ℤ) (coin_head : Option BlockIdentifier) (i : Indexer DB)
        → Holds limit mine i
        → After limit mine ctx
            (look_in_cache s genesis hash header ctx locking start_seen coin_head i)
    unfolding look_in_cache
    look_in_cache-After start_seen coin_head i h =
        elim (Option-cases (get ctx.input_id i.coin_cache)) [
          | inr (coin, cached) ↦ rw (cached, look_in_cache) h
          | inl missing ↦
              rw (missing, look_in_cache)
                (lock_and_decide-After start_seen coin_head (locking i) (keeps' i h))
        ]

    look_in_storage-After :
        (coin_head : Option BlockIdentifier) (i : Indexer DB)
        → Holds limit mine i
        → After limit mine ctx
            (look_in_storage s genesis hash header ctx during locking coin_head i)
    unfolding look_in_storage
    look_in_storage-After coin_head i h = elim (Answers-cases _ (reads.coins i.db ctx.input_id)) [
      | inl (found, e) ↦ rw (e, look_in_storage) h
      | inr (x, e) ↦ elim (Bool-cases (is_error x coin_not_found)) [
        | inl missing ↦
            rw (e, look_in_storage)
              (rw missing (look_in_cache-After i.seen coin_head (during i) (keeps i h)))
        | inr other ↦
            let (joins_not, no_orphan) = reads.foreign_coin i.db ctx.input_id x e in
            rw (e, look_in_storage) (rw (other, joins_not) (no_orphan, h))
      ]
    ]

    find_coin_round-After :
        (i : Indexer DB)
        → Holds limit mine i
        → After limit mine ctx (find_coin_round s genesis hash header ctx during locking i)
    unfolding find_coin_round
    find_coin_round-After i h = elim (Answers-cases _ (reads.heads i.db)) [
      | inl (head, e) ↦ rw (e, find_coin_round) (look_in_storage-After (some head) i h)
      | inr (x, e) ↦ elim (Bool-cases (is_genesis s genesis hash header)) [
        | inl first ↦ rw (e, find_coin_round) (rw first (look_in_storage-After none i h))
        | inr later ↦ elim (Bool-cases (is_error x head_block_not_found)) [
          | inl none_yet ↦ rw (e, find_coin_round) (rw (later, none_yet) h)
          | inr other ↦
              let (joins_not, no_orphan) = reads.foreign_head i.db x e in
              rw (e, find_coin_round) (rw (later, other, joins_not) (no_orphan, h))
        ]
      ]
    ]

  abbrev pub FindAfter : Result AccountCoin × Indexer DB × List (Others DB) → Type 0
  FindAfter (r, i, rounds) =
      After limit mine ctx (returns r, i)
      × ((m : List InputCtx) → RoundsKeep (Holds limit m) rounds)

  resume_search :
      (rounds : List (Others DB)) (r : Round) (i : Indexer DB)
      → After limit mine ctx (r, i)
      → ((m : List InputCtx) → RoundsKeep (Holds limit m) rounds)
      → (Holds limit mine i → FindAfter (find_coin s genesis hash header ctx rounds i))
      → FindAfter (elim r [
        | again ↦ find_coin s genesis hash header ctx rounds i
        | returns x ↦ (x, i, rounds)
      ])
  resume_search rounds again i h keep next = next h
  resume_search rounds (returns x) i h keep next = (h, keep)

  pub find_coin-FindAfter :
      (rounds : List (Others DB)) (i : Indexer DB)
      → ((m : List InputCtx) → RoundsKeep (Holds limit m) rounds)
      → Holds limit mine i
      → FindAfter (find_coin s genesis hash header ctx rounds i)
  unfolding find_coin
  find_coin-FindAfter [] i keep h = ((refl, h), keep)
  find_coin-FindAfter (o ∷ rounds) i keep h =
      let (before, during, locking) = (keep mine).0 in
      let step = find_coin_round s genesis hash header ctx o.during o.locking (o.before i) in
      resume_search rounds step.0 step.1
        (find_coin_round-After o.during o.locking during locking (o.before i) (before i h))
        (λ m. (keep m).1) (λ h'. find_coin-FindAfter rounds step.1 (λ m. (keep m).1) h')
