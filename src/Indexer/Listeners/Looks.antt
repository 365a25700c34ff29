-- ===== src/Indexer/Listeners/Looks.antt =====
-- The end of a round of `findCoin` under the lock, and the counters.
use mathlib.Core.Path.{subst}
use rosetta_ergo.Base.{
  ℕ, suc, ◌<◌, ℤ, pos, String, true, false, not, ◌||◌, Option, none, some, ◌≡◌, ◌∙◌, refl, ap,
  arith, err, Err, missing_transaction, is_error, inc64, max_int64, Answers, Answers-cases,
  Bool-cases, inl, inr, ◌==◌, eq_iff, eq_ℤ,
}
use rosetta_ergo.Base.GoMap.{get, put, get-put}
use rosetta_ergo.Sdk.{BlockIdentifier}
use rosetta_ergo.Ergo.Types.{BlockHeader}
use rosetta_ergo.Ergo.Inputs.{InputCtx}
use rosetta_ergo.Indexer.Storage.{Storage}
use rosetta_ergo.Indexer.WaitTable.{WaitTable, WaitTableEntry, lock, unlock}
use rosetta_ergo.Indexer.Handlers.Signals.{AllSound, put-AllSound}
use rosetta_ergo.Indexer.Waiting.{joined, wait_or_retry, lock_and_decide}
use rosetta_ergo.Indexer.Waiting.Rounds.{listening, listening-IsSound}
use rosetta_ergo.Indexer.Listeners.{with_waiter, Waits, World, one_more, after_look}
use rosetta_ergo.Indexer.Listeners.Counts.{Counted, CountsWaits, IsCounted}

inc64-pos : (n : ℕ) → n < max_int64 → inc64 (pos n) ≡ pos (suc n)
inc64-pos n small = ground arith

joined-listeners :
    (height : ℤ) (v : WaitTableEntry) → (joined height (some v)).listeners ≡ v.listeners
unfolding joined
joined-listeners height v = ground arith

Counted-listening :
    (height : ℤ) (o : Option WaitTableEntry) (n : ℕ)
    → n < max_int64
    → Counted o n
    → Counted (some (listening height o)) (suc n)
Counted-listening height none n small h = unfold joined in rw h (refl, omega arith)
Counted-listening height (some v) n small (e, more) =
    (ap inc64 (joined-listeners height v ∙ e) ∙ inc64-pos n small, omega arith)

-- One more listener of an entry, and one more outstanding wait.
CountsWaits-listening :
    (tx : String) (height : ℤ) (waits : Waits) (t : WaitTable)
    → waits tx < max_int64
    → CountsWaits waits t
    → CountsWaits
        (one_more tx waits)
        (record t { table = put tx (listening height (get tx t.table)) t.table })
CountsWaits-listening tx height waits t small h k =
    rw (get-put tx k (listening height (get tx t.table)) t.table) (elim (Bool-cases (tx == k)) [
      | inl same ↦ rw same (
          subst (λ (j : String). Counted (some (listening height (get tx t.table))) (suc (waits j)))
            ((eq_iff tx k).0 same)
            (Counted-listening height (get tx t.table) (waits tx) small (h tx)))
      | inr other ↦ rw other (h k)
    ])

module _ {DB : Type 0} (s : Storage DB) (genesis : BlockIdentifier)
    (hash : Option BlockIdentifier → String)
    (heads : (db : DB) → Answers (s.get_head_block_identifier db))
    (foreign : (db : DB) (e : Err)
      → s.get_head_block_identifier db ≡ err e
      → is_error e missing_transaction ≡ false) where
  wait_or_retry-IsCounted :
      (w : World DB) (header : BlockHeader) (ctx : InputCtx) (start_seen : ℤ)
      (coin_head : Option BlockIdentifier)
      → w.waits ctx.tx_id < max_int64
      → w.indexer.waiter.locked ≡ true
      → AllSound w.indexer.waiter.table
      → CountsWaits w.waits w.indexer.waiter
      → IsCounted (
          after_look w ctx.tx_id
            (wait_or_retry s genesis hash header ctx start_seen coin_head w.indexer))
  unfolding wait_or_retry unlock
  wait_or_retry-IsCounted w header ctx start_seen coin_head small held sound h =
      let i = w.indexer in
      elim (Answers-cases _ (heads i.db)) [
        | inr (e, failed) ↦
            rw (failed, wait_or_retry)
              (rw (held, foreign i.db e failed)
                (record { quiet = record { free = refl; sound = sound }; counted = h }))
        | inl (head, known) ↦
            elim (Bool-cases
              (not (hash (some head) == hash coin_head) || not (eq_ℤ i.seen start_seen))) [
                | inl changed ↦
                    rw (known, wait_or_retry)
                      (rw (changed, held)
                        (record { quiet = record { free = refl; sound = sound }; counted = h }))
                | inr same ↦
                    rw (known, wait_or_retry)
                      (rw same (
                        rw held (record {
                          quiet = record {
                            free = refl;
                            sound =
                                put-AllSound ctx.tx_id _ i.waiter.table
                                  (listening-IsSound header.height ctx.tx_id i.waiter.table _ sound
                                    refl)
                                  sound;
                          };
                          counted =
                              CountsWaits-listening ctx.tx_id header.height w.waits i.waiter small
                                h;
                        })))
              ]
      ]

  pub lock_and_decide-IsCounted :
      (w : World DB) (header : BlockHeader) (ctx : InputCtx) (start_seen : ℤ)
      (coin_head : Option BlockIdentifier)
      → w.waits ctx.tx_id < max_int64
      → IsCounted w
      → IsCounted (
          after_look w ctx.tx_id
            (lock_and_decide s genesis hash header ctx start_seen coin_head w.indexer))
  unfolding lock_and_decide lock
  lock_and_decide-IsCounted w header ctx start_seen coin_head small c =
      let i = w.indexer in
      rw (c.quiet.free, lock_and_decide)
        (wait_or_retry-IsCounted (with_waiter w (record (i.waiter) { locked = true })) header ctx
          start_seen coin_head small refl c.quiet.sound c.counted)
