-- ===== src/Indexer/Waiting/Missing.antt =====
-- A round of `findCoin` that finds the coin nowhere.
use rosetta_ergo.Base.{
  String, true, false, not, ◌||◌, Option, none, some, ◌≡◌, ◌≢◌, ◌∙◌, refl, ap, arith, ok, err, Err,
  sentinel, missing_transaction, coin_not_found, is_error, ◌==◌, eq_refl, sym, eq_ℤ, eq_ℤ_iff,
  Bool-cases, inl, inr,
}
use rosetta_ergo.Base.GoMap.{get, put}
use rosetta_ergo.Sdk.{BlockIdentifier}
use rosetta_ergo.Ergo.Types.{BlockHeader}
use rosetta_ergo.Ergo.Inputs.{InputCtx}
use rosetta_ergo.Indexer.Storage.{Storage}
use rosetta_ergo.Indexer.WaitTable.{lock, unlock}
use rosetta_ergo.Indexer.State.{Indexer}
use rosetta_ergo.Indexer.Waiting.{
  again, returns, register_wait, wait_or_retry, lock_and_decide, look_in_cache, look_in_storage,
  find_coin_round,
}
use rosetta_ergo.Indexer.Waiting.Rounds.{listening}

module _ {DB : Type 0} (s : Storage DB) (genesis : BlockIdentifier)
    (hash : Option BlockIdentifier → String) where
  -- A round that starts at `i`, finds the coin neither in the storage nor, after the others ran at
  -- `during`, in the cache, and after they ran at `locking` has the lock.
  pub record IsMissing (ctx : InputCtx) (during locking : Indexer DB → Indexer DB) (i : Indexer DB)
      (head head' : BlockIdentifier) : Type 0 where
    pub error : Err
    pub is_head : s.get_head_block_identifier i.db ≡ ok head
    pub is_head' : s.get_head_block_identifier (locking (during i)).db ≡ ok head'
    pub not_stored : s.get_coin i.db ctx.input_id ≡ err error
    pub is_not_found : is_error error coin_not_found ≡ true
    pub not_cached : get ctx.input_id (during i).coin_cache ≡ none
    pub free : (locking (during i)).waiter.locked ≡ false

  round_under_lock :
      (header : BlockHeader) (ctx : InputCtx) (during locking : Indexer DB → Indexer DB)
      (i : Indexer DB) (head head' : BlockIdentifier)
      → IsMissing ctx during locking i head head'
      → find_coin_round s genesis hash header ctx during locking i
        ≡ wait_or_retry s genesis hash header ctx i.seen (some head) (record (locking (during i)) {
          waiter = record (locking (during i)).waiter { locked = true };
        })
  unfolding find_coin_round look_in_storage look_in_cache lock_and_decide lock
  round_under_lock header ctx during locking i head head' m =
      rw (m.is_head, find_coin_round)
        (rw (m.not_stored, look_in_storage)
          (rw m.is_not_found (rw (m.not_cached, look_in_cache) (rw (m.free, lock_and_decide)))))

  pub find_coin_round-retries :
      (header : BlockHeader) (ctx : InputCtx) (during locking : Indexer DB → Indexer DB)
      (i : Indexer DB) (head head' : BlockIdentifier)
      → IsMissing ctx during locking i head head'
      → (locking (during i)).seen ≢ i.seen
      → find_coin_round s genesis hash header ctx during locking i ≡ (again, locking (during i))
  unfolding wait_or_retry unlock
  find_coin_round-retries header ctx during locking i head head' m changed =
      let k = locking (during i) in
      let differs : eq_ℤ k.seen i.seen ≡ false = elim (Bool-cases (eq_ℤ k.seen i.seen)) [
        | inl same ↦ absurd (changed ((eq_ℤ_iff k.seen i.seen).0 same))
        | inr other ↦ other
      ] in
      let test : (not (hash (some head') == hash (some head)) || not (eq_ℤ k.seen i.seen)) ≡ true =
        rw differs (ground arith) in
      round_under_lock header ctx during locking i head head' m
      ∙ rw (m.is_head', wait_or_retry)
          (rw test (
            ap (λ b. (again, record k { waiter = record (k.waiter) { locked = b } })) (sym m.free)))

  pub find_coin_round-listens :
      (header : BlockHeader) (ctx : InputCtx) (during locking : Indexer DB → Indexer DB)
      (i : Indexer DB) (head head' : BlockIdentifier)
      → IsMissing ctx during locking i head head'
      → (locking (during i)).seen ≡ i.seen
      → hash (some head') ≡ hash (some head)
      → let k = locking (during i) in
        let entry = listening header.height (get ctx.tx_id k.waiter.table) in
        find_coin_round s genesis hash header ctx during locking i ≡ (
          returns (err (sentinel missing_transaction)),
          record k {
            waiter = record { table = put ctx.tx_id entry k.waiter.table; locked = false };
          },
        )
  unfolding wait_or_retry unlock register_wait
  find_coin_round-listens header ctx during locking i head head' m seen heads =
      round_under_lock header ctx during locking i head head' m
      ∙ rw (m.is_head', wait_or_retry)
          (rw (heads, seen, eq_refl (hash (some head)), (eq_ℤ_iff i.seen i.seen).1 refl))
