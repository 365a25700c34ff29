-- ===== src/Indexer/Waiting/Seen.antt =====
-- A round of `findCoin` while another goroutine sees a block.
use rosetta_ergo.Base.{
  zero, suc, ℤ, pos, negsuc, String, true, false, Option, none, some, ◌≡◌, ◌≢◌, ◌∙◌, ap, sym, arith,
  ok, err, Err, Result, coin_not_found, is_error, inc64,
}
use rosetta_ergo.Base.GoMap.{get}
use rosetta_ergo.Sdk.{Block, BlockIdentifier, AccountCoin}
use rosetta_ergo.Ergo.Types.{BlockHeader}
use rosetta_ergo.Ergo.Inputs.{InputCtx}
use rosetta_ergo.Indexer.Storage.{Storage}
use rosetta_ergo.Indexer.State.{Indexer}
use rosetta_ergo.Indexer.Handlers.{block_seen, cached_coin}
use rosetta_ergo.Indexer.Handlers.Cache.{created_in}
use rosetta_ergo.Indexer.Handlers.Seen.{IsQuiet, HasSeen, block_seen-HasSeen}
use rosetta_ergo.Indexer.Waiting.{again, returns, look_in_cache, look_in_storage, find_coin_round}
use rosetta_ergo.Indexer.Waiting.Missing.{find_coin_round-retries}

inc64_moves : (z : ℤ) → inc64 z ≢ z
inc64_moves (pos n) h = ground arith
inc64_moves (negsuc zero) h = cc
inc64_moves (negsuc (suc n)) h = ground arith

-- The round starts where the storage has a head and not the coin, and the storage then accepts the
-- block and has a head again.
pub record IsSeeing {DB : Type 0} (s : Storage DB) (b : Block) (ctx : InputCtx) (i : Indexer DB)
    : Type 0 where
  pub head : BlockIdentifier
  pub head' : BlockIdentifier
  pub db' : DB
  pub error : Err
  pub quiet : IsQuiet i
  pub is_head : s.get_head_block_identifier i.db ≡ ok head
  pub is_stored : s.see_block b i.db ≡ (ok tt, db')
  pub is_head' : s.get_head_block_identifier db' ≡ ok head'
  pub not_stored : s.get_coin i.db ctx.input_id ≡ err error
  pub is_not_found : is_error error coin_not_found ≡ true

module _ {DB : Type 0} (s : Storage DB) (negate_value : String → Result String)
    (genesis : BlockIdentifier) (hash : Option BlockIdentifier → String) (header : BlockHeader)
    (ctx : InputCtx) where
  found_in_cache :
      (during locking : Indexer DB → Indexer DB) (i : Indexer DB) (head : BlockIdentifier)
      (error : Err) (a : AccountCoin)
      → s.get_head_block_identifier i.db ≡ ok head
      → s.get_coin i.db ctx.input_id ≡ err error
      → is_error error coin_not_found ≡ true
      → get ctx.input_id (during i).coin_cache ≡ some a
      → find_coin_round s genesis hash header ctx during locking i ≡ (returns (ok a), during i)
  unfolding find_coin_round look_in_storage look_in_cache
  found_in_cache during locking i head error a is_head not_stored is_not_found hit =
      rw (is_head, find_coin_round)
        (rw (not_stored, look_in_storage) (rw is_not_found (rw (hit, look_in_cache))))

  -- A block that another goroutine sees while a round of `findCoin` looks for a coin that the
  -- storage does not have. If `BlockSeen` runs before the round asks the cache and the block creates
  -- the coin, the round returns it, as the block left it in the cache. If it runs before that and
  -- the coin is neither created by the block nor cached, or if it runs between the cache and the
  -- lock and the coin is not cached, the round does not join a wait but looks again. Each time the
  -- indexer is left as `BlockSeen` leaves it.
  pub find_coin_round-block_seen :
      (b : Block) (i : Indexer DB)
      → IsSeeing s b ctx i
      → let sees = λ (j : Indexer DB). (block_seen s negate_value (ok tt) b j).1 in
        let idle = λ (j : Indexer DB). j in
        (i' : Indexer DB) × HasSeen b i i'
        × (created_in ctx.input_id b.transactions ≡ true
            → (a : AccountCoin) × (find_coin_round s genesis hash header ctx sees idle i
                ≡ (returns (ok a), i'))
              × (get ctx.input_id i'.coin_cache ≡ some a))
        × (created_in ctx.input_id b.transactions ≡ false
            → get ctx.input_id i.coin_cache ≡ none
            → find_coin_round s genesis hash header ctx sees idle i ≡ (again, i'))
        × (get ctx.input_id i.coin_cache ≡ none
            → find_coin_round s genesis hash header ctx idle sees i ≡ (again, i'))
  find_coin_round-block_seen b i h =
      let sees = λ (j : Indexer DB). (block_seen s negate_value (ok tt) b j).1 in
      let idle = λ (j : Indexer DB). j in
      let (i', run, is_db, seen) =
        block_seen-HasSeen s negate_value b i h.db' h.quiet h.is_stored in
      let end : sees i ≡ i' = ap (λ x. x.1) run in
      let new_head : s.get_head_block_identifier i'.db ≡ ok h.head' = rw is_db h.is_head' in
      let moved : i'.seen ≢ i.seen = λ q. inc64_moves i.seen (sym seen.counted ∙ q) in
      (
        i',
        seen,
        λ creates.
            let (op, among, (change, is_change, action, id, got)) =
              seen.cached ctx.input_id creates in
            (
              cached_coin op change,
              found_in_cache sees idle i h.head h.error _ h.is_head h.not_stored h.is_not_found
                    (rw end got)
                  ∙ ap (λ x. (returns (ok (cached_coin op change)), x)) end,
              got,
            ),
        λ other empty.
            find_coin_round-retries s genesis hash header ctx sees idle i h.head h.head'
              (record {
                error = h.error;
                is_head = h.is_head;
                is_head' = rw end new_head;
                not_stored = h.not_stored;
                is_not_found = h.is_not_found;
                not_cached = rw end (seen.kept ctx.input_id other ∙ empty);
                free = rw end seen.quiet.free;
              })
              (rw end moved)
            ∙ ap (λ x. (again, x)) end,
        λ empty.
            find_coin_round-retries s genesis hash header ctx idle sees i h.head h.head'
              (record {
                error = h.error;
                is_head = h.is_head;
                is_head' = rw end new_head;
                not_stored = h.not_stored;
                is_not_found = h.is_not_found;
                not_cached = empty;
                free = rw end seen.quiet.free;
              })
              (rw end moved)
            ∙ ap (λ x. (again, x)) end,
      )
