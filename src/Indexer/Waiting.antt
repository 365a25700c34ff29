-- ===== src/Indexer/Waiting.antt =====
-- The search for the coins that a block spends, of pkg/indexer/indexer.go.
-- What the other goroutines do meanwhile is an argument: steps on the shared state, for each round
-- of the loop. When the list of rounds is used up, the context is cancelled. The time that a
-- round sleeps is not modelled: the others run before the next round in any case.
pub mod Rounds
pub mod Missing
pub mod Joined
pub mod Seen
pub mod Tests
use rosetta_ergo.Base.{
  ℤ, pos, String, Bool, true, false, not, ◌&&◌, ◌||◌, Option, none, some, List, [], ◌∷◌, ◌++◌,
  Result, ok, err, panics, blocks, Err, sentinel, missing_transaction, head_block_not_found,
  coin_not_found, orphan_head, canceled, is_error, errorf, wrap, str, int, wrap_with, deref, eq_ℤ,
  ltb_ℤ, inc64, dec64, ◌==◌, ◌>>=◌, if◌then◌else◌,
}
use rosetta_ergo.Base.GoMap.{GoMap, get}
use rosetta_ergo.Sdk.{BlockIdentifier, AccountCoin, AccountIdentifier, Coin}
use rosetta_ergo.Ergo.Types.{FullBlock, BlockHeader}
use rosetta_ergo.Ergo.Inputs.{InputCtx}
use rosetta_ergo.Indexer.Storage.{Storage}
use rosetta_ergo.Indexer.WaitTable.{
  WaitTable, WaitTableEntry, lock, unlock, get_entry, set_entry, delete_entry,
}
use rosetta_ergo.Indexer.State.{Indexer}

-- The block is the next one above the head and its parent is another block.
unfoldable pub is_orphan : BlockIdentifier → BlockHeader → Bool
is_orphan head header = eq_ℤ header.height (inc64 head.index) && not (header.parent_id == head.hash)

-- `headBlock != nil && block != nil && …`, which follows `block.Header` once both are set.
unfoldable pub orphan_check : Option BlockIdentifier → Option FullBlock → Result (Unit {0})
unfolding is_orphan
orphan_check none block = ok tt
orphan_check (some head) none = ok tt
orphan_check (some head) (some block) = deref block.header >>= λ header.
    if is_orphan head header then err (sentinel orphan_head) else ok tt

-- One round of the loop of `findCoin`: another round, or what the function returns.
pub data Round : Type 0 where
  again : Round
  returns : Result AccountCoin → Round

-- The entry that a new listener joins: the earliest block that waits is kept.
unfoldable pub joined : ℤ → Option WaitTableEntry → WaitTableEntry
joined height none = record {
  listeners = pos 0;
  is_closed = false;
  channel_closed = false;
  aborted = false;
  earliest_block = height;
}
joined height (some val) =
    if ltb_ℤ height val.earliest_block then record val { earliest_block = height } else val

unfoldable pub register_wait : String → ℤ → WaitTable → Result WaitTable
unfolding get_entry set_entry joined
register_wait tx_id height t = get_entry tx_id false t >>= λ found.
    let val = joined height found in
    set_entry tx_id (record val { listeners = inc64 val.listeners }) false t

-- What other goroutines do before a round of the loop, in it once the storage was asked, and once
-- the cache was asked, before the lock is taken.
pub record Others (DB : Type 0) : Type 0 where
  pub before : Indexer DB → Indexer DB
  pub during : Indexer DB → Indexer DB
  pub locking : Indexer DB → Indexer DB

module _ {DB : Type 0} (s : Storage DB) (genesis : BlockIdentifier)
    (hash : Option BlockIdentifier → String) where
  unfoldable pub check_header_match : DB → Option FullBlock → Result (Unit {0})
  unfolding orphan_check
  check_header_match db block = elim (s.get_head_block_identifier db) [
    | ok head ↦ orphan_check (some head) block
    | err e ↦
        if is_error e head_block_not_found
        then orphan_check none block
        else err (wrap e "%w: unable to lookup head block" [])
    | panics ↦ panics
    | blocks ↦ blocks
  ]

  unfoldable pub is_genesis : BlockHeader → Bool
  is_genesis header = genesis.hash == header.id

  -- `i.waiter.Unlock()` before `r`.
  abbrev pub unlock_then : Round → Indexer DB → Round × Indexer DB
  unlock_then r i = elim (unlock i.waiter) [
    | ok t ↦ (r, record i { waiter = t })
    | err e ↦ (returns (err e), i)
    | panics ↦ (returns panics, i)
    | blocks ↦ (returns blocks, i)
  ]

  -- Under the lock: look again if something has changed since the round began, or wait.
  unfoldable pub wait_or_retry :
      BlockHeader → InputCtx → ℤ → Option BlockIdentifier → Indexer DB → Round × Indexer DB
  unfolding register_wait unlock
  wait_or_retry header ctx start_seen coin_head i = elim (s.get_head_block_identifier i.db) [
    | ok head ↦
        if not (hash (some head) == hash coin_head) || not (eq_ℤ i.seen start_seen)
        then unlock_then again i
        else elim (register_wait ctx.tx_id header.height i.waiter) [
          | ok t ↦
              unlock_then (returns (err (sentinel missing_transaction))) (record i { waiter = t })
          | err e ↦ (returns (err e), i)
          | panics ↦ (returns panics, i)
          | blocks ↦ (returns blocks, i)
        ]
    | err e ↦ unlock_then (returns (err (wrap e "%w: unable to get head block identifier" []))) i
    | panics ↦ (returns panics, i)
    | blocks ↦ (returns blocks, i)
  ]

  -- The coin is nowhere: take the lock.
  unfoldable pub lock_and_decide :
      BlockHeader → InputCtx → ℤ → Option BlockIdentifier → Indexer DB → Round × Indexer DB
  unfolding wait_or_retry lock
  lock_and_decide header ctx start_seen coin_head i = elim (lock i.waiter) [
    | ok t ↦ wait_or_retry header ctx start_seen coin_head (record i { waiter = t })
    | err e ↦ (returns (err e), i)
    | panics ↦ (returns panics, i)
    | blocks ↦ (returns blocks, i)
  ]

  -- The coin is not in the storage: ask the cache. `locking` is what other goroutines do before the
  -- lock is taken.
  unfoldable pub look_in_cache :
      BlockHeader
      → InputCtx
      → (Indexer DB → Indexer DB)
      → ℤ
      → Option BlockIdentifier
      → Indexer DB
      → Round × Indexer DB
  unfolding lock_and_decide
  look_in_cache header ctx locking start_seen coin_head i = elim (get ctx.input_id i.coin_cache) [
    | some acc_coin ↦ (returns (ok acc_coin), i)
    | none ↦ lock_and_decide header ctx start_seen coin_head (locking i)
  ]

  -- `during` is what other goroutines do after the storage was asked.
  unfoldable pub look_in_storage :
      BlockHeader
      → InputCtx
      → (Indexer DB → Indexer DB)
      → (Indexer DB → Indexer DB)
      → Option BlockIdentifier
      → Indexer DB
      → Round × Indexer DB
  unfolding look_in_cache
  look_in_storage header ctx during locking coin_head i = elim (s.get_coin i.db ctx.input_id) [
    | ok (coin, owner) ↦ (returns (ok (record { account = some owner; coin = coin })), i)
    | err e ↦
        if is_error e coin_not_found
        then look_in_cache header ctx locking i.seen coin_head (during i)
        else (returns (err (wrap e "%w: unable to lookup coin %s" (str ctx.input_id ∷ []))), i)
    | panics ↦ (returns panics, i)
    | blocks ↦ (returns blocks, i)
  ]

  unfoldable pub find_coin_round :
      BlockHeader
      → InputCtx
      → (Indexer DB → Indexer DB)
      → (Indexer DB → Indexer DB)
      → Indexer DB
      → Round × Indexer DB
  unfolding is_genesis look_in_storage
  find_coin_round header ctx during locking i = elim (s.get_head_block_identifier i.db) [
    | ok head ↦ look_in_storage header ctx during locking (some head) i
    | err e ↦
        if is_genesis header
        then look_in_storage header ctx during locking none i
        else if is_error e head_block_not_found
        then (again, i)
        else (returns (err (wrap e "%w: unable to get transactional head block identifier" [])), i)
    | panics ↦ (returns panics, i)
    | blocks ↦ (returns blocks, i)
  ]

  -- The loop: a round for each entry of the list, until the context is cancelled. What is left of
  -- the list is returned too.
  unfoldable pub find_coin :
      BlockHeader
      → InputCtx
      → List (Others DB)
      → Indexer DB
      → Result AccountCoin × Indexer DB × List (Others DB)
  unfolding find_coin_round
  find_coin header ctx [] i = (err (sentinel canceled), i, [])
  find_coin header ctx (o ∷ others) i =
      let (r, i') = find_coin_round header ctx o.during o.locking (o.before i) in
      elim r [ again ↦ find_coin header ctx others i' | returns x ↦ (x, i', others) ]
