-- ===== src/Indexer/Handlers.antt =====
-- `BlockSeen`, `BlockAdded` and `BlockRemoved` of pkg/indexer/indexer.go, which the syncer calls.
-- Logging is left out.
pub mod Signals
pub mod Cache
pub mod Seen
pub mod Awaited
pub mod Order
pub mod Added
use rosetta_ergo.Base.{
  ℤ, pos, String, Bool, true, false, not, ◌&&◌, Option, none, some, List, [], ◌∷◌, Result, ok, err,
  panics, blocks, str, int, wrap_with, eq_ℤ, inc64, if◌then◌else◌,
}
use rosetta_ergo.Base
use rosetta_ergo.Base.Exec.{Exec, lift, gets, modify, ◌>>=◌, ◌>>◌, proceed}
use rosetta_ergo.Base.GoMap.{GoMap, put, delete}
use rosetta_ergo.Sdk.{
  Block, BlockIdentifier, Transaction, Operation, AccountCoin, CoinChange, coin_created, coin_spent,
}
use rosetta_ergo.Indexer.Storage.{Storage}
use rosetta_ergo.Indexer.WaitTable.{
  WaitTable, WaitTableEntry, lock, unlock, get_entry, set_entry, close_channel,
}
use rosetta_ergo.Indexer.State.{Indexer}
use rosetta_ergo.Indexer.Negative.{ensure_negative_value_inputs}

-- The coin that an operation makes accessible: its account, its coin identifier and its amount.
abbrev pub cached_coin : Operation → CoinChange → AccountCoin
cached_coin op change = record {
  account = op.account;
  coin = record { coin_identifier = change.coin_identifier; amount = op.amount };
}

abbrev pub cache_change : Operation → Option CoinChange → GoMap AccountCoin → GoMap AccountCoin
cache_change op none cache = cache
cache_change op (some change) cache = elim change.coin_action [
  | coin_created ↦ put change.coin_identifier.identifier (cached_coin op change) cache
  | coin_spent ↦ cache
]

unfoldable pub cache_ops : List Operation → GoMap AccountCoin → GoMap AccountCoin
cache_ops [] cache = cache
cache_ops (op ∷ ops) cache = cache_ops ops (cache_change op op.coin_change cache)

-- `BlockSeen` caches the coins that the block creates.
unfoldable pub cache_txs : List Transaction → GoMap AccountCoin → GoMap AccountCoin
unfolding cache_ops
cache_txs [] cache = cache
cache_txs (tx ∷ txs) cache = cache_txs txs (cache_ops tx.operations cache)

abbrev pub uncache_change : Option CoinChange → GoMap AccountCoin → GoMap AccountCoin
uncache_change none cache = cache
uncache_change (some change) cache = elim change.coin_action [
  | coin_created ↦ delete change.coin_identifier.identifier cache
  | coin_spent ↦ cache
]

unfoldable pub uncache_ops : List Operation → GoMap AccountCoin → GoMap AccountCoin
uncache_ops [] cache = cache
uncache_ops (op ∷ ops) cache = uncache_ops ops (uncache_change op.coin_change cache)

-- `BlockAdded` takes them out again.
unfoldable pub uncache_txs : List Transaction → GoMap AccountCoin → GoMap AccountCoin
unfolding uncache_ops
uncache_txs [] cache = cache
uncache_txs (tx ∷ txs) cache = uncache_txs txs (uncache_ops tx.operations cache)

-- Close the channel of those who wait for the transaction, unless it is closed.
unfoldable pub signal_tx : String → WaitTable → Result WaitTable
unfolding get_entry set_entry close_channel
signal_tx tx_hash t = Base.◌>>=◌ (get_entry tx_hash false t) λ found. elim found [
  | none ↦ ok t
  | some val ↦
      if val.channel_closed
      then ok t
      else Base.◌>>=◌ (close_channel (record val { channel_closed = true }))
          λ val'. set_entry tx_hash val' false t
]

unfoldable pub signal_txs : List Transaction → WaitTable → Result WaitTable
unfolding signal_tx
signal_txs [] t = ok t
signal_txs (tx ∷ txs) t =
    Base.◌>>=◌ (signal_tx tx.transaction_identifier.hash t) λ t'. signal_txs txs t'

-- Abort a wait that the added block `index` leaves without hope.
unfoldable pub abort_entry : ℤ → WaitTableEntry → Result WaitTableEntry
unfolding close_channel
abort_entry index val =
    if eq_ℤ val.earliest_block (inc64 index) && not val.channel_closed
    then close_channel (record val { channel_closed = true; aborted = true })
    else ok val

unfoldable pub abort_entries : ℤ → GoMap WaitTableEntry → Result (GoMap WaitTableEntry)
unfolding abort_entry
abort_entries index [] = ok []
abort_entries index ((tx_hash, val) ∷ rest) =
    Base.◌>>=◌ (abort_entry index val)
      λ val'. Base.◌>>=◌ (abort_entries index rest) λ rest'. ok ((tx_hash, val') ∷ rest')

unfoldable pub abort_waits : ℤ → WaitTable → Result WaitTable
unfolding abort_entries
abort_waits index t =
    Base.◌>>=◌ (abort_entries index t.table) λ table. ok (record t { table = table })

module _ {DB : Type 0} where
  -- A step on the wait table, which is left as it was by a step that fails.
  abbrev pub on_waiter : (WaitTable → Result WaitTable) → Exec (Indexer DB) (Unit {0})
  on_waiter f i = elim (f i.waiter) [
    | ok t ↦ (ok tt, record i { waiter = t })
    | err e ↦ (err e, i)
    | panics ↦ (panics, i)
    | blocks ↦ (blocks, i)
  ]

  -- A call that writes to the database.
  abbrev pub on_db : (DB → Result (Unit {0}) × DB) → Exec (Indexer DB) (Unit {0})
  on_db f i = let (r, db) = f i.db in (r, record i { db = db })

  module _ (s : Storage DB) (negate_value : String → Result String) where
    -- `acquired` is what `seenSemaphore.Acquire` returns.
    unfoldable pub block_seen : Result (Unit {0}) → Block → Exec (Indexer DB) (Unit {0})
    unfolding cache_txs signal_txs lock unlock
    block_seen acquired block = do
      lift acquired
      modify (λ i. record i { coin_cache = cache_txs block.transactions i.coin_cache })
      modify (λ i. record i { seen = inc64 i.seen })
      on_db (λ db.
          let (r, db') = s.see_block block db in
          (
            wrap_with "%w: unable to encounter block to storage %s:%d"
                (str block.block_identifier.hash ∷ int block.block_identifier.index ∷ []) r,
            db',
          ))
      on_waiter lock
      on_waiter (signal_txs block.transactions)
      on_waiter unlock

    -- The block that the caller passed is the one that `ensure_negative_value_inputs` leaves.
    unfoldable pub block_added : Block → Exec (Indexer DB) (Unit {0})
    unfolding uncache_txs abort_waits lock unlock
    block_added given =
        let (checked, block) = ensure_negative_value_inputs negate_value given in
        do
          lift (wrap_with "failed to ensure negative value inputs: %w" [] checked)
          on_db (λ db.
              let (r, db') = s.add_block block db in
              (
                wrap_with "%w: unable to add block to storage %s:%d"
                    (str block.block_identifier.hash ∷ int block.block_identifier.index ∷ []) r,
                db',
              ))
          modify (λ i. record i { coin_cache = uncache_txs block.transactions i.coin_cache })
          on_waiter lock
          on_waiter (abort_waits block.block_identifier.index)
          on_waiter unlock

    unfoldable pub block_removed : BlockIdentifier → Exec (Indexer DB) (Unit {0})
    block_removed id = on_db (λ db.
        let (r, db') = s.remove_block id db in
        (
          wrap_with "%w: unable to remove block from storage %s:%d"
              (str id.hash ∷ int id.index ∷ []) r,
          db',
        ))
