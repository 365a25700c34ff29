-- ===== src/Indexer/Waiting/Joined.antt =====
-- A round of `findCoin` that joins a wait, and the end of that wait in `findCoins`.
use rosetta_ergo.Base.{
  ℕ, suc, ◌<◌, ℤ, pos, negsuc, String, true, false, Option, none, some, ◌≡◌, ◌∙◌, refl, ap, arith,
  ok, err, sentinel, missing_transaction, Bool-cases, inl, inr, inc64, eq_ℤ, ltb_ℤ, max_int64,
  eq_refl, ◌==◌, if◌then◌else◌,
}
use rosetta_ergo.Base.GoMap.{get, put, get-put}
use rosetta_ergo.Sdk.{BlockIdentifier}
use rosetta_ergo.Ergo.Types.{BlockHeader}
use rosetta_ergo.Ergo.Inputs.{InputCtx}
use rosetta_ergo.Indexer.Storage.{Storage}
use rosetta_ergo.Indexer.WaitTable.{WaitTable, WaitTableEntry, lock}
use rosetta_ergo.Indexer.State.{Indexer}
use rosetta_ergo.Indexer.Waiting.{returns, joined, find_coin_round}
use rosetta_ergo.Indexer.Waiting.Rounds.{listening}
use rosetta_ergo.Indexer.Waiting.Missing.{IsMissing, find_coin_round-listens}
use rosetta_ergo.Indexer.Fetching.{leave}
use rosetta_ergo.Indexer.Fetching.Waits.{left, leave_entry-left}

abbrev pub lower : ℤ → ℤ → ℤ
lower a b = if ltb_ℤ a b then a else b

-- The entry with one more listener, for a block at `height`.
abbrev pub with_listener : ℤ → Option WaitTableEntry → WaitTableEntry
with_listener height none = record {
  listeners = pos 1;
  is_closed = false;
  channel_closed = false;
  aborted = false;
  earliest_block = height;
}
with_listener height (some old) = record {
  listeners = inc64 old.listeners;
  is_closed = old.is_closed;
  channel_closed = old.channel_closed;
  aborted = old.aborted;
  earliest_block = lower old.earliest_block height;
}

-- What is left of the entry when that listener is gone again.
abbrev pub restored : ℤ → Option WaitTableEntry → Option WaitTableEntry
restored height none = none
restored height (some old) = some (record old { earliest_block = lower old.earliest_block height })

-- An entry has a listener, and its counter has room for one more.
abbrev pub HasRoom : Option WaitTableEntry → Type 0
HasRoom none = Unit
HasRoom (some old) = (n : ℕ) × (old.listeners ≡ pos (suc n)) × (suc n < max_int64)

lower_either : (a b : ℤ) → (if ltb_ℤ b a then b else a) ≡ lower a b
lower_either (pos a) (pos b) = ground arith
lower_either (pos a) (negsuc b) = refl
lower_either (negsuc a) (pos b) = refl
lower_either (negsuc a) (negsuc b) = ground arith

listening-with_listener :
    (height : ℤ) (o : Option WaitTableEntry) → listening height o ≡ with_listener height o
unfolding joined
listening-with_listener height none = refl
listening-with_listener height (some old) =
    let low = lower_either old.earliest_block height in
    elim (Bool-cases (ltb_ℤ height old.earliest_block)) [
      | inl below ↦
          let low' : height ≡ lower old.earliest_block height = rw below at low in
          rw below
            (ap (λ e. record old { listeners = inc64 old.listeners; earliest_block = e }) low')
      | inr above ↦
          let low' : old.earliest_block ≡ lower old.earliest_block height = rw above at low in
          rw above
            (ap (λ e. record old { listeners = inc64 old.listeners; earliest_block = e }) low')
    ]

with_listener-left :
    (height : ℤ) (o : Option WaitTableEntry)
    → HasRoom o
    → left (with_listener height o) ≡ restored height o
with_listener-left height none h = refl
with_listener-left height (some old) (n, count, room) =
    let more : inc64 (pos (suc n)) ≡ pos (suc (suc n)) = ground arith in
    let others : eq_ℤ (pos (suc n)) (pos 0) ≡ false = ground arith in
    rw count (rw more (rw others refl))

module _ {DB : Type 0} (s : Storage DB) (genesis : BlockIdentifier)
    (hash : Option BlockIdentifier → String) where
  -- Where the coin is neither in the storage nor in the cache, no block was seen and the head has
  -- the same hash, the round returns `errMissingTransaction` with the lock free. The entry of the
  -- context's transaction then has one listener more and the lower one of its earliest block and
  -- this block's height, or is a new one with one listener and this height; its flags, the other
  -- entries and the rest of the indexer are as the others left them. When the wait ends at once,
  -- the lock is free again and the listener is gone: the entry is as it was but for the lower
  -- earliest block, or deleted if it was new. The counter must have room for the listener.
  pub find_coin_round-leave :
      (header : BlockHeader) (ctx : InputCtx) (during locking : Indexer DB → Indexer DB)
      (i : Indexer DB) (head head' : BlockIdentifier)
      → IsMissing s genesis hash ctx during locking i head head'
      → (locking (during i)).seen ≡ i.seen
      → hash (some head') ≡ hash (some head)
      → HasRoom (get ctx.tx_id (locking (during i)).waiter.table)
      → let k = locking (during i) in
        let found = get ctx.tx_id k.waiter.table in
        (t : WaitTable) × (find_coin_round s genesis hash header ctx during locking i
          ≡ (returns (err (sentinel missing_transaction)), record k { waiter = t }))
        × (t.locked ≡ false)
        × ((tx : String)
            → get tx t.table ≡ (
                if ctx.tx_id == tx
                then some (with_listener header.height found)
                else get tx k.waiter.table))
        × (t' : WaitTable) × (leave ctx.tx_id t
            ≡ (ok (with_listener header.height found).aborted, t'))
        × (t'.locked ≡ false)
        × ((tx : String)
            → get tx t'.table
              ≡ (if ctx.tx_id == tx then restored header.height found else get tx k.waiter.table))
  unfolding leave lock
  find_coin_round-leave header ctx during locking i head head' m seen heads room =
      let k = locking (during i) in
      let tx = ctx.tx_id in
      let old = k.waiter.table in
      let entry = listening header.height (get tx old) in
      let v = with_listener header.height (get tx old) in
      let is_entry : entry ≡ v = listening-with_listener header.height (get tx old) in
      let table = put tx entry old in
      let lookup : (x : String) → get x table ≡ (if tx == x then some v else get x old) =
        λ x. get-put tx x entry old ∙ ap (λ e. if tx == x then some e else get x old) is_entry in
      let there : get tx table ≡ some v = lookup tx ∙ rw (eq_refl tx) in
      let (t', leaves, free, entries) =
        leave_entry-left tx v (record { table = table; locked = true }) refl in
      (
        record { table = table; locked = false },
        find_coin_round-listens s genesis hash header ctx during locking i head head' m seen heads,
        refl,
        lookup,
        t',
        rw (there, leave) (rw leaves),
        free,
        λ x.
            entries x
            ∙ rw (lookup x) (elim (Bool-cases (tx == x)) [
              | inl same ↦ rw same (with_listener-left header.height (get tx old) room)
              | inr other ↦ rw other refl
            ]),
      )
