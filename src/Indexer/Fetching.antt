-- ===== src/Indexer/Fetching.antt =====
-- `findCoins` of pkg/indexer/indexer.go: the search for all coins that a block spends, and the wait
-- for the transactions of those that are missing.
-- As in the search for one coin, what other goroutines do is an argument. A wait ends when the
-- channel that it reads is closed or when the context is cancelled; which of the two it is, and what
-- the others did before, is an entry of a list. When a list is used up, the context is cancelled.
pub mod Rounds
pub mod Waits
pub mod Searched
pub mod Waited
pub mod Found
pub mod Maps
use rosetta_ergo.Base.{
  ℤ, pos, String, Bool, true, false, ◌||◌, Option, none, some, List, [], ◌∷◌, ◌++◌, Result, ok, err,
  panics, blocks, sentinel, canceled, missing_transaction, orphan_head, is_error, errorf, wrap, str,
  deref, dec64, eq_ℤ, ◌>>=◌, if◌then◌else◌,
}
use rosetta_ergo.Base.GoMap.{GoMap, get, put}
use rosetta_ergo.Sdk.{BlockIdentifier, AccountCoin}
use rosetta_ergo.Ergo.Types.{FullBlock}
use rosetta_ergo.Ergo.Inputs.{InputCtx}
use rosetta_ergo.Indexer.Storage.{Storage}
use rosetta_ergo.Indexer.WaitTable.{
  WaitTable, WaitTableEntry, lock, unlock, get_entry, set_entry, delete_entry,
}
use rosetta_ergo.Indexer.State.{Indexer}
use rosetta_ergo.Indexer.Waiting.{Others, check_header_match, find_coin}

-- How a wait ends: what the others did until then, and whether the context was cancelled.
pub record Wake (DB : Type 0) : Type 0 where
  pub others : Indexer DB → Indexer DB
  pub cancelled : Bool

-- What the others do in one call of `findCoins`, the calls that it makes of itself left out.
pub record Attempt (DB : Type 0) : Type 0 where
  pub rounds : List (Others DB)
  pub wakes : List (Wake DB)

-- One coin of the first loop: found, left for later, or an error.
abbrev pub note_coin :
    InputCtx
    → GoMap AccountCoin
    → List InputCtx
    → Result AccountCoin
    → Result (GoMap AccountCoin × List InputCtx)
note_coin ctx coin_map remaining (ok coin) = ok (put ctx.input_id coin coin_map, remaining)
note_coin ctx coin_map remaining (err e) =
    if is_error e missing_transaction
    then ok (coin_map, remaining ++ ctx ∷ [])
    else err (
        wrap e "%w: unable to find coin, input id: %s, tx id: %s"
          (str ctx.input_id ∷ str ctx.tx_id ∷ []))
note_coin ctx coin_map remaining panics = panics
note_coin ctx coin_map remaining blocks = blocks

-- One listener less; the last one deletes the entry.
unfoldable pub leave_entry : String → WaitTableEntry → WaitTable → Result WaitTable
unfolding set_entry delete_entry unlock
leave_entry tx_hash val t =
    let listeners = dec64 val.listeners in
    (if eq_ℤ listeners (pos 0)
      then delete_entry tx_hash false t
      else set_entry tx_hash (record val { listeners = listeners }) false t)
    >>= λ t'. unlock t'

-- After the wait: whether it was aborted. Where the entry is gone the lock stays held.
unfoldable pub leave : String → WaitTable → Result Bool × WaitTable
unfolding lock leave_entry
leave tx_hash t = elim (lock t) [
  | ok held ↦ elim (get tx_hash held.table) [
    | none ↦ (err (errorf "transaction %s not in waiter" (str tx_hash ∷ [])), held)
    | some val ↦ elim (leave_entry tx_hash val held) [
      | ok t' ↦ (ok val.aborted, t')
      | err e ↦ (err e, held)
      | panics ↦ (panics, held)
      | blocks ↦ (blocks, held)
    ]
  ]
  | err e ↦ (err e, t)
  | panics ↦ (panics, t)
  | blocks ↦ (blocks, t)
]

-- `for k, v := range foundCoins { coinMap[k] = v }`
unfoldable pub put_all : GoMap AccountCoin → GoMap AccountCoin → GoMap AccountCoin
put_all [] coin_map = coin_map
put_all ((k, v) ∷ found) coin_map = put_all found (put k v coin_map)

module _ {DB : Type 0} where
  -- The select on the channel of the entry, and what follows it.
  unfoldable pub wait_for :
      String → List (Wake DB) → Indexer DB → Result Bool × Indexer DB × List (Wake DB)
  unfolding get_entry leave
  wait_for tx_hash wakes i = elim (get_entry tx_hash true i.waiter) [
    | ok none ↦ (err (errorf "transaction %s not in waiter" (str tx_hash ∷ [])), i, wakes)
    | ok (some entry) ↦ elim wakes [
      | [] ↦ (err (sentinel canceled), i, [])
      | wake ∷ wakes' ↦
          let i' = wake.others i in
          let (r, t) = leave tx_hash i'.waiter in
          if wake.cancelled
          then (err (sentinel canceled), i', wakes')
          else (r, record i' { waiter = t }, wakes')
    ]
    | err e ↦ (err e, i, wakes)
    | panics ↦ (panics, i, wakes)
    | blocks ↦ (blocks, i, wakes)
  ]

  -- The loop over the remaining coins; `should_abort` is returned.
  unfoldable pub wait_for_all :
      Bool → List InputCtx → List (Wake DB) → Indexer DB → Result Bool × Indexer DB
  unfolding wait_for
  wait_for_all should_abort [] wakes i = (ok should_abort, i)
  wait_for_all should_abort (coin ∷ coins) wakes i =
      let (r, i', wakes') = wait_for coin.tx_id wakes i in
      elim r [
        | ok aborted ↦ wait_for_all (should_abort || aborted) coins wakes' i'
        | err e ↦ (err e, i')
        | panics ↦ (panics, i')
        | blocks ↦ (blocks, i')
      ]

  module _ (s : Storage DB) (genesis : BlockIdentifier) (hash : Option BlockIdentifier → String)
      (block : Option FullBlock) where
    -- `findCoin`, which follows the block to its header before anything else.
    unfoldable pub find_coin_of :
        InputCtx
        → List (Others DB)
        → Indexer DB
        → Result AccountCoin × Indexer DB × List (Others DB)
    unfolding find_coin
    find_coin_of ctx rounds i = elim (deref block >>= λ b. deref b.header) [
      | ok header ↦ find_coin s genesis hash header ctx rounds i
      | err e ↦ (err e, i, rounds)
      | panics ↦ (panics, i, rounds)
      | blocks ↦ (blocks, i, rounds)
    ]

    -- The first loop: the coins that are found, and those to wait for.
    unfoldable pub search :
        GoMap AccountCoin
        → List InputCtx
        → List InputCtx
        → List (Others DB)
        → Indexer DB
        → Result (GoMap AccountCoin × List InputCtx) × Indexer DB
    unfolding find_coin_of
    search coin_map remaining [] rounds i = (ok (coin_map, remaining), i)
    search coin_map remaining (ctx ∷ coins) rounds i =
        let (r, i', rounds') = find_coin_of ctx rounds i in
        elim (note_coin ctx coin_map remaining r) [
          | ok (coin_map', remaining') ↦ search coin_map' remaining' coins rounds' i'
          | err e ↦ (err e, i')
          | panics ↦ (panics, i')
          | blocks ↦ (blocks, i')
        ]

    -- What the function returns with the coins that its call of itself found.
    abbrev pub join_found :
        GoMap AccountCoin
        → Result (GoMap AccountCoin) × Indexer DB
        → Result (GoMap AccountCoin) × Indexer DB
    join_found coin_map (ok found, i) = (ok (put_all found coin_map), i)
    join_found coin_map (err e, i) = (err (wrap e "%w: unable to get remaining transactions" []), i)
    join_found coin_map (panics, i) = (panics, i)
    join_found coin_map (blocks, i) = (blocks, i)

    -- From the second loop on.
    abbrev pub wait_then :
        (List InputCtx → Indexer DB → Result (GoMap AccountCoin) × Indexer DB)
        → List (Wake DB)
        → GoMap AccountCoin
        → List InputCtx
        → Indexer DB
        → Result (GoMap AccountCoin) × Indexer DB
    wait_then find_again wakes coin_map [] i = (ok coin_map, i)
    wait_then find_again wakes coin_map (ctx ∷ remaining) i =
        let (r, i') = wait_for_all false (ctx ∷ remaining) wakes i in
        elim r [
          | ok true ↦ (err (sentinel orphan_head), i')
          | ok false ↦ join_found coin_map (find_again (ctx ∷ remaining) i')
          | err e ↦ (err e, i')
          | panics ↦ (panics, i')
          | blocks ↦ (blocks, i')
        ]

    unfoldable pub find_coins_once :
        (List InputCtx → Indexer DB → Result (GoMap AccountCoin) × Indexer DB)
        → Attempt DB
        → List InputCtx
        → Indexer DB
        → Result (GoMap AccountCoin) × Indexer DB
    unfolding search wait_for_all put_all
    find_coins_once find_again attempt coins i =
        elim (check_header_match s genesis hash i.db block) [
          | ok u ↦
              let (r, i') = search [] [] coins attempt.rounds i in
              elim r [
                | ok (coin_map, remaining) ↦
                    wait_then find_again attempt.wakes coin_map remaining i'
                | err e ↦ (err e, i')
                | panics ↦ (panics, i')
                | blocks ↦ (blocks, i')
              ]
          | err e ↦ (err (wrap e "%w: check header match failed" []), i)
          | panics ↦ (panics, i)
          | blocks ↦ (blocks, i)
        ]

    -- With no attempt left the context is cancelled: the call does not get as far as calling itself.
    unfoldable pub find_coins :
        List (Attempt DB) → List InputCtx → Indexer DB → Result (GoMap AccountCoin) × Indexer DB
    unfolding find_coins_once
    find_coins [] coins i =
        find_coins_once (λ remaining i'. (err (sentinel canceled), i'))
          (record { rounds = []; wakes = [] }) coins i
    find_coins (attempt ∷ attempts) coins i =
        find_coins_once (λ remaining i'. find_coins attempts remaining i') attempt coins i
