-- ===== src/Indexer/Released/Found.antt =====
-- `findCoins` as a whole, beside other goroutines.
mod Searches
use Searches.{SearchAfter, search-SearchAfter}
use rosetta_ergo.Base.{
  ℕ, suc, ◌+◌, ◌<◌, ◌≤◌, max_int64, String, Bool, true, false, Option, some, List, [], ◌∷◌, ◌++◌,
  ◌≡◌, refl, Result, ok, err, panics, blocks, sentinel, canceled, orphan_head, Answers,
  Answers-cases, arith, length, length-append, is_error, missing_transaction, head_block_not_found,
  Bool-cases, inl, inr,
}
use rosetta_ergo.Base.GoMap.{GoMap}
use rosetta_ergo.Sdk.{BlockIdentifier, AccountCoin}
use rosetta_ergo.Ergo.Types.{FullBlock, BlockHeader}
use rosetta_ergo.Ergo.Inputs.{InputCtx}
use rosetta_ergo.Indexer.Storage.{Storage}
use rosetta_ergo.Indexer.State.{Indexer}
use rosetta_ergo.Indexer.Waiting.{Others, returns, is_orphan, orphan_check, check_header_match}
use rosetta_ergo.Indexer.Fetching.{
  Wake, Attempt, note_coin, wait_for_all, find_coin_of, search, join_found, wait_then,
  find_coins_once, find_coins,
}
use rosetta_ergo.Indexer.Fetching.Rounds.{RoundsKeep}
use rosetta_ergo.Indexer.Fetching.Waited.{WakesKeep}
use rosetta_ergo.Indexer.Fetching.Found.{AttemptsKeep}
use rosetta_ergo.Indexer.Released.{IsReadable, Holds, After}
use rosetta_ergo.Indexer.Released.Rounds.{find_coin-FindAfter}
use rosetta_ergo.Indexer.Released.Entries.{AllAfter, wait_for_all-AllAfter}

module _ (limit : ℕ) {DB : Type 0} where
  -- What the whole leaves: with its coins, or where the block is an orphan, no wait.
  abbrev pub IsReleased : Result (GoMap AccountCoin) × Indexer DB → Type 0
  IsReleased (ok coin_map, i) = Holds limit [] i
  IsReleased (err e, i) =
      (left : List InputCtx) × Holds limit left i × (is_error e orphan_head ≡ true → left ≡ [])
  IsReleased (panics, i) = ⊥
  IsReleased (blocks, i) = ⊥

module _ (limit bound : ℕ) (room : bound + limit < max_int64) {DB : Type 0} (s : Storage DB)
    (genesis : BlockIdentifier) (hash : Option BlockIdentifier → String) (reads : IsReadable s)
    (b : FullBlock) (header : BlockHeader) (has_header : b.header ≡ some header) where
  join_found-IsReleased :
      (coin_map : GoMap AccountCoin) (x : Result (GoMap AccountCoin) × Indexer DB)
      → IsReleased limit {DB = DB} x
      → IsReleased limit {DB = DB} (join_found s genesis hash (some b) coin_map x)
  join_found-IsReleased coin_map (ok found, i) h = h
  join_found-IsReleased coin_map (err e, i) h = h
  join_found-IsReleased coin_map (panics, i) h = h
  join_found-IsReleased coin_map (blocks, i) h = h

  -- The call of itself, for at most `bound` contexts and with no wait outstanding.
  module _ (find_again : List InputCtx → Indexer DB → Result (GoMap AccountCoin) × Indexer DB)
      (again_released : (coins : List InputCtx) (i : Indexer DB)
        → length coins ≤ bound
        → Holds limit [] i
        → IsReleased limit {DB = DB} (find_again coins i)) where
    after_waits :
        (coin_map : GoMap AccountCoin) (remaining : List InputCtx) (r : Result Bool)
        (i : Indexer DB)
        → length remaining ≤ bound
        → AllAfter limit {DB = DB} (r, i)
        → IsReleased limit {DB = DB} (elim r [
          | ok true ↦ (err (sentinel orphan_head), i)
          | ok false ↦ join_found s genesis hash (some b) coin_map (find_again remaining i)
          | err e ↦ (err e, i)
          | panics ↦ (panics, i)
          | blocks ↦ (blocks, i)
        ])
    after_waits coin_map remaining (ok true) i small h = ([], h, λ _. refl)
    after_waits coin_map remaining (ok false) i small h =
        join_found-IsReleased coin_map _ (again_released remaining i small h)
    after_waits coin_map remaining (err e) i small (other, left, h) = (left, h, λ q. cc)
    after_waits coin_map remaining panics i small h = h
    after_waits coin_map remaining blocks i small h = h

    after_search :
        (wakes : List (Wake DB)) (r : Result (GoMap AccountCoin × List InputCtx)) (i : Indexer DB)
        → ((m : List InputCtx) → WakesKeep (Holds limit m) wakes)
        → SearchAfter limit {DB = DB} bound (r, i)
        → IsReleased limit {DB = DB} (elim r [
          | ok (coin_map, remaining) ↦
              wait_then s genesis hash (some b) find_again wakes coin_map remaining i
          | err e ↦ (err e, i)
          | panics ↦ (panics, i)
          | blocks ↦ (blocks, i)
        ])
    after_search wakes (ok (coin_map, [])) i keep (h, small) = h
    after_search wakes (ok (coin_map, ctx ∷ remaining)) i keep (h, small) =
        let step = wait_for_all false (ctx ∷ remaining) wakes i in
        after_waits coin_map (ctx ∷ remaining) step.0 step.1 small
          (wait_for_all-AllAfter limit false (ctx ∷ remaining) wakes i keep h)
    after_search wakes (err e) i keep (other, left, h) = (left, h, λ q. cc)
    after_search wakes panics i keep h = h
    after_search wakes blocks i keep h = h

    after_check :
        (attempt : Attempt DB) (coins : List InputCtx) (i : Indexer DB) (r : Result (Unit {0}))
        → Answers r
        → length coins ≤ bound
        → ((m : List InputCtx)
            → RoundsKeep (Holds limit m) attempt.rounds × WakesKeep (Holds limit m) attempt.wakes)
        → Holds limit [] i
        → check_header_match s genesis hash i.db (some b) ≡ r
        → IsReleased limit {DB = DB}
            (find_coins_once s genesis hash (some b) find_again attempt coins i)
    unfolding find_coins_once
    after_check attempt coins i (ok u) answers small keep h e =
        let step = search s genesis hash (some b) [] [] coins attempt.rounds i in
        rw (e, find_coins_once)
          (after_search attempt.wakes step.0 step.1 (λ m. (keep m).1)
            (search-SearchAfter limit bound room s genesis hash reads b header has_header [] []
              coins attempt.rounds i (omega arith) (λ m. (keep m).0) h))
    after_check attempt coins i (err x) answers small keep h e =
        rw (e, find_coins_once) ([], h, λ _. refl)
    after_check attempt coins i panics answers small keep h e = absurd answers
    after_check attempt coins i blocks answers small keep h e = absurd answers

  orphan_check-Answers : (head : BlockIdentifier) → Answers (orphan_check (some head) (some b))
  unfolding orphan_check
  orphan_check-Answers head =
      rw (has_header, orphan_check)
        (elim (Bool-cases (is_orphan head header)) [
          | inl orphan ↦ rw orphan tt
          | inr fits ↦ rw fits tt
        ])

  check-Answers : (db : DB) → Answers (check_header_match s genesis hash db (some b))
  unfolding check_header_match orphan_check
  check-Answers db = elim (Answers-cases _ (reads.heads db)) [
    | inl (head, e) ↦ rw (e, check_header_match) (orphan_check-Answers head)
    | inr (x, e) ↦ elim (Bool-cases (is_error x head_block_not_found)) [
      | inl none_yet ↦ rw (e, check_header_match) (rw none_yet tt)
      | inr other ↦ rw (e, check_header_match) (rw other tt)
    ]
  ]

  -- `findCoins` beside other goroutines, for at most `bound` contexts and a block with its header.
  -- The storage's reads return, and never with the indexer's own errors. The others keep, for
  -- whatever waits the call has: the lock is free, the closed flags are right, the counters of the
  -- table are right, the call's waits are outstanding, and for each transaction at most `limit`
  -- other ones; a counter has room for both. If that holds at the start, with no wait of the call,
  -- the call neither panics nor waits for the lock for ever, whatever it returns, and it holds at
  -- the end. If it returns its coins, or an error that is `ErrOrphanHead`, the call has left every
  -- wait that it joined.
  pub find_coins-IsReleased :
      (attempts : List (Attempt DB)) (coins : List InputCtx) (i : Indexer DB)
      → length coins ≤ bound
      → ((m : List InputCtx) → AttemptsKeep (Holds limit m) attempts)
      → Holds limit [] i
      → IsReleased limit {DB = DB} (find_coins s genesis hash (some b) attempts coins i)
  unfolding find_coins
  find_coins-IsReleased [] coins i small keep h =
      after_check (λ remaining i'. (err (sentinel canceled), i'))
        (λ remaining i' _ h'. ([], h', λ _. refl)) (record { rounds = []; wakes = [] }) coins i _
        (check-Answers i.db) small (λ m. (tt, tt)) h refl
  find_coins-IsReleased (attempt ∷ attempts) coins i small keep h =
      after_check (λ remaining i'. find_coins s genesis hash (some b) attempts remaining i')
        (λ remaining i' small' h'.
          find_coins-IsReleased attempts remaining i' small' (λ m. (keep m).1) h')
        attempt coins i _ (check-Answers i.db) small (λ m. (keep m).0) h refl
