-- ===== src/Indexer/Fetching/Found.antt =====
-- What `findCoins` returns.
use rosetta_ergo.Base.{
  String, Bool, true, false, Option, some, List, [], ◌∷◌, ◌≡◌, inl, inr, Result, ok, err, panics,
  blocks, sentinel, canceled, orphan_head, wrap, All, All-Among, Among,
}
use rosetta_ergo.Base.GoMap.{GoMap, get}
use rosetta_ergo.Sdk.{AccountCoin, AccountIdentifier, BlockIdentifier, Coin}
use rosetta_ergo.Ergo.Types.{FullBlock}
use rosetta_ergo.Ergo.Inputs.{InputCtx}
use rosetta_ergo.Indexer.Storage.{Storage}
use rosetta_ergo.Indexer.WaitTable.{WaitTable}
use rosetta_ergo.Indexer.State.{Indexer}
use rosetta_ergo.Indexer.Waiting.{check_header_match}
use rosetta_ergo.Indexer.Fetching.{
  Wake, Attempt, put_all, wait_for_all, search, join_found, wait_then, find_coins_once, find_coins,
}
use rosetta_ergo.Indexer.Fetching.Rounds.{RoundsKeep, Leaves}
use rosetta_ergo.Indexer.Fetching.Maps.{
  HasKey, AllFit, put_all-HasKey, put_all-HasKey_found, put_all-AllFit,
}
use rosetta_ergo.Indexer.Fetching.Searched.{IsNoted, SearchLeaves, search-Leaves}
use rosetta_ergo.Indexer.Fetching.Waited.{WakesKeep, wait_for_all-WaitedLeaves}

-- What the other goroutines do in the attempts keeps what holds of the indexer.
abbrev pub AttemptsKeep : {DB : Type 0} → (Indexer DB → Type 0) → List (Attempt DB) → Type 0
AttemptsKeep {DB} I = All (λ (a : Attempt DB). RoundsKeep I a.rounds × WakesKeep I a.wakes)

module _ {DB : Type 0} (s : Storage DB) (genesis : BlockIdentifier)
    (hash : Option BlockIdentifier → String) (I : Indexer DB → Type 0)
    (frame : (i : Indexer DB) (t : WaitTable) → I i → I (record i { waiter = t }))
    (P : String → AccountCoin → Type 0)
    (stored : (db : DB) (id : String) (coin : Coin) (owner : AccountIdentifier)
      → s.get_coin db id ≡ ok (coin, owner)
      → P id (record { account = some owner; coin = coin }))
    (cached : (i : Indexer DB) (id : String) (a : AccountCoin)
      → I i
      → get id i.coin_cache ≡ some a
      → P id a)
    (block : Option FullBlock) where
  -- A map that fits, with a coin for each context.
  abbrev pub HasCoins : List InputCtx → GoMap AccountCoin → Type 0
  HasCoins coins m = AllFit P m × All (λ (c : InputCtx). HasKey c.input_id m) coins

  abbrev pub FoundLeaves : List InputCtx → Result (GoMap AccountCoin) × Indexer DB → Type 0
  FoundLeaves coins (r, i) = Leaves I (HasCoins coins) r i

  All-IsNoted :
      (m m' : GoMap AccountCoin) (remaining coins : List InputCtx)
      → ((k : String) → HasKey k m → HasKey k m')
      → ((c : InputCtx) → Among c remaining → HasKey c.input_id m')
      → All (IsNoted (m, remaining)) coins
      → All (λ (c : InputCtx). HasKey c.input_id m') coins
  All-IsNoted m m' remaining [] f g h = tt
  All-IsNoted m m' remaining (c ∷ coins) f g (inl there, h) =
      (f c.input_id there, All-IsNoted m m' remaining coins f g h)
  All-IsNoted m m' remaining (c ∷ coins) f g (inr later, h) =
      (g c later, All-IsNoted m m' remaining coins f g h)

  join_found-FoundLeaves :
      (m : GoMap AccountCoin) (remaining coins : List InputCtx)
      (found : Result (GoMap AccountCoin) × Indexer DB)
      → AllFit P m
      → All (IsNoted (m, remaining)) coins
      → FoundLeaves remaining found
      → FoundLeaves coins (join_found s genesis hash block m found)
  join_found-FoundLeaves m remaining coins (ok f, i) fit noted ((fits, has), h) = (
    (
      put_all-AllFit P f m fits fit,
      All-IsNoted m (put_all f m) remaining coins (λ k there. put_all-HasKey k f m there)
          (λ c later.
            put_all-HasKey_found c.input_id f m
              (All-Among (λ (c : InputCtx). HasKey c.input_id f) c remaining has later))
          noted,
    ),
    h,
  )
  join_found-FoundLeaves m remaining coins (err e, i) fit noted h = h
  join_found-FoundLeaves m remaining coins (panics, i) fit noted h = h
  join_found-FoundLeaves m remaining coins (blocks, i) fit noted h = h

  after_waits :
      (find_again : List InputCtx → Indexer DB → Result (GoMap AccountCoin) × Indexer DB)
      (m : GoMap AccountCoin) (remaining coins : List InputCtx) (r : Result Bool) (i : Indexer DB)
      → AllFit P m
      → All (IsNoted (m, remaining)) coins
      → ((i' : Indexer DB) → I i' → FoundLeaves remaining (find_again remaining i'))
      → I i
      → FoundLeaves coins (elim r [
        | ok true ↦ (err (sentinel orphan_head), i)
        | ok false ↦ join_found s genesis hash block m (find_again remaining i)
        | err e ↦ (err e, i)
        | panics ↦ (panics, i)
        | blocks ↦ (blocks, i)
      ])
  after_waits find_again m remaining coins (ok true) i fit noted next h = h
  after_waits find_again m remaining coins (ok false) i fit noted next h =
      join_found-FoundLeaves m remaining coins _ fit noted (next i h)
  after_waits find_again m remaining coins (err e) i fit noted next h = h
  after_waits find_again m remaining coins panics i fit noted next h = h
  after_waits find_again m remaining coins blocks i fit noted next h = h

  wait_then-FoundLeaves :
      (find_again : List InputCtx → Indexer DB → Result (GoMap AccountCoin) × Indexer DB)
      (wakes : List (Wake DB)) (m : GoMap AccountCoin) (remaining coins : List InputCtx)
      (i : Indexer DB)
      → WakesKeep I wakes
      → AllFit P m
      → All (IsNoted (m, remaining)) coins
      → ((i' : Indexer DB) → I i' → FoundLeaves remaining (find_again remaining i'))
      → I i
      → FoundLeaves coins (wait_then s genesis hash block find_again wakes m remaining i)
  wait_then-FoundLeaves find_again wakes m [] coins i keep fit noted next h =
      ((fit, All-IsNoted m m [] coins (λ k there. there) (λ c later. absurd later) noted), h)
  wait_then-FoundLeaves find_again wakes m (ctx ∷ remaining) coins i keep fit noted next h =
      let step = wait_for_all false (ctx ∷ remaining) wakes i in
      after_waits find_again m (ctx ∷ remaining) coins step.0 step.1 fit noted next
        (wait_for_all-WaitedLeaves I frame false (ctx ∷ remaining) wakes i keep h)

  after_search :
      (find_again : List InputCtx → Indexer DB → Result (GoMap AccountCoin) × Indexer DB)
      (wakes : List (Wake DB)) (coins : List InputCtx)
      (r : Result (GoMap AccountCoin × List InputCtx)) (i : Indexer DB)
      → WakesKeep I wakes
      → ((remaining : List InputCtx) (i' : Indexer DB)
          → I i'
          → FoundLeaves remaining (find_again remaining i'))
      → SearchLeaves I P ([], []) coins (r, i)
      → FoundLeaves coins (elim r [
        | ok (m, remaining) ↦ wait_then s genesis hash block find_again wakes m remaining i
        | err e ↦ (err e, i)
        | panics ↦ (panics, i)
        | blocks ↦ (blocks, i)
      ])
  after_search find_again wakes coins (ok (m, remaining)) i keep next ((extends, noted), h) =
      wait_then-FoundLeaves find_again wakes m remaining coins i keep (extends.0 tt) noted
        (next remaining) h
  after_search find_again wakes coins (err e) i keep next h = h
  after_search find_again wakes coins panics i keep next h = h
  after_search find_again wakes coins blocks i keep next h = h

  after_match :
      (find_again : List InputCtx → Indexer DB → Result (GoMap AccountCoin) × Indexer DB)
      (attempt : Attempt DB) (coins : List InputCtx) (i : Indexer DB) (r : Result (Unit {0}))
      → RoundsKeep I attempt.rounds × WakesKeep I attempt.wakes
      → ((remaining : List InputCtx) (i' : Indexer DB)
          → I i'
          → FoundLeaves remaining (find_again remaining i'))
      → I i
      → FoundLeaves coins (elim r [
        | ok u ↦
            let (y, i') = search s genesis hash block [] [] coins attempt.rounds i in
            elim y [
              | ok (m, remaining) ↦
                  wait_then s genesis hash block find_again attempt.wakes m remaining i'
              | err e ↦ (err e, i')
              | panics ↦ (panics, i')
              | blocks ↦ (blocks, i')
            ]
        | err e ↦ (err (wrap e "%w: check header match failed" []), i)
        | panics ↦ (panics, i)
        | blocks ↦ (blocks, i)
      ])
  after_match find_again attempt coins i (ok u) (rounds, wakes) next h =
      let step = search s genesis hash block [] [] coins attempt.rounds i in
      after_search find_again attempt.wakes coins step.0 step.1 wakes next (
        search-Leaves s genesis hash I frame P stored cached block [] [] coins attempt.rounds i
          rounds h)
  after_match find_again attempt coins i (err e) keep next h = h
  after_match find_again attempt coins i panics keep next h = h
  after_match find_again attempt coins i blocks keep next h = h

  pub find_coins-FoundLeaves :
      (attempts : List (Attempt DB)) (coins : List InputCtx) (i : Indexer DB)
      → AttemptsKeep I attempts
      → I i
      → FoundLeaves coins (find_coins s genesis hash block attempts coins i)
  unfolding find_coins find_coins_once
  find_coins-FoundLeaves [] coins i keep h =
      after_match (λ remaining i'. (err (sentinel canceled), i'))
        (record { rounds = []; wakes = [] }) coins i (check_header_match s genesis hash i.db block)
        (tt, tt) (λ remaining i' k. k) h
  find_coins-FoundLeaves (attempt ∷ attempts) coins i (keep, keeps) h =
      after_match (λ remaining i'. find_coins s genesis hash block attempts remaining i') attempt
        coins i (check_header_match s genesis hash i.db block) keep
        (λ remaining i' k. find_coins-FoundLeaves attempts remaining i' keeps k) h

  -- Take an invariant of the indexer that does not read the wait table, which the other goroutines
  -- keep, and a predicate that every coin of the storage satisfies and, under the invariant, every
  -- cached coin. Where `findCoins` starts under the invariant and returns a map, all coins of the
  -- map satisfy the predicate, the map has a coin for each context that it was given, and the
  -- invariant holds again.
  pub find_coins-HasCoins :
      (attempts : List (Attempt DB)) (coins : List InputCtx) (i i' : Indexer DB)
      (m : GoMap AccountCoin)
      → AttemptsKeep I attempts
      → I i
      → find_coins s genesis hash block attempts coins i ≡ (ok m, i')
      → HasCoins coins m × I i'
  find_coins-HasCoins attempts coins i i' m keep h found =
      rw found at (find_coins-FoundLeaves attempts coins i keep h)
