-- ===== src/Indexer/Released/Found/Searches.antt =====
-- The first loop of `findCoins`, and the waits that it joins.
use rosetta_ergo.Base.{
  ℕ, suc, ◌+◌, ◌<◌, ◌≤◌, max_int64, String, false, Option, some, List, [], ◌∷◌, ◌++◌, ◌≡◌, Result,
  ok, err, panics, blocks, orphan_head, arith, length, length-append, is_error, missing_transaction,
  Bool-cases, inl, inr,
}
use rosetta_ergo.Base.GoMap.{GoMap}
use rosetta_ergo.Sdk.{BlockIdentifier, AccountCoin}
use rosetta_ergo.Ergo.Types.{FullBlock, BlockHeader}
use rosetta_ergo.Ergo.Inputs.{InputCtx}
use rosetta_ergo.Indexer.Storage.{Storage}
use rosetta_ergo.Indexer.State.{Indexer}
use rosetta_ergo.Indexer.Waiting.{Others, returns}
use rosetta_ergo.Indexer.Fetching.{note_coin, find_coin_of, search}
use rosetta_ergo.Indexer.Fetching.Rounds.{RoundsKeep}
use rosetta_ergo.Indexer.Released.{IsReadable, Holds, After}
use rosetta_ergo.Indexer.Released.Rounds.{find_coin-FindAfter}

module _ (limit : ℕ) {DB : Type 0} where
  -- What the first loop leaves: a wait for each context that it left for later.
  abbrev pub SearchAfter : ℕ → Result (GoMap AccountCoin × List InputCtx) × Indexer DB → Type 0
  SearchAfter bound (ok (coin_map, remaining), i) =
      Holds limit remaining i × (length remaining ≤ bound)
  SearchAfter bound (err e, i) =
      (is_error e orphan_head ≡ false) × (left : List InputCtx) × Holds limit left i
  SearchAfter bound (panics, i) = ⊥
  SearchAfter bound (blocks, i) = ⊥

module _ (limit bound : ℕ) (room : bound + limit < max_int64) {DB : Type 0} (s : Storage DB)
    (genesis : BlockIdentifier) (hash : Option BlockIdentifier → String) (reads : IsReadable s)
    (b : FullBlock) (header : BlockHeader) (has_header : b.header ≡ some header) where
  search_noted :
      (coin_map : GoMap AccountCoin) (remaining : List InputCtx) (ctx : InputCtx)
      (coins : List InputCtx) (r : Result AccountCoin) (i : Indexer DB) (rounds : List (Others DB))
      → After limit remaining ctx (returns r, i)
      → ((coin_map' : GoMap AccountCoin) (remaining' : List InputCtx)
          → length remaining' ≤ suc (length remaining)
          → Holds limit remaining' i
          → SearchAfter limit {DB = DB} bound
              (search s genesis hash (some b) coin_map' remaining' coins rounds i))
      → SearchAfter limit {DB = DB} bound (elim (note_coin ctx coin_map remaining r) [
        | ok (coin_map', remaining') ↦
            search s genesis hash (some b) coin_map' remaining' coins rounds i
        | err e ↦ (err e, i)
        | panics ↦ (panics, i)
        | blocks ↦ (blocks, i)
      ])
  search_noted coin_map remaining ctx coins (ok coin) i rounds h next =
      next _ remaining (omega arith) h
  search_noted coin_map remaining ctx coins (err e) i rounds h next =
      elim (Bool-cases (is_error e missing_transaction)) [
        | inl missing ↦ rw missing (
            next coin_map (remaining ++ ctx ∷ [])
              (omega (arith, length-append remaining (ctx ∷ []))) (rw missing at h.1))
        | inr other ↦ rw other (h.0, remaining, rw other at h.1)
      ]
  search_noted coin_map remaining ctx coins panics i rounds h next = absurd h
  search_noted coin_map remaining ctx coins blocks i rounds h next = absurd h

  find_coin_of-FindAfter :
      (mine : List InputCtx) (ctx : InputCtx) (rounds : List (Others DB)) (i : Indexer DB)
      → length mine < bound
      → ((m : List InputCtx) → RoundsKeep (Holds limit m) rounds)
      → Holds limit mine i
      → let (r, i', rounds') = find_coin_of s genesis hash (some b) ctx rounds i in
        After limit mine ctx (returns r, i')
        × ((m : List InputCtx) → RoundsKeep (Holds limit m) rounds')
  unfolding find_coin_of
  find_coin_of-FindAfter mine ctx rounds i small keep h =
      rw has_header (
        find_coin-FindAfter limit s genesis hash reads header mine (omega arith) ctx rounds i keep
          h)

  pub search-SearchAfter :
      (coin_map : GoMap AccountCoin) (remaining coins : List InputCtx) (rounds : List (Others DB))
      (i : Indexer DB)
      → length remaining + length coins ≤ bound
      → ((m : List InputCtx) → RoundsKeep (Holds limit m) rounds)
      → Holds limit remaining i
      → SearchAfter limit {DB = DB} bound
          (search s genesis hash (some b) coin_map remaining coins rounds i)
  unfolding search
  search-SearchAfter coin_map remaining [] rounds i small keep h = (h, omega arith)
  search-SearchAfter coin_map remaining (ctx ∷ coins) rounds i small keep h =
      let step = find_coin_of s genesis hash (some b) ctx rounds i in
      let (found, keep') = find_coin_of-FindAfter remaining ctx rounds i (omega arith) keep h in
      search_noted coin_map remaining ctx coins step.0 step.1 step.2 found
        (λ coin_map' remaining' longer h'.
          search-SearchAfter coin_map' remaining' coins step.2 step.1 (omega arith) keep' h')
