-- ===== src/Indexer/Released/Tests.antt =====
-- A search for two coins: one is stored, and for the other the call waits until another goroutine
-- sees the block that creates it.
use rosetta_ergo.Base.{
  ℕ, pos, String, false, some, none, List, [], ◌∷◌, Option, Result, ok, err, panics, blocks, Err,
  ◌≡◌, refl, arith, Bool-cases, inl, inr, sentinel, coin_not_found, ◌==◌, length,
}
use rosetta_ergo.Base.GoMap.{GoMap, get, put, delete, map_found}
use rosetta_ergo.Sdk.{Block, AccountCoin}
use rosetta_ergo.Ergo.Inputs.{InputCtx}
use rosetta_ergo.Ergo.Types.{FullBlock}
use rosetta_ergo.Indexer.State.{Indexer, init_indexer}
use rosetta_ergo.Indexer.Negative.{ensure_negative_value_inputs}
use rosetta_ergo.Indexer.Handlers.{block_seen, block_added}
use rosetta_ergo.Indexer.Waiting.{Others, check_header_match}
use rosetta_ergo.Indexer.Fetching.{Attempt, find_coins}
use rosetta_ergo.Indexer.Fetching.Rounds.{Keeps}
use rosetta_ergo.Indexer.Fetching.Found.{AttemptsKeep}
use rosetta_ergo.Indexer.Listeners.{no_waits}
use rosetta_ergo.Indexer.Released.{IsReadable, IsForeign, Holds}
use rosetta_ergo.Indexer.Released.Others.{block_seen-Keeps, block_added-Keeps}
use rosetta_ergo.Indexer.Released.Found.{IsReleased, find_coins-IsReleased}
use rosetta_ergo.Samples.{storage, head, hash_of, header, negate, block, operation}

abbrev full : FullBlock
full = record {
  header = some (header "h3" "h2" (pos 3));
  block_transactions = none;
  ad_proofs = none;
  extension = none;
  size = pos 9;
}

abbrev contexts : List InputCtx
contexts = record { tx_id = "t1"; input_id = "b0" } ∷ record { tx_id = "t8"; input_id = "b8" } ∷ []

abbrev parent : Block
parent = record block {
  transactions =
      record {
        transaction_identifier = record { hash = "t8" };
        operations = operation "b8" (pos 0) ∷ [];
      }
      ∷ [];
}

abbrev sees : Indexer ℕ → Indexer ℕ
sees i = (block_seen storage negate (ok tt) parent i).1

abbrev adds : Indexer ℕ → Indexer ℕ
adds i = (block_added storage negate block i).1

abbrev nobody : Others ℕ
nobody = record { before = λ i. i; during = λ i. i; locking = λ i. i }

abbrev attempts : List (Attempt ℕ)
attempts =
    record {
      rounds = record { before = adds; during = λ i. i; locking = λ i. i } ∷ nobody ∷ [];
      wakes = record { others = sees; cancelled = false } ∷ [];
    }
    ∷ record { rounds = nobody ∷ []; wakes = [] }
    ∷ []

stored_error : (db : ℕ) (id : String) (e : Err) → storage.get_coin db id ≡ err e → IsForeign e
stored_error db id e h = elim (Bool-cases (id == "b0")) [
  | inl stored ↦ cc (rw stored at h)
  | inr missing ↦
      let is_missing : err (sentinel coin_not_found) ≡ err e = rw missing at h in
      let same : sentinel coin_not_found ≡ e = cc is_missing in rw (← same) (refl, refl)
]

readable : IsReadable storage
readable = record {
  heads = λ db. tt;
  coins = λ db id. ground arith;
  foreign_head = λ db e h. cc;
  foreign_coin = stored_error;
}

passes : ensure_negative_value_inputs negate block ≡ (ok tt, block)
unfolding ensure_negative_value_inputs
passes = refl

keep : (mine : List InputCtx) → AttemptsKeep (Holds 3 mine) attempts
keep mine =
    let alone : Keeps (Holds 3 mine) (λ (i : Indexer ℕ). i) = λ i h. h in
    let added : Keeps (Holds 3 mine) adds =
      block_added-Keeps 3 storage negate head hash_of readable mine block block passes
        (λ db. (_, refl)) in
    (
      (
        ((added, alone, alone), ((alone, alone, alone), tt)),
        (block_seen-Keeps 3 storage negate head hash_of readable mine parent (λ db. (_, refl)), tt),
      ),
      ((((alone, alone, alone), tt), tt), tt),
    )

no_waits-Holds : Holds 3 [] {DB = ℕ} (init_indexer 0)
no_waits-Holds = record {
  waits = no_waits;
  theirs = no_waits;
  is_counted = record {
    quiet = record { free = refl; sound = tt };
    counted = λ k. unfold get in refl;
  };
  sum = λ k. omega arith;
  few = λ k. omega arith;
}

abbrev coins_of : Result (GoMap AccountCoin) → Option (GoMap AccountCoin)
coins_of (ok coins) = some coins
coins_of (err e) = none
coins_of panics = none
coins_of blocks = none

find_coins-IsReleased_example :
    IsReleased 3 {DB = ℕ}
      (find_coins storage head hash_of (some full) attempts contexts (init_indexer 0))
find_coins-IsReleased_example =
    find_coins-IsReleased 3 2 (omega arith) storage head hash_of readable full
      (header "h3" "h2" (pos 3)) refl attempts contexts (init_indexer 0) (omega arith) keep
      no_waits-Holds

-- Both coins are found, and no wait is left behind.
both_found :
    map_found length
      (coins_of (find_coins storage head hash_of (some full) attempts contexts (init_indexer 0)).0)
    ≡ some 2
unfolding find_coins get put delete check_header_match block_added ensure_negative_value_inputs
    block_seen
both_found = refl
