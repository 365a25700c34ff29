-- ===== src/Services/Block/Inline.antt =====
-- What /block returns with its transactions.
use rosetta_ergo.Base.{
  ℕ, suc, List, [], ◌∷◌, Option, ok, length, ltb, Bool-cases, ◌≡◌, ◌<◌, ◌≤◌, refl, sym, inl, inr,
  arith,
}
use rosetta_ergo.Sdk.{BlockIdentifier, PartialBlockIdentifier, Transaction, TransactionIdentifier}
use rosetta_ergo.Errutil.{err_block_not_found, err_transaction_not_found}
use rosetta_ergo.Config.{Configuration, online}
use rosetta_ergo.Indexer.Storage.{Storage, BlockResponse}
use rosetta_ergo.Services.Response.{response, or_fail}
use rosetta_ergo.Services.Response.Announced.{
  >>=-eq-response, or_fail-eq-response, when_online-eq-response, response-eq,
}
use rosetta_ergo.Services.Block.{tx_fetch_limit, fetch_txs, with_transactions, block_endpoint}

-- The transactions are those that the storage has for the identifiers, in their order, each at the
-- next read.
abbrev pub AreStored :
    {DB : Type 0}
    → Storage DB
    → (ℕ → DB)
    → BlockIdentifier
    → List TransactionIdentifier
    → List Transaction
    → Type 0
AreStored s reads block [] [] = Unit
AreStored s reads block (id ∷ ids) (tx ∷ txs) =
    (s.get_block_transaction (reads 0) block id ≡ ok tx)
    × AreStored s (λ n. reads (suc n)) block ids txs
AreStored s reads block _ _ = ⊥

-- The answer for a block that the storage returned as `found`.
abbrev pub IsAnswer : {DB : Type 0} → Storage DB → (ℕ → DB) → BlockResponse → BlockResponse → Type 0
IsAnswer s reads found answer =
    (tx_fetch_limit < length found.other_transactions → answer ≡ found)
    × (length found.other_transactions ≤ tx_fetch_limit
        → (answer.other_transactions ≡ [])
          × (answer.block.block_identifier ≡ found.block.block_identifier)
          × (answer.block.parent_block_identifier ≡ found.block.parent_block_identifier)
          × (answer.block.timestamp ≡ found.block.timestamp)
          × AreStored s reads found.block.block_identifier found.other_transactions
              answer.block.transactions)

module _ {DB : Type 0} (s : Storage DB) (cfg : Configuration) where
  fetch_txs-AreStored :
      (reads : ℕ → DB) (block : BlockIdentifier) (others : List TransactionIdentifier)
      (txs : List Transaction)
      → fetch_txs s cfg reads block others ≡ response txs
      → AreStored s reads block others txs
  unfolding fetch_txs
  fetch_txs-AreStored reads block [] txs h = rw (sym (response-eq h)) tt
  fetch_txs-AreStored reads block (other ∷ others) txs h =
      let later : ℕ → DB = λ n. reads (suc n) in
      let (t, got, rest) =
        >>=-eq-response
          (or_fail err_transaction_not_found (s.get_block_transaction (reads 0) block other)) _ h in
      let (ts, gots, answer) = >>=-eq-response (fetch_txs s cfg later block others) _ rest in
      rw (sym (response-eq answer)) (
        or_fail-eq-response err_transaction_not_found _ got,
        fetch_txs-AreStored later block others ts gots,
      )

  with_transactions-IsAnswer :
      (reads : ℕ → DB) (found answer : BlockResponse)
      → with_transactions s cfg reads found ≡ response answer
      → IsAnswer s reads found answer
  unfolding with_transactions
  with_transactions-IsAnswer reads found answer h =
      elim (Bool-cases (ltb tx_fetch_limit (length found.other_transactions))) [
        | inl many ↦ (λ over. sym (response-eq (rw many at h)), λ within. ground arith)
        | inr few ↦
            let (txs, got, built) =
              >>=-eq-response
                (fetch_txs s cfg reads found.block.block_identifier found.other_transactions) _
                (rw few at h) in
            (
              λ over. ground arith,
              λ within.
                  rw (sym (response-eq built))
                    (refl, refl, refl, refl, fetch_txs-AreStored reads _ _ txs got),
            )
      ]

  -- /block answers only online, for the block that the storage found: if it has more than 100 other
  -- transactions the answer is as found, and else it has no others but, in their order, the
  -- transactions that the storage has for them, each at the next read of the database, and the block
  -- is otherwise as found.
  pub block_endpoint-IsAnswer :
      (reads : ℕ → DB) (id : Option PartialBlockIdentifier) (answer : BlockResponse)
      → block_endpoint s cfg reads id ≡ response answer
      → (cfg.mode ≡ online)
        × (found : BlockResponse) × (s.get_block_lazy (reads 0) id ≡ ok found)
        × IsAnswer s (λ n. reads (suc n)) found answer
  unfolding block_endpoint
  block_endpoint-IsAnswer reads id answer h =
      let (on, h') = when_online-eq-response cfg _ h in
      let (found, got, rest) =
        >>=-eq-response (or_fail err_block_not_found (s.get_block_lazy (reads 0) id)) _ h' in
      (
        on,
        found,
        or_fail-eq-response err_block_not_found _ got,
        with_transactions-IsAnswer (λ n. reads (suc n)) found answer rest,
      )
