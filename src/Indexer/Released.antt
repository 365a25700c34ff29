-- ===== src/Indexer/Released.antt =====
-- The waits that one call of `findCoins` of pkg/indexer/indexer.go has joined and not left, beside
-- those of the other goroutines.
pub mod Rounds
pub mod Entries
pub mod Found
pub mod Others
pub mod Tests
use rosetta_ergo.Base.{
  ℕ, suc, ◌+◌, ◌-◌, ◌<◌, ◌≤◌, String, true, false, List, [], ◌∷◌, ◌++◌, ◌≡◌, refl, ok, err, panics,
  blocks, arith, length, Answers, Err, is_error, missing_transaction, orphan_head, Bool-cases, inl,
  inr, ◌==◌, if◌then◌else◌,
}
use rosetta_ergo.Ergo.Inputs.{InputCtx}
use rosetta_ergo.Indexer.Storage.{Storage}
use rosetta_ergo.Indexer.WaitTable.{WaitTable}
use rosetta_ergo.Indexer.State.{Indexer}
use rosetta_ergo.Indexer.Waiting.{Round, again, returns}
use rosetta_ergo.Indexer.Waiting.Rounds.{IsFine}
use rosetta_ergo.Indexer.Listeners.{Waits, World, after_look, one_more, one_less}
use rosetta_ergo.Indexer.Listeners.Counts.{IsCounted}

-- An error of the indexer that the storage's reads do not return.
abbrev pub IsForeign : Err → Type 0
IsForeign e = (is_error e missing_transaction ≡ false) × (is_error e orphan_head ≡ false)

-- The storage's reads return, and never with the indexer's own errors.
pub record IsReadable {DB : Type 0} (s : Storage DB) : Type 0 where
  pub heads : (db : DB) → Answers (s.get_head_block_identifier db)
  pub coins : (db : DB) (id : String) → Answers (s.get_coin db id)
  pub foreign_head : (db : DB) (e : Err) → s.get_head_block_identifier db ≡ err e → IsForeign e
  pub foreign_coin : (db : DB) (id : String) (e : Err) → s.get_coin db id ≡ err e → IsForeign e

abbrev pub count : String → List InputCtx → ℕ
count k [] = 0
count k (c ∷ cs) = if c.tx_id == k then suc (count k cs) else count k cs

pub count-length : (k : String) (cs : List InputCtx) → count k cs ≤ length cs
count-length k [] = omega arith
count-length k (c ∷ cs) = ground (arith, count-length k cs)

count-snoc :
    (k : String) (c : InputCtx) (cs : List InputCtx)
    → count k (cs ++ c ∷ []) ≡ (if c.tx_id == k then suc (count k cs) else count k cs)
count-snoc k c [] = refl
count-snoc k c (d ∷ cs) = ground (arith, count-snoc k c cs)

-- Only the storage, which does not, or the check of the header finds an orphan.
abbrev pub FindsNoOrphan : Round → Type 0
FindsNoOrphan again = Unit
FindsNoOrphan (returns (ok coin)) = Unit
FindsNoOrphan (returns (err e)) = is_error e orphan_head ≡ false
FindsNoOrphan (returns panics) = Unit
FindsNoOrphan (returns blocks) = Unit

-- The waits for the contexts of `mine` are outstanding, and for each transaction at most `limit`
-- others. The lock is free, and the counters of the table are right.
pub record Holds (limit : ℕ) (mine : List InputCtx) {DB : Type 0} (i : Indexer DB) : Type 0 where
  pub waits : Waits
  pub theirs : Waits
  pub is_counted : IsCounted (record { indexer = i; waits = waits })
  pub sum : (k : String) → waits k ≡ count k mine + theirs k
  pub few : (k : String) → theirs k ≤ limit

module _ (limit : ℕ) {DB : Type 0} where
  -- What a round, or the whole of `findCoin`, leaves: the wait for its context was joined if the
  -- error says so.
  abbrev pub After : List InputCtx → InputCtx → Round × Indexer DB → Type 0
  After mine ctx (again, i) = Holds limit mine i
  After mine ctx (returns (ok coin), i) = Holds limit mine i
  After mine ctx (returns (err e), i) =
      (is_error e orphan_head ≡ false)
      × Holds limit (if is_error e missing_transaction then mine ++ ctx ∷ [] else mine) i
  After mine ctx (returns panics, i) = ⊥
  After mine ctx (returns blocks, i) = ⊥

  pub same_Holds :
      (mine : List InputCtx) (i : Indexer DB) (h : Holds limit mine i) (i' : Indexer DB)
      → IsCounted (record { indexer = i'; waits = h.waits })
      → Holds limit mine i'
  same_Holds mine i h i' c = record {
    waits = h.waits;
    theirs = h.theirs;
    is_counted = c;
    sum = h.sum;
    few = h.few;
  }

  pub Holds-After :
      (mine : List InputCtx) (ctx : InputCtx) (i : Indexer DB) (h : Holds limit mine i)
      (x : Round × Indexer DB)
      → IsFine x
      → FindsNoOrphan x.0
      → IsCounted (after_look (record { indexer = i; waits = h.waits }) ctx.tx_id x)
      → After mine ctx x
  Holds-After mine ctx i h (again, i') fine no_orphan c = same_Holds mine i h i' c
  Holds-After mine ctx i h (returns (ok coin), i') fine no_orphan c = same_Holds mine i h i' c
  Holds-After mine ctx i h (returns (err e), i') fine no_orphan c =
      elim (Bool-cases (is_error e missing_transaction)) [
        | inl joins ↦ rw joins (
          no_orphan,
          record {
            waits = one_more ctx.tx_id h.waits;
            theirs = h.theirs;
            is_counted = rw joins at c;
            sum = λ k. ground (arith, h.sum k, count-snoc k ctx mine);
            few = h.few;
          },
        )
        | inr fails ↦ rw fails (no_orphan, same_Holds mine i h i' (rw fails at c))
      ]
  Holds-After mine ctx i h (returns panics, i') fine no_orphan c = fine
  Holds-After mine ctx i h (returns blocks, i') fine no_orphan c = fine

  pub Holds-left :
      (mine : List InputCtx) (ctx : InputCtx) (i : Indexer DB) (h : Holds limit (ctx ∷ mine) i)
      (t : WaitTable)
      → IsCounted (record { indexer = record i { waiter = t }; waits = one_less ctx.tx_id h.waits })
      → Holds limit mine (record i { waiter = t })
  Holds-left mine ctx i h t c = record {
    waits = one_less ctx.tx_id h.waits;
    theirs = h.theirs;
    is_counted = c;
    sum = λ k. ground (arith, h.sum k);
    few = h.few;
  }
