-- ===== src/Indexer/Handlers/Awaited.antt =====
-- `BlockSeen` of a block that creates a coin which `findCoins` of a later block waits for: the waits
-- stand under the ids that `GetInputsForTxs` gives.
use mathlib.Core.Path.{subst}
use rosetta_ergo.Base.{
  String, true, ◌≡◌, ◌∙◌, sym, Result, ok, some, List, ◌∷◌, contains, contains→Among, Bool-cases,
  inl, inr, refl, Among, Among-append_right,
}
use rosetta_ergo.Base.GoMap.{get}
use rosetta_ergo.Sdk.{Block, AccountCoin}
use rosetta_ergo.Ergo.Types.{ErgoTransaction}
use rosetta_ergo.Ergo.Inputs.{InputCtx, get_inputs_for_txs}
use rosetta_ergo.Ergo.Inputs.Exact.{Boxes, AllHaveBoxes, IsFetched, get_inputs_for_txs_exact}
use rosetta_ergo.Indexer.Storage.{Storage}
use rosetta_ergo.Indexer.WaitTable.{WaitTableEntry}
use rosetta_ergo.Indexer.State.{Indexer}
use rosetta_ergo.Indexer.Handlers.{block_seen, cached_coin}
use rosetta_ergo.Indexer.Handlers.Signals.{hashes}
use rosetta_ergo.Indexer.Handlers.Cache.{created_in}
use rosetta_ergo.Indexer.Handlers.Seen.{IsQuiet, block_seen-HasSeen}

-- No transaction of the Ergo block has the hash of one of the other block.
abbrev pub AreOthers : Block → List Boxes → Type 0
AreOthers b bs = (x : Boxes) → Among x bs → ¬ Among x.id (hashes b.transactions)

fetched-other :
    (b : Block) (bs : List Boxes) (ctx : InputCtx)
    → AreOthers b bs
    → IsFetched ctx bs
    → ¬ Among ctx.tx_id (hashes b.transactions)
fetched-other b bs ctx others (before, x, after, parts, is, _, _) there =
    others x (subst (Among x) (sym parts) (Among-append_right x before (x ∷ after) (inl refl)))
      (subst (λ h. Among h (hashes b.transactions)) is there)

module _ {DB : Type 0} (s : Storage DB) (negate_value : String → Result String) where
  -- A block is fetched, and one of the coins that `GetInputsForTxs` asks for is waited for. Another
  -- block that shares no transaction with it, and that the storage accepts, creates the coin. After
  -- that block is seen the coin is in the cache, but the entry of the wait is as it was, its channel
  -- not closed by this. The pointers of the fetched transactions must be set, and the lock of the
  -- wait table free and its closed flags right.
  pub block_seen_keeps_waiting :
      (b : Block) (i : Indexer DB) (db' : DB) (txs : List ErgoTransaction) (bs : List Boxes)
      (inputs : List InputCtx) (ctx : InputCtx) (v : WaitTableEntry)
      → IsQuiet i
      → s.see_block b i.db ≡ (ok tt, db')
      → AllHaveBoxes txs bs
      → get_inputs_for_txs (some txs) ≡ ok inputs
      → Among ctx inputs
      → AreOthers b bs
      → created_in ctx.input_id b.transactions ≡ true
      → get ctx.tx_id i.waiter.table ≡ some v
      → (i' : Indexer DB) × (block_seen s negate_value (ok tt) b i ≡ (ok tt, i'))
        × (a : AccountCoin) × (get ctx.input_id i'.coin_cache ≡ some a)
        × (get ctx.tx_id i'.waiter.table ≡ some v)
  block_seen_keeps_waiting b i db' txs bs inputs ctx v q stored boxes asked among others creates
        waits =
      let (coins, exactly, fetched) = get_inputs_for_txs_exact txs bs boxes in
      let same : inputs ≡ coins = cc (asked, exactly) in
      let absent : ¬ Among ctx.tx_id (hashes b.transactions) =
        fetched-other b bs ctx others ((fetched ctx).0 (subst (Among ctx) same among)) in
      let (i', run, _, seen) = block_seen-HasSeen s negate_value b i db' q stored in
      let (op, _, (change, _, _, _, cached)) = seen.cached ctx.input_id creates in
      (
        i',
        run,
        cached_coin op change,
        cached,
        elim (Bool-cases (contains (hashes b.transactions) ctx.tx_id)) [
          | inl there ↦ absurd (absent (contains→Among _ ctx.tx_id there))
          | inr gone ↦ seen.entries ctx.tx_id ∙ rw gone waits
        ],
      )
