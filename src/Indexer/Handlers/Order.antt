-- ===== src/Indexer/Handlers/Order.antt =====
-- `BlockSeen` of two blocks in either order; the syncer calls it on several goroutines.
use rosetta_ergo.Base.{
  ℤ, String, Bool, true, false, ◌≡◌, ◌∙◌, sym, ap, refl, Option, [], Result, ok, inc64, contains,
  if◌then◌else◌, Bool-cases, inl, inr,
}
use rosetta_ergo.Base.Exec.{◌>>◌}
use rosetta_ergo.Base.GoMap.{get, map_found}
use rosetta_ergo.Sdk.{Block, AccountCoin}
use rosetta_ergo.Indexer.Storage.{Storage}
use rosetta_ergo.Indexer.WaitTable.{WaitTableEntry}
use rosetta_ergo.Indexer.State.{Indexer}
use rosetta_ergo.Indexer.Handlers.{block_seen, cache_txs}
use rosetta_ergo.Indexer.Handlers.Signals.{signalled, hashes}
use rosetta_ergo.Indexer.Handlers.Cache.{created_in}
use rosetta_ergo.Indexer.Handlers.Seen.{IsQuiet, HasSeen, block_seen-HasSeen}

-- The indexer without its database, and without the order of its maps.
pub record View : Type 0 where
  pub cached : String → Option AccountCoin
  pub waits : String → Option WaitTableEntry
  pub locked : Bool
  pub seen : ℤ

unfoldable pub view : {DB : Type 0} → Indexer DB → View
view i = record {
  cached = λ k. get k i.coin_cache;
  waits = λ k. get k i.waiter.table;
  locked = i.waiter.locked;
  seen = i.seen;
}

-- A coin that both blocks create, as two blocks of a fork with one transaction do, is the same.
abbrev pub AreCompatible : Block → Block → Type 0
AreCompatible b c =
    (k : String)
    → created_in k b.transactions ≡ true
    → created_in k c.transactions ≡ true
    → get k (cache_txs b.transactions []) ≡ get k (cache_txs c.transactions [])

-- What a seen block does to a wait, `p` being whether the block holds the transaction.
abbrev signal_if : Bool → Option WaitTableEntry → Option WaitTableEntry
signal_if p e = if p then map_found signalled e else e

signal_if_comm :
    (p q : Bool) (e : Option WaitTableEntry)
    → signal_if p (signal_if q e) ≡ signal_if q (signal_if p e)
signal_if_comm true true e = refl
signal_if_comm true false e = refl
signal_if_comm false true e = refl
signal_if_comm false false e = refl

module _ {DB : Type 0} {b c : Block} {i i₁ i₂ j₁ j₂ : Indexer DB} where
  cached_comm :
      AreCompatible b c
      → HasSeen b i i₁
      → HasSeen c i₁ i₂
      → HasSeen c i j₁
      → HasSeen b j₁ j₂
      → (k : String) → get k i₂.coin_cache ≡ get k j₂.coin_cache
  cached_comm same b₁ c₂ c₁ b₂ k = elim (Bool-cases (created_in k b.transactions)) [
    | inl by_b ↦ elim (Bool-cases (created_in k c.transactions)) [
      | inl by_c ↦ c₂.fixed k by_c ∙ sym (same k by_b by_c) ∙ sym (b₂.fixed k by_b)
      | inr not_c ↦ c₂.kept k not_c ∙ b₁.fixed k by_b ∙ sym (b₂.fixed k by_b)
    ]
    | inr not_b ↦ elim (Bool-cases (created_in k c.transactions)) [
      | inl by_c ↦ c₂.fixed k by_c ∙ sym (b₂.kept k not_b ∙ c₁.fixed k by_c)
      | inr not_c ↦ c₂.kept k not_c ∙ b₁.kept k not_b ∙ sym (b₂.kept k not_b ∙ c₁.kept k not_c)
    ]
  ]

  waits_comm :
      HasSeen b i i₁
      → HasSeen c i₁ i₂
      → HasSeen c i j₁
      → HasSeen b j₁ j₂
      → (k : String) → get k i₂.waiter.table ≡ get k j₂.waiter.table
  waits_comm b₁ c₂ c₁ b₂ k =
      let in_b = contains (hashes b.transactions) k in
      let in_c = contains (hashes c.transactions) k in
      c₂.entries k
      ∙ ap (signal_if in_c) (b₁.entries k)
      ∙ signal_if_comm in_c in_b (get k i.waiter.table)
      ∙ sym (b₂.entries k ∙ ap (signal_if in_b) (c₁.entries k))

  HasSeen-view :
      AreCompatible b c
      → HasSeen b i i₁
      → HasSeen c i₁ i₂
      → HasSeen c i j₁
      → HasSeen b j₁ j₂
      → view i₂ ≡ view j₂
  unfolding view
  HasSeen-view same b₁ c₂ c₁ b₂ = λ t. record {
    cached = λ k. cached_comm same b₁ c₂ c₁ b₂ k t;
    waits = λ k. waits_comm b₁ c₂ c₁ b₂ k t;
    locked = (c₂.quiet.free ∙ sym b₂.quiet.free) t;
    seen = (c₂.counted ∙ ap inc64 b₁.counted ∙ sym (b₂.counted ∙ ap inc64 c₁.counted)) t;
  }

module _ {DB : Type 0} (s : Storage DB) (negate_value : String → Result String) where
  -- Two blocks that the storage accepts in both orders are seen in either order without a panic or
  -- a deadlock, from a table whose lock is free and whose closed flags are right, where a coin that
  -- both create is the same coin in both, as it is in two blocks of a fork that hold one
  -- transaction. Both orders leave the same cached coin under every key, the same wait under every
  -- transaction, a free lock and the same count `seen`; each database is what the storage left.
  pub block_seen_comm :
      (b c : Block) (i : Indexer DB) (d₁ d₂ e₁ e₂ : DB)
      → IsQuiet i
      → s.see_block b i.db ≡ (ok tt, d₁)
      → s.see_block c d₁ ≡ (ok tt, d₂)
      → s.see_block c i.db ≡ (ok tt, e₁)
      → s.see_block b e₁ ≡ (ok tt, e₂)
      → AreCompatible b c
      → (i' j' : Indexer DB) × ((block_seen s negate_value (ok tt) b
              >> block_seen s negate_value (ok tt) c)
            i
          ≡ (ok tt, i'))
        × ((block_seen s negate_value (ok tt) c >> block_seen s negate_value (ok tt) b) i
            ≡ (ok tt, j'))
        × (i'.db ≡ d₂)
        × (j'.db ≡ e₂)
        × (view i' ≡ view j')
  block_seen_comm b c i d₁ d₂ e₁ e₂ q see_b then_c see_c then_b same =
      let (i₁, run_b, db_b, b₁) = block_seen-HasSeen s negate_value b i d₁ q see_b in
      let (i₂, run_bc, db_bc, c₂) =
        block_seen-HasSeen s negate_value c i₁ d₂ b₁.quiet (rw db_b then_c) in
      let (j₁, run_c, db_c, c₁) = block_seen-HasSeen s negate_value c i e₁ q see_c in
      let (j₂, run_cb, db_cb, b₂) =
        block_seen-HasSeen s negate_value b j₁ e₂ c₁.quiet (rw db_c then_b) in
      (i₂, j₂, rw run_b run_bc, rw run_c run_cb, db_bc, db_cb, HasSeen-view same b₁ c₂ c₁ b₂)
