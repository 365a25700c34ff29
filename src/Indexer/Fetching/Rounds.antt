-- ===== src/Indexer/Fetching/Rounds.antt =====
-- An invariant that does not read the wait table, through `findCoin`.
use rosetta_ergo.Base.{
  ℤ, String, Bool, true, false, not, ◌||◌, Option, none, some, List, [], ◌∷◌, ◌≡◌, refl, Result, ok,
  err, panics, blocks, sentinel, missing_transaction, head_block_not_found, coin_not_found,
  is_error, All, eq_ℤ, ◌==◌, Bool-cases, Option-cases, inl, inr, if◌then◌else◌,
}
use rosetta_ergo.Base.GoMap.{get}
use rosetta_ergo.Sdk.{AccountCoin, AccountIdentifier, BlockIdentifier, Coin}
use rosetta_ergo.Ergo.Types.{BlockHeader}
use rosetta_ergo.Ergo.Inputs.{InputCtx}
use rosetta_ergo.Indexer.Storage.{Storage}
use rosetta_ergo.Indexer.WaitTable.{WaitTable, lock, unlock}
use rosetta_ergo.Indexer.State.{Indexer}
use rosetta_ergo.Indexer.Waiting.{
  Others, Round, again, returns, register_wait, unlock_then, wait_or_retry, lock_and_decide,
  look_in_cache, look_in_storage, is_genesis, find_coin_round, find_coin,
}

-- A step that keeps what holds of the indexer.
abbrev pub Keeps : {DB : Type 0} → (Indexer DB → Type 0) → (Indexer DB → Indexer DB) → Type 0
Keeps {DB} I f = (i : Indexer DB) → I i → I (f i)

abbrev pub RoundsKeep : {DB : Type 0} → (Indexer DB → Type 0) → List (Others DB) → Type 0
RoundsKeep {DB} I = All (λ (o : Others DB). Keeps I o.before × Keeps I o.during × Keeps I o.locking)

-- A result that fits if it is one, and a state of which `I` holds in any case.
abbrev pub Leaves :
    {DB A : Type 0} → (Indexer DB → Type 0) → (A → Type 0) → Result A → Indexer DB → Type 0
Leaves I Q (ok a) i = Q a × I i
Leaves I Q (err e) i = I i
Leaves I Q panics i = I i
Leaves I Q blocks i = I i

abbrev pub RoundLeaves :
    {DB : Type 0} → (Indexer DB → Type 0) → (AccountCoin → Type 0) → Round × Indexer DB → Type 0
RoundLeaves I Q (again, i) = I i
RoundLeaves I Q (returns r, i) = Leaves I Q r i

module _ {DB : Type 0} (s : Storage DB) (genesis : BlockIdentifier)
    (hash : Option BlockIdentifier → String) (I : Indexer DB → Type 0)
    (frame : (i : Indexer DB) (t : WaitTable) → I i → I (record i { waiter = t }))
    (P : String → AccountCoin → Type 0)
    (stored : (db : DB) (id : String) (coin : Coin) (owner : AccountIdentifier)
      → s.get_coin db id ≡ ok (coin, owner)
      → P id (record { account = some owner; coin = coin }))
    (cached : (i : Indexer DB) (id : String) (a : AccountCoin)
      → I i
      → get id i.coin_cache ≡ some a
      → P id a) where
  after_unlock :
      (Q : AccountCoin → Type 0) (r : Round) (i : Indexer DB) (x : Result WaitTable)
      → ((i' : Indexer DB) → I i' → RoundLeaves I Q (r, i'))
      → I i
      → RoundLeaves I Q (elim x [
        | ok t ↦ (r, record i { waiter = t })
        | err e ↦ (returns (err e), i)
        | panics ↦ (returns panics, i)
        | blocks ↦ (returns blocks, i)
      ])
  after_unlock Q r i (ok t) k h = k _ (frame i t h)
  after_unlock Q r i (err e) k h = h
  after_unlock Q r i panics k h = h
  after_unlock Q r i blocks k h = h

  unlock_then-RoundLeaves :
      (Q : AccountCoin → Type 0) (r : Round) (i : Indexer DB)
      → ((i' : Indexer DB) → I i' → RoundLeaves I Q (r, i'))
      → I i
      → RoundLeaves I Q (unlock_then s genesis hash r i)
  unlock_then-RoundLeaves Q r i k h = after_unlock Q r i (unlock i.waiter) k h

  -- Under the lock: nothing is found.
  decide :
      (Q : AccountCoin → Type 0) (header : BlockHeader) (ctx : InputCtx) (changed : Bool)
      (i : Indexer DB)
      → I i
      → RoundLeaves I Q (
          if changed
          then unlock_then s genesis hash again i
          else elim (register_wait ctx.tx_id header.height i.waiter) [
            | ok t ↦
                unlock_then s genesis hash
                  (returns (err (sentinel missing_transaction)))
                  (record i { waiter = t })
            | err e ↦ (returns (err e), i)
            | panics ↦ (returns panics, i)
            | blocks ↦ (returns blocks, i)
          ])
  unfolding register_wait
  decide Q header ctx true i h = unlock_then-RoundLeaves Q again i (λ j k. k) h
  decide Q header ctx false i h =
      unlock_then-RoundLeaves Q (returns (err (sentinel missing_transaction))) _ (λ j k. k)
        (frame i _ h)

  wait_or_retry-RoundLeaves :
      (Q : AccountCoin → Type 0) (header : BlockHeader) (ctx : InputCtx) (start_seen : ℤ)
      (coin_head : Option BlockIdentifier) (i : Indexer DB) (r : Result BlockIdentifier)
      → s.get_head_block_identifier i.db ≡ r
      → I i
      → RoundLeaves I Q (wait_or_retry s genesis hash header ctx start_seen coin_head i)
  unfolding wait_or_retry
  wait_or_retry-RoundLeaves Q header ctx start_seen coin_head i (ok head) e h =
      rw (e, wait_or_retry)
        (decide Q header ctx
          (not (hash (some head) == hash coin_head) || not (eq_ℤ i.seen start_seen)) i h)
  wait_or_retry-RoundLeaves Q header ctx start_seen coin_head i (err x) e h =
      rw (e, wait_or_retry) (unlock_then-RoundLeaves Q _ i (λ j k. k) h)
  wait_or_retry-RoundLeaves Q header ctx start_seen coin_head i panics e h = rw (e, wait_or_retry) h
  wait_or_retry-RoundLeaves Q header ctx start_seen coin_head i blocks e h = rw (e, wait_or_retry) h

  lock_and_decide-RoundLeaves :
      (Q : AccountCoin → Type 0) (header : BlockHeader) (ctx : InputCtx) (start_seen : ℤ)
      (coin_head : Option BlockIdentifier) (i : Indexer DB)
      → I i
      → RoundLeaves I Q (lock_and_decide s genesis hash header ctx start_seen coin_head i)
  unfolding lock_and_decide lock
  lock_and_decide-RoundLeaves Q header ctx start_seen coin_head i h =
      elim (Bool-cases i.waiter.locked) [
        | inl held ↦ rw (held, lock_and_decide) h
        | inr free ↦
            rw (free, lock_and_decide)
              (wait_or_retry-RoundLeaves Q header ctx start_seen coin_head
                (record i { waiter = record i.waiter { locked = true } }) _ refl (frame i _ h))
      ]

  look_in_cache-RoundLeaves :
      (header : BlockHeader) (ctx : InputCtx) (locking : Indexer DB → Indexer DB) (start_seen : ℤ)
      (coin_head : Option BlockIdentifier) (i : Indexer DB)
      → Keeps I locking
      → I i
      → RoundLeaves I
          (P ctx.input_id)
          (look_in_cache s genesis hash header ctx locking start_seen coin_head i)
  unfolding look_in_cache
  look_in_cache-RoundLeaves header ctx locking start_seen coin_head i keep h =
      elim (Option-cases (get ctx.input_id i.coin_cache)) [
        | inr (coin, hit) ↦ rw (hit, look_in_cache) (cached i ctx.input_id coin h hit, h)
        | inl missing ↦
            rw (missing, look_in_cache)
              (lock_and_decide-RoundLeaves (P ctx.input_id) header ctx start_seen coin_head
                (locking i) (keep i h))
      ]

  look_in_storage-RoundLeaves :
      (header : BlockHeader) (ctx : InputCtx) (during locking : Indexer DB → Indexer DB)
      (coin_head : Option BlockIdentifier) (i : Indexer DB) (r : Result (Coin × AccountIdentifier))
      → s.get_coin i.db ctx.input_id ≡ r
      → Keeps I during
      → Keeps I locking
      → I i
      → RoundLeaves I
          (P ctx.input_id)
          (look_in_storage s genesis hash header ctx during locking coin_head i)
  unfolding look_in_storage
  look_in_storage-RoundLeaves header ctx during locking coin_head i (ok (coin, owner)) e keep keep'
        h =
      rw (e, look_in_storage) (stored i.db ctx.input_id coin owner e, h)
  look_in_storage-RoundLeaves header ctx during locking coin_head i (err x) e keep keep' h =
      elim (Bool-cases (is_error x coin_not_found)) [
        | inl missing ↦
            rw (e, look_in_storage)
              (rw missing (
                look_in_cache-RoundLeaves header ctx locking i.seen coin_head (during i) keep'
                  (keep i h)))
        | inr other ↦ rw (e, look_in_storage) (rw other h)
      ]
  look_in_storage-RoundLeaves header ctx during locking coin_head i panics e keep keep' h =
      rw (e, look_in_storage) h
  look_in_storage-RoundLeaves header ctx during locking coin_head i blocks e keep keep' h =
      rw (e, look_in_storage) h

  find_coin_round-RoundLeaves :
      (header : BlockHeader) (ctx : InputCtx) (during locking : Indexer DB → Indexer DB)
      (i : Indexer DB) (r : Result BlockIdentifier)
      → s.get_head_block_identifier i.db ≡ r
      → Keeps I during
      → Keeps I locking
      → I i
      → RoundLeaves I (P ctx.input_id) (find_coin_round s genesis hash header ctx during locking i)
  unfolding find_coin_round
  find_coin_round-RoundLeaves header ctx during locking i (ok head) e keep keep' h =
      rw (e, find_coin_round)
        (look_in_storage-RoundLeaves header ctx during locking (some head) i _ refl keep keep' h)
  find_coin_round-RoundLeaves header ctx during locking i (err x) e keep keep' h =
      elim (Bool-cases (is_genesis s genesis hash header)) [
        | inl first ↦
            rw (e, find_coin_round)
              (rw first
                (look_in_storage-RoundLeaves header ctx during locking none i _ refl keep keep' h))
        | inr later ↦ elim (Bool-cases (is_error x head_block_not_found)) [
          | inl no_head ↦ rw (e, find_coin_round) (rw (later, no_head) h)
          | inr other ↦ rw (e, find_coin_round) (rw (later, other) h)
        ]
      ]
  find_coin_round-RoundLeaves header ctx during locking i panics e keep keep' h =
      rw (e, find_coin_round) h
  find_coin_round-RoundLeaves header ctx during locking i blocks e keep keep' h =
      rw (e, find_coin_round) h

  abbrev pub FindLeaves : InputCtx → Result AccountCoin × Indexer DB × List (Others DB) → Type 0
  FindLeaves ctx (r, i, rounds) = Leaves I (P ctx.input_id) r i × RoundsKeep I rounds

  after_round :
      (header : BlockHeader) (ctx : InputCtx) (rounds : List (Others DB)) (r : Round)
      (i : Indexer DB)
      → ((i' : Indexer DB) → I i' → FindLeaves ctx (find_coin s genesis hash header ctx rounds i'))
      → RoundsKeep I rounds
      → RoundLeaves I (P ctx.input_id) (r, i)
      → FindLeaves ctx (elim r [
        | again ↦ find_coin s genesis hash header ctx rounds i
        | returns x ↦ (x, i, rounds)
      ])
  after_round header ctx rounds again i next keep h = next i h
  after_round header ctx rounds (returns x) i next keep h = (h, keep)

  -- What `find_coin` returns fits, and the invariant holds whatever it returns.
  pub find_coin-FindLeaves :
      (header : BlockHeader) (ctx : InputCtx) (rounds : List (Others DB)) (i : Indexer DB)
      → RoundsKeep I rounds
      → I i
      → FindLeaves ctx (find_coin s genesis hash header ctx rounds i)
  unfolding find_coin
  find_coin-FindLeaves header ctx [] i keep h = (h, tt)
  find_coin-FindLeaves header ctx (o ∷ rounds) i ((before, during, locking), keep) h =
      let step = find_coin_round s genesis hash header ctx o.during o.locking (o.before i) in
      after_round header ctx rounds step.0 step.1
        (λ i' k. find_coin-FindLeaves header ctx rounds i' keep k) keep
        (find_coin_round-RoundLeaves header ctx o.during o.locking (o.before i) _ refl during
          locking (before i h))
