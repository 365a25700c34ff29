-- ===== src/Indexer/Interleaving/Safe.antt =====
-- The wait table after any order of the steps.
use rosetta_ergo.Base.{
  String, false, Option, some, [], ◌∷◌, Result, ok, err, panics, blocks, ◌≡◌, refl, Answers, dec64,
  eq_ℤ, pos, Bool-cases, inl, inr, ◌==◌,
}
use rosetta_ergo.Base.GoMap.{GoMap, get, delete}
use rosetta_ergo.Sdk.{Block, BlockIdentifier}
use rosetta_ergo.Indexer.Storage.{Storage}
use rosetta_ergo.Indexer.WaitTable.{
  WaitTable, WaitTableEntry, lock, unlock, set_entry, delete_entry,
}
use rosetta_ergo.Indexer.State.{Indexer, init_indexer}
use rosetta_ergo.Indexer.Negative.{ensure_negative_value_inputs}
use rosetta_ergo.Indexer.Handlers.{block_seen, block_added, block_removed}
use rosetta_ergo.Indexer.Handlers.Signals.{IsSound, AllSound, get-AllSound, put-AllSound}
use rosetta_ergo.Indexer.Handlers.Seen.{IsQuiet, block_seen-HasSeen}
use rosetta_ergo.Indexer.Handlers.Added.{block_added-HasAdded}
use rosetta_ergo.Indexer.Waiting.{Round, again, returns}
use rosetta_ergo.Indexer.Waiting.Rounds.{IsFine, find_coin_round-IsFine}
use rosetta_ergo.Indexer.Fetching.{leave, leave_entry}
use rosetta_ergo.Indexer.Interleaving.{Run, start, sees, adds, removes, searches, leaves}

module _ {DB : Type 0} (s : Storage DB) (negate_value : String → Result String) where
  block_seen-IsQuiet :
      (b : Block) (i : Indexer DB) (x : Result (Unit {0}) × DB)
      → s.see_block b i.db ≡ x
      → IsQuiet i
      → IsQuiet (block_seen s negate_value (ok tt) b i).1
  unfolding block_seen
  block_seen-IsQuiet b i (ok u, db') e q =
      let (i', run, _, h) = block_seen-HasSeen s negate_value b i db' q e in rw run h.quiet
  block_seen-IsQuiet b i (err y, db') e q = rw e (record { free = q.free; sound = q.sound })
  block_seen-IsQuiet b i (panics, db') e q = rw e (record { free = q.free; sound = q.sound })
  block_seen-IsQuiet b i (blocks, db') e q = rw e (record { free = q.free; sound = q.sound })

  added_after :
      (given b : Block) (i : Indexer DB) (x : Result (Unit {0}) × DB)
      → ensure_negative_value_inputs negate_value given ≡ (ok tt, b)
      → s.add_block b i.db ≡ x
      → IsQuiet i
      → IsQuiet (block_added s negate_value given i).1
  unfolding block_added
  added_after given b i (ok u, db') c e q =
      let (i', run, _, h) = block_added-HasAdded s negate_value given b i db' q c e in
      rw run h.quiet
  added_after given b i (err y, db') c e q = rw c (rw e (record { free = q.free; sound = q.sound }))
  added_after given b i (panics, db') c e q =
      rw c (rw e (record { free = q.free; sound = q.sound }))
  added_after given b i (blocks, db') c e q =
      rw c (rw e (record { free = q.free; sound = q.sound }))

  block_added-IsQuiet :
      (given : Block) (i : Indexer DB) (x : Result (Unit {0}) × Block)
      → ensure_negative_value_inputs negate_value given ≡ x
      → IsQuiet i
      → IsQuiet (block_added s negate_value given i).1
  unfolding block_added
  block_added-IsQuiet given i (ok u, b) c q = added_after given b i _ c refl q
  block_added-IsQuiet given i (err y, b) c q = rw c q
  block_added-IsQuiet given i (panics, b) c q = rw c q
  block_added-IsQuiet given i (blocks, b) c q = rw c q

  block_removed-IsQuiet :
      (id : BlockIdentifier) (i : Indexer DB)
      → IsQuiet i
      → IsQuiet (block_removed s negate_value id i).1
  unfolding block_removed
  block_removed-IsQuiet id i q = record { free = q.free; sound = q.sound }

delete-AllSound : (k : String) (m : GoMap WaitTableEntry) → AllSound m → AllSound (delete k m)
unfolding delete
delete-AllSound k [] h = tt
delete-AllSound k ((j, w) ∷ m) (h, hs) = elim (Bool-cases (j == k)) [
  | inl same ↦ rw same (delete-AllSound k m hs)
  | inr other ↦ rw other (h, delete-AllSound k m hs)
]

-- A table whose lock is free and whose entries are sound.
pub record IsFree (t : WaitTable) : Type 0 where
  pub free : t.locked ≡ false
  pub sound : AllSound t.table

pub leave-IsFree :
    (tx_hash : String) (t : WaitTable) (v : WaitTableEntry)
    → t.locked ≡ false
    → AllSound t.table
    → get tx_hash t.table ≡ some v
    → IsFree (leave tx_hash t).1
unfolding leave lock leave_entry set_entry delete_entry unlock
leave-IsFree tx_hash t v free sound there = elim (Bool-cases (eq_ℤ (dec64 v.listeners) (pos 0))) [
  | inl last ↦
      rw (free, leave)
        (rw there (rw last (record { free = refl; sound = delete-AllSound tx_hash t.table sound })))
  | inr more ↦
      let is_sound : IsSound v = get-AllSound tx_hash t.table sound there in
      rw (free, leave)
        (rw there (
          rw more (record {
            free = refl;
            sound =
                put-AllSound tx_hash (record v { listeners = dec64 v.listeners }) t.table
                  (record { flag = is_sound.flag; over = is_sound.over }) sound;
          })))
]

IsFine-IsQuiet : {DB : Type 0} (x : Round × Indexer DB) → IsFine x → IsQuiet x.1
IsFine-IsQuiet (again, i) h = h
IsFine-IsQuiet (returns (ok a), i) h = h
IsFine-IsQuiet (returns (err e), i) h = h
IsFine-IsQuiet (returns panics, i) h = absurd h
IsFine-IsQuiet (returns blocks, i) h = absurd h

module _ {DB : Type 0} (s : Storage DB) (negate_value : String → Result String)
    (genesis : BlockIdentifier) (hash : Option BlockIdentifier → String)
    (heads : (db : DB) → Answers (s.get_head_block_identifier db))
    (coins : (db : DB) (id : String) → Answers (s.get_coin db id)) where
  Run-IsQuiet : {i j : Indexer DB} → Run s negate_value genesis hash i j → IsQuiet i → IsQuiet j
  Run-IsQuiet (start i) q = q
  Run-IsQuiet (sees {i} {j} r b) q = block_seen-IsQuiet s negate_value b j _ refl (Run-IsQuiet r q)
  Run-IsQuiet (adds {i} {j} r b) q = block_added-IsQuiet s negate_value b j _ refl (Run-IsQuiet r q)
  Run-IsQuiet (removes {i} {j} r id) q = block_removed-IsQuiet s negate_value id j (Run-IsQuiet r q)
  Run-IsQuiet (searches {i} {j} {k} {l} r others lockers header ctx) q =
      let before : IsQuiet j = Run-IsQuiet r q in
      let after : IsQuiet k = Run-IsQuiet others before in
      let later : IsQuiet l = Run-IsQuiet lockers after in
      IsFine-IsQuiet _ (
        find_coin_round-IsFine s genesis hash heads coins (λ x. k) (λ x. l) (λ x h. after)
          (λ x h. later) header ctx j before)
  Run-IsQuiet (leaves {i} {j} r tx_hash v there) q =
      let before : IsQuiet j = Run-IsQuiet r q in
      let table = leave-IsFree tx_hash j.waiter v before.free before.sound there in
      record { free = table.free; sound = table.sound }

  -- Where the storage's reads return: whatever the order of the calls of the handlers, of the rounds
  -- of `findCoin` and of the ends of waits whose entry is in the table, from a new indexer on, the
  -- lock of the wait table is free after each, its closed flags are right, and so the next block
  -- that the storage accepts is seen without a panic or a deadlock.
  pub Run-from_init :
      (db : DB) (i : Indexer DB)
      → Run s negate_value genesis hash (init_indexer db) i
      → IsQuiet i
        × ((b : Block) (db' : DB)
            → s.see_block b i.db ≡ (ok tt, db')
            → (i' : Indexer DB) × (block_seen s negate_value (ok tt) b i ≡ (ok tt, i')))
  Run-from_init db i r =
      let q : IsQuiet i = Run-IsQuiet r (record { free = refl; sound = tt }) in
      (
        q,
        λ b db' accepted.
            let (i', run, _, h) = block_seen-HasSeen s negate_value b i db' q accepted in (i', run),
      )
