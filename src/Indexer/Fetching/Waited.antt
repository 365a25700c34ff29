-- ===== src/Indexer/Fetching/Waited.antt =====
-- The second loop of `findCoins`, under an invariant that does not read the wait table.
use rosetta_ergo.Base.{
  String, Bool, true, ◌||◌, Option, none, some, List, [], ◌∷◌, inl, inr, Result, ok, err, panics,
  blocks, sentinel, canceled, errorf, str, All, Bool-cases, if◌then◌else◌,
}
use rosetta_ergo.Ergo.Inputs.{InputCtx}
use rosetta_ergo.Indexer.WaitTable.{WaitTable, WaitTableEntry, get_entry}
use rosetta_ergo.Indexer.State.{Indexer}
use rosetta_ergo.Indexer.Fetching.{Wake, leave, wait_for, wait_for_all}
use rosetta_ergo.Indexer.Fetching.Rounds.{Keeps}

abbrev pub WakesKeep : {DB : Type 0} → (Indexer DB → Type 0) → List (Wake DB) → Type 0
WakesKeep {DB} I = All (λ (w : Wake DB). Keeps I w.others)

module _ {DB : Type 0} (I : Indexer DB → Type 0)
    (frame : (i : Indexer DB) (t : WaitTable) → I i → I (record i { waiter = t })) where
  abbrev WaitLeaves : Result Bool × Indexer DB × List (Wake DB) → Type 0
  WaitLeaves (r, i, wakes) = I i × WakesKeep I wakes

  after_entry :
      (tx_hash : String) (i : Indexer DB) (x : Result (Option WaitTableEntry))
      (wakes : List (Wake DB))
      → WakesKeep I wakes
      → I i
      → WaitLeaves (elim x [
        | ok none ↦ (err (errorf "transaction %s not in waiter" (str tx_hash ∷ [])), i, wakes)
        | ok (some entry) ↦ elim wakes [
          | [] ↦ (err (sentinel canceled), i, [])
          | wake ∷ wakes' ↦
              let i' = wake.others i in
              let (r, t) = leave tx_hash i'.waiter in
              if wake.cancelled
              then (err (sentinel canceled), i', wakes')
              else (r, record i' { waiter = t }, wakes')
        ]
        | err e ↦ (err e, i, wakes)
        | panics ↦ (panics, i, wakes)
        | blocks ↦ (blocks, i, wakes)
      ])
  after_entry tx_hash i (ok none) wakes keep h = (h, keep)
  after_entry tx_hash i (ok (some entry)) [] keep h = (h, tt)
  after_entry tx_hash i (ok (some entry)) (wake ∷ wakes) (k, keep) h =
      elim (Bool-cases wake.cancelled) [
        | inl cancelled ↦ rw cancelled (k i h, keep)
        | inr closed ↦ rw closed (frame _ _ (k i h), keep)
      ]
  after_entry tx_hash i (err e) wakes keep h = (h, keep)
  after_entry tx_hash i panics wakes keep h = (h, keep)
  after_entry tx_hash i blocks wakes keep h = (h, keep)

  wait_for-WaitLeaves :
      (tx_hash : String) (wakes : List (Wake DB)) (i : Indexer DB)
      → WakesKeep I wakes
      → I i
      → WaitLeaves (wait_for tx_hash wakes i)
  unfolding wait_for
  wait_for-WaitLeaves tx_hash wakes i keep h =
      after_entry tx_hash i (get_entry tx_hash true i.waiter) wakes keep h

  abbrev pub WaitedLeaves : Result Bool × Indexer DB → Type 0
  WaitedLeaves (r, i) = I i

  after_wait :
      (abort : Bool) (coins : List InputCtx) (wakes : List (Wake DB)) (i : Indexer DB)
      (r : Result Bool)
      → ((abort' : Bool) → WaitedLeaves (wait_for_all abort' coins wakes i))
      → I i
      → WaitedLeaves (elim r [
        | ok aborted ↦ wait_for_all (abort || aborted) coins wakes i
        | err e ↦ (err e, i)
        | panics ↦ (panics, i)
        | blocks ↦ (blocks, i)
      ])
  after_wait abort coins wakes i (ok aborted) next h = next (abort || aborted)
  after_wait abort coins wakes i (err e) next h = h
  after_wait abort coins wakes i panics next h = h
  after_wait abort coins wakes i blocks next h = h

  pub wait_for_all-WaitedLeaves :
      (abort : Bool) (coins : List InputCtx) (wakes : List (Wake DB)) (i : Indexer DB)
      → WakesKeep I wakes
      → I i
      → WaitedLeaves (wait_for_all abort coins wakes i)
  unfolding wait_for_all
  wait_for_all-WaitedLeaves abort [] wakes i keep h = h
  wait_for_all-WaitedLeaves abort (coin ∷ coins) wakes i keep h =
      let step = wait_for coin.tx_id wakes i in
      let (h', keep') = wait_for-WaitLeaves coin.tx_id wakes i keep h in
      after_wait abort coins step.2 step.1 step.0
        (λ abort'. wait_for_all-WaitedLeaves abort' coins step.2 step.1 keep' h') h'
