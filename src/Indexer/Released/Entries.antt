-- ===== src/Indexer/Released/Entries.antt =====
-- The second loop of `findCoins`, which leaves the waits.
use rosetta_ergo.Base.{
  ℕ, Bool, true, false, ◌||◌, some, List, [], ◌∷◌, ◌≡◌, refl, Result, ok, err, panics, blocks,
  arith, is_error, orphan_head, eq_refl, Bool-cases, inl, inr,
}
use rosetta_ergo.Base.GoMap.{get}
use rosetta_ergo.Ergo.Inputs.{InputCtx}
use rosetta_ergo.Indexer.WaitTable.{WaitTableEntry, get_entry}
use rosetta_ergo.Indexer.State.{Indexer}
use rosetta_ergo.Indexer.Fetching.{Wake, leave, wait_for, wait_for_all}
use rosetta_ergo.Indexer.Fetching.Waited.{WakesKeep}
use rosetta_ergo.Indexer.Listeners.Leaving.{entry_of_wait, leave-IsCounted}
use rosetta_ergo.Indexer.Released.{Holds, Holds-left}

module _ (limit : ℕ) {DB : Type 0} where
  own_entry :
      (ctx : InputCtx) (mine : List InputCtx) (i : Indexer DB) (h : Holds limit (ctx ∷ mine) i)
      → (v : WaitTableEntry) × (get ctx.tx_id i.waiter.table ≡ some v)
  own_entry ctx mine i h =
      entry_of_wait h.waits i.waiter ctx.tx_id h.is_counted.counted
        (ground (arith, h.sum ctx.tx_id, eq_refl ctx.tx_id))

  own_found :
      (ctx : InputCtx) (mine : List InputCtx) (i : Indexer DB) (h : Holds limit (ctx ∷ mine) i)
      → get_entry ctx.tx_id true i.waiter ≡ ok (some (own_entry ctx mine i h).0)
  unfolding get_entry
  own_found ctx mine i h = rw ((own_entry ctx mine i h).1, get_entry) (simp h.is_counted.quiet.free)

  abbrev pub WaitAfter : List InputCtx → Result Bool × Indexer DB × List (Wake DB) → Type 0
  WaitAfter mine (ok aborted, i, wakes) =
      Holds limit mine i × ((m : List InputCtx) → WakesKeep (Holds limit m) wakes)
  WaitAfter mine (err e, i, wakes) =
      (is_error e orphan_head ≡ false) × (left : List InputCtx) × Holds limit left i
  WaitAfter mine (panics, i, wakes) = ⊥
  WaitAfter mine (blocks, i, wakes) = ⊥

  leave-WaitAfter :
      (ctx : InputCtx) (mine : List InputCtx) (i : Indexer DB) (wakes : List (Wake DB))
      → ((m : List InputCtx) → WakesKeep (Holds limit m) wakes)
      → Holds limit (ctx ∷ mine) i
      → let (r, t) = leave ctx.tx_id i.waiter in WaitAfter mine (r, record i { waiter = t }, wakes)
  leave-WaitAfter ctx mine i wakes keep h =
      let (v, there) = own_entry ctx mine i h in
      let (t, run, c) =
        leave-IsCounted (record { indexer = i; waits = h.waits }) ctx.tx_id v there h.is_counted in
      rw run (Holds-left limit mine ctx i h t c, keep)

  wait_for-WaitAfter :
      (ctx : InputCtx) (mine : List InputCtx) (wakes : List (Wake DB)) (i : Indexer DB)
      → ((m : List InputCtx) → WakesKeep (Holds limit m) wakes)
      → Holds limit (ctx ∷ mine) i
      → WaitAfter mine (wait_for ctx.tx_id wakes i)
  unfolding wait_for
  wait_for-WaitAfter ctx mine [] i keep h =
      rw (own_found ctx mine i h, wait_for) (refl, ctx ∷ mine, h)
  wait_for-WaitAfter ctx mine (w ∷ wakes) i keep h =
      let h' : Holds limit (ctx ∷ mine) (w.others i) = (keep (ctx ∷ mine)).0 i h in
      rw (own_found ctx mine i h, wait_for)
        (elim (Bool-cases w.cancelled) [
          | inl cancelled ↦ rw cancelled (refl, ctx ∷ mine, h')
          | inr closed ↦
              rw closed (leave-WaitAfter ctx mine (w.others i) wakes (λ m. (keep m).1) h')
        ])

  -- With a result, every wait was left.
  abbrev pub AllAfter : Result Bool × Indexer DB → Type 0
  AllAfter (ok should_abort, i) = Holds limit [] i
  AllAfter (err e, i) =
      (is_error e orphan_head ≡ false) × (left : List InputCtx) × Holds limit left i
  AllAfter (panics, i) = ⊥
  AllAfter (blocks, i) = ⊥

  after_wait :
      (abort : Bool) (coins : List InputCtx) (wakes : List (Wake DB)) (i : Indexer DB)
      (r : Result Bool)
      → WaitAfter coins (r, i, wakes)
      → ((abort' : Bool)
          → ((m : List InputCtx) → WakesKeep (Holds limit m) wakes)
          → Holds limit coins i
          → AllAfter (wait_for_all abort' coins wakes i))
      → AllAfter (elim r [
        | ok aborted ↦ wait_for_all (abort || aborted) coins wakes i
        | err e ↦ (err e, i)
        | panics ↦ (panics, i)
        | blocks ↦ (blocks, i)
      ])
  after_wait abort coins wakes i (ok aborted) (h, keep) next = next (abort || aborted) keep h
  after_wait abort coins wakes i (err e) h next = h
  after_wait abort coins wakes i panics h next = h
  after_wait abort coins wakes i blocks h next = h

  pub wait_for_all-AllAfter :
      (abort : Bool) (coins : List InputCtx) (wakes : List (Wake DB)) (i : Indexer DB)
      → ((m : List InputCtx) → WakesKeep (Holds limit m) wakes)
      → Holds limit coins i
      → AllAfter (wait_for_all abort coins wakes i)
  unfolding wait_for_all
  wait_for_all-AllAfter abort [] wakes i keep h = h
  wait_for_all-AllAfter abort (ctx ∷ coins) wakes i keep h =
      let step = wait_for ctx.tx_id wakes i in
      after_wait abort coins step.2 step.1 step.0 (wait_for-WaitAfter ctx coins wakes i keep h)
        (λ abort' keep' h'. wait_for_all-AllAfter abort' coins step.2 step.1 keep' h')
