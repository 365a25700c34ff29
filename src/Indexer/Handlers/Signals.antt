-- ===== src/Indexer/Handlers/Signals.antt =====
-- What a pass over the wait table does to each entry, and to its channel.
use rosetta_ergo.Base.{
  ℤ, String, Bool, true, false, not, ◌&&◌, ◌||◌, some, List, [], ◌∷◌, map, ◌≡◌, ◌∙◌, refl, arith,
  ok, Result, contains, eq_ℤ, inc64, eq_iff, ◌==◌, if◌then◌else◌, Bool-cases, Option-cases, inl,
  inr,
}
use rosetta_ergo.Base.GoMap.{GoMap, get, put, get-put, map_values, map_found}
use rosetta_ergo.Base.Exec.{◌>>◌, >>=-ok}
use rosetta_ergo.Sdk.{Transaction}
use rosetta_ergo.Indexer.State.{Indexer}
use rosetta_ergo.Indexer.WaitTable.{
  WaitTable, WaitTableEntry, lock, unlock, get_entry, set_entry, close_channel,
}
use rosetta_ergo.Indexer.Handlers.{on_waiter, signal_tx, signal_txs, abort_entry, abort_entries}

-- The flag tells whether the channel is closed, and an aborted wait is over.
pub record IsSound (v : WaitTableEntry) : Type 0 where
  pub flag : v.is_closed ≡ v.channel_closed
  pub over : v.aborted ≡ true → v.channel_closed ≡ true

abbrev pub AllSound : GoMap WaitTableEntry → Type 0
AllSound [] = Unit
AllSound ((k, v) ∷ m) = IsSound v × AllSound m

pub get-AllSound :
    (k : String) (m : GoMap WaitTableEntry) {v : WaitTableEntry}
    → AllSound m
    → get k m ≡ some v
    → IsSound v
unfolding get
get-AllSound k [] h e = cc
get-AllSound k ((j, w) ∷ m) {v} (h, hs) e = elim (Bool-cases (j == k)) [
  | inl same ↦ let e' : w ≡ v = ground arith in rw (← e') h
  | inr other ↦ get-AllSound k m hs (rw other at e)
]

pub put-AllSound :
    (k : String) (v : WaitTableEntry) (m : GoMap WaitTableEntry)
    → IsSound v
    → AllSound m
    → AllSound (put k v m)
unfolding put
put-AllSound k v [] h hs = (h, tt)
put-AllSound k v ((j, w) ∷ m) h (hw, hs) = elim (Bool-cases (j == k)) [
  | inl same ↦ rw same (h, hs)
  | inr other ↦ rw other (hw, put-AllSound k v m h hs)
]

-- An entry whose transaction was seen.
abbrev pub signalled : WaitTableEntry → WaitTableEntry
signalled v = if v.channel_closed then v else record v { channel_closed = true; is_closed = true }

signalled-IsSound : (v : WaitTableEntry) → IsSound v → IsSound (signalled v)
signalled-IsSound v h = ground arith

-- A table in which exactly the keys that pass the test are signalled.
pub record Signals (test : String → Bool) (t t' : WaitTable) : Type 0 where
  pub entries :
      (k : String)
      → get k t'.table ≡ (if test k then map_found signalled (get k t.table) else get k t.table)
  pub same_lock : t'.locked ≡ t.locked
  pub sound : AllSound t'.table

signal_found :
    (h : String) (t : WaitTable) (v : WaitTableEntry)
    → AllSound t.table
    → get h t.table ≡ some v
    → IsSound v
    → (t' : WaitTable) × (signal_tx h t ≡ ok t') × Signals (λ k. h == k) t t'
unfolding signal_tx get_entry set_entry close_channel
signal_found h t v s found sound = elim (Bool-cases v.channel_closed) [
  | inl over ↦ (
    t,
    rw (found, signal_tx) (rw over),
    record { entries = λ k. ground (arith, eq_iff h k); same_lock = refl; sound = s },
  )
  | inr still ↦
      let open_still : v.is_closed ≡ false = sound.flag ∙ still in
      (
        record t { table = put h (signalled v) t.table },
        rw (found, signal_tx) (ground arith),
        record {
          entries = λ k. ground (arith, eq_iff h k, get-put h k (signalled v) t.table);
          same_lock = refl;
          sound = put-AllSound h (signalled v) t.table (signalled-IsSound v sound) s;
        },
      )
]

signal_tx-Signals :
    (h : String) (t : WaitTable)
    → AllSound t.table
    → (t' : WaitTable) × (signal_tx h t ≡ ok t') × Signals (λ k. h == k) t t'
unfolding signal_tx
signal_tx-Signals h t s = elim (Option-cases (get h t.table)) [
  | inl missing ↦ (
    t,
    rw (missing, signal_tx),
    record { entries = λ k. ground (arith, eq_iff h k); same_lock = refl; sound = s },
  )
  | inr (v, found) ↦ signal_found h t v s found (get-AllSound h t.table s found)
]

-- The passes one after the other.
Signals-trans :
    (p q : String → Bool) (t t' t'' : WaitTable)
    → Signals p t t'
    → Signals q t' t''
    → Signals (λ k. p k || q k) t t''
Signals-trans p q t t' t'' a b = record {
  entries = λ k. ground (arith, a.entries k, b.entries k);
  same_lock = b.same_lock ∙ a.same_lock;
  sound = b.sound;
}

abbrev pub hashes : List Transaction → List String
hashes = map (λ tx. tx.transaction_identifier.hash)

pub signal_txs-Signals :
    (txs : List Transaction) (t : WaitTable)
    → AllSound t.table
    → (t' : WaitTable) × (signal_txs txs t ≡ ok t') × Signals (contains (hashes txs)) t t'
unfolding signal_txs contains
signal_txs-Signals [] t s = (t, refl, record { entries = λ k. refl; same_lock = refl; sound = s })
signal_txs-Signals (tx ∷ txs) t s =
    let (t₁, first, here) = signal_tx-Signals tx.transaction_identifier.hash t s in
    let (t₂, rest, there) = signal_txs-Signals txs t₁ here.sound in
    (t₂, rw first rest, Signals-trans _ _ t t₁ t₂ here there)

-- An entry of the blocks above an added block `index`.
abbrev pub aborted_by : ℤ → WaitTableEntry → WaitTableEntry
aborted_by index v =
    if eq_ℤ v.earliest_block (inc64 index) && not v.channel_closed
    then record v { channel_closed = true; aborted = true; is_closed = true }
    else v

abort_entry-aborted_by :
    (index : ℤ) (v : WaitTableEntry)
    → IsSound v
    → (abort_entry index v ≡ ok (aborted_by index v)) × IsSound (aborted_by index v)
unfolding abort_entry close_channel
abort_entry-aborted_by index v h =
    elim (Bool-cases (eq_ℤ v.earliest_block (inc64 index) && not v.channel_closed)) [
      | inl hit ↦
          let open_still : v.is_closed ≡ false = ground (arith, h.flag) in
          rw (hit, open_still) (refl, record { flag = refl; over = λ _. refl })
      | inr miss ↦ rw miss (refl, h)
    ]

pub abort_entries-aborted_by :
    (index : ℤ) (m : GoMap WaitTableEntry)
    → AllSound m
    → (abort_entries index m ≡ ok (map_values (aborted_by index) m))
      × AllSound (map_values (aborted_by index) m)
unfolding abort_entries map_values
abort_entries-aborted_by index [] h = (refl, tt)
abort_entries-aborted_by index ((k, v) ∷ m) (h, hs) =
    let (first, sound) = abort_entry-aborted_by index v h in
    let (rest, sounds) = abort_entries-aborted_by index m hs in (rw (first, rest), (sound, sounds))

-- A step on the table between `Lock` and `Unlock`.
pub under_lock :
    {DB : Type 0} (f : WaitTable → Result WaitTable) (i : Indexer DB) (t : WaitTable)
    → i.waiter.locked ≡ false
    → f (record i.waiter { locked = true }) ≡ ok t
    → t.locked ≡ true
    → (on_waiter lock >> (on_waiter f >> on_waiter unlock)) i
      ≡ (ok tt, record i { waiter = record t { locked = false } })
unfolding lock unlock
under_lock f i t free step held =
    let locked = record i { waiter = record i.waiter { locked = true } } in
    >>=-ok (on_waiter lock) _ i locked tt (rw free)
    ∙ >>=-ok (on_waiter f) _ locked (record i { waiter = t }) tt (rw (step, on_waiter))
    ∙ rw held
