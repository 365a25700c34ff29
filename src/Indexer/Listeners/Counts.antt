-- ===== src/Indexer/Listeners/Counts.antt =====
-- What it is for the counters of the wait table to be the numbers of the outstanding waits.
use rosetta_ergo.Base.{ℕ, ◌<◌, pos, String, Option, none, some, ◌≡◌, ◌∙◌}
use rosetta_ergo.Base.GoMap.{get, map_found}
use rosetta_ergo.Indexer.WaitTable.{WaitTable, WaitTableEntry}
use rosetta_ergo.Indexer.Handlers.Seen.{IsQuiet}
use rosetta_ergo.Indexer.Listeners.{Waits, World}

-- An entry is in the table exactly while a wait is outstanding, and its counter is their number.
abbrev pub Counted : Option WaitTableEntry → ℕ → Type 0
Counted none n = n ≡ 0
Counted (some v) n = (v.listeners ≡ pos n) × (0 < n)

abbrev pub CountsWaits : Waits → WaitTable → Type 0
CountsWaits waits t = (k : String) → Counted (get k t.table) (waits k)

pub Counted-map_found :
    (f : WaitTableEntry → WaitTableEntry) (o : Option WaitTableEntry) (n : ℕ)
    → ((v : WaitTableEntry) → (f v).listeners ≡ v.listeners)
    → Counted o n
    → Counted (map_found f o) n
Counted-map_found f none n same h = h
Counted-map_found f (some v) n same (e, more) = (same v ∙ e, more)

-- The lock is free, the closed flags are right, and the counters too.
pub record IsCounted {DB : Type 0} (w : World DB) : Type 0 where
  pub quiet : IsQuiet w.indexer
  pub counted : CountsWaits w.waits w.indexer.waiter
