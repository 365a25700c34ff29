-- ===== src/Indexer/Waiting/Rounds/Listening.antt =====
-- How a listener joins an entry.
use rosetta_ergo.Base.{ℤ, String, Option, none, some, ◌≡◌, refl, arith, ok, inc64}
use rosetta_ergo.Base.GoMap.{GoMap, get, put}
use rosetta_ergo.Indexer.WaitTable.{WaitTable, WaitTableEntry}
use rosetta_ergo.Indexer.Handlers.Signals.{IsSound, AllSound, get-AllSound}
use rosetta_ergo.Indexer.Waiting.{joined, register_wait}

-- The entry under which a listener waits: a new one, or the one that is there.
abbrev pub listening : ℤ → Option WaitTableEntry → WaitTableEntry
listening height found = record (joined height found) {
  listeners = inc64 (joined height found).listeners;
}

pub listening-IsSound :
    (height : ℤ) (k : String) (m : GoMap WaitTableEntry) (o : Option WaitTableEntry)
    → AllSound m
    → get k m ≡ o
    → IsSound (listening height o)
unfolding joined
listening-IsSound height k m none h e = record { flag = refl; over = λ q. cc q }
listening-IsSound height k m (some v) h e =
    let sound : IsSound v = get-AllSound k m h e in ground arith

register_wait-listening :
    (tx_id : String) (height : ℤ) (t : WaitTable)
    → register_wait tx_id height t
      ≡ ok (record t { table = put tx_id (listening height (get tx_id t.table)) t.table })
unfolding register_wait
register_wait-listening tx_id height t = refl
