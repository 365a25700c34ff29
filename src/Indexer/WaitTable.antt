-- ===== src/Indexer/WaitTable.antt =====
-- pkg/indexer/wait_table.go. The map holds pointers, so a field that is written through one is
-- written back into the map here.
use rosetta_ergo.Base.{
  ℤ, String, Bool, true, false, Option, [], Result, ok, panics, blocks, if◌then◌else◌,
}
use rosetta_ergo.Base.GoMap.{GoMap, get, put, delete}

-- `listeners` is an int; the channel is closed at most once, or closing it panics.
pub record WaitTableEntry : Type 0 where
  pub listeners : ℤ
  pub is_closed : Bool
  pub channel_closed : Bool
  pub aborted : Bool
  pub earliest_block : ℤ

pub record WaitTable : Type 0 where
  pub table : GoMap WaitTableEntry
  pub locked : Bool

abbrev pub new_wait_table : WaitTable
new_wait_table = record { table = []; locked = false }

unfoldable pub lock : WaitTable → Result WaitTable
lock t = if t.locked then blocks else ok (record t { locked = true })

unfoldable pub unlock : WaitTable → Result WaitTable
unlock t = if t.locked then ok (record t { locked = false }) else panics

-- `safe` is whether the call takes the lock itself; it gives it back before it returns.
abbrev pub guarded {ℓ} : {A : Type ℓ} → Bool → WaitTable → A → Result A
guarded safe t a = if safe then (if t.locked then blocks else ok a) else ok a

unfoldable pub get_entry : String → Bool → WaitTable → Result (Option WaitTableEntry)
get_entry key safe t = guarded safe t (get key t.table)

unfoldable pub set_entry : String → WaitTableEntry → Bool → WaitTable → Result WaitTable
set_entry key value safe t = guarded safe t (record t { table = put key value t.table })

unfoldable pub delete_entry : String → Bool → WaitTable → Result WaitTable
delete_entry key safe t = guarded safe t (record t { table = delete key t.table })

-- `close(val.channel)`.
unfoldable pub close_channel : WaitTableEntry → Result WaitTableEntry
close_channel entry = if entry.is_closed then panics else ok (record entry { is_closed = true })
