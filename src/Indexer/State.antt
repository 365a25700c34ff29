-- ===== src/Indexer/State.antt =====
-- The state of the `Indexer` of pkg/indexer/indexer.go that its handlers share, with the database
-- that its storage keeps. The mutexes of the coin cache and of `seen` are held around one access
-- with no return in between, so each such access is one step here.
use rosetta_ergo.Base.{ℤ, pos, []}
use rosetta_ergo.Base.GoMap.{GoMap}
use rosetta_ergo.Sdk.{AccountCoin}
use rosetta_ergo.Indexer.WaitTable.{WaitTable, new_wait_table}

pub record Indexer (DB : Type 0) : Type 0 where
  pub coin_cache : GoMap AccountCoin
  pub waiter : WaitTable
  pub seen : ℤ
  pub db : DB

abbrev pub init_indexer : {DB : Type 0} → DB → Indexer DB
init_indexer db = record { coin_cache = []; waiter = new_wait_table; seen = pos 0; db = db }
