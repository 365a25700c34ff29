-- ===== src/Storage.antt =====
-- pkg/storage: the storage that the command opens, and the callbacks that it gives to the storage
-- modules of rosetta-sdk-go. The modules, the database and the asserter are the libraries'.
use rosetta_ergo.Base.{
  ℤ, String, Bool, true, false, Option, none, some, Err, List, [], ◌∷◌, Result, ok, err, panics,
  blocks, sentinel, not_implemented, ◌>>=◌,
}
use rosetta_ergo.Sdk.{AccountIdentifier, Amount, Block, BlockIdentifier, Currency, Operation}
use rosetta_ergo.Indexer.Storage.{Storage as Modules}

pub data Compression : Type 0 where
  no_compression snappy zstd : Compression

-- The options of badger that the program sets.
pub record BadgerOptions : Type 0 where
  pub dir : String
  pub compression : Compression
  pub truncate : Bool

-- badger, the storage modules over a database, and `runtime.NumCPU`.
pub record Libraries (DB : Type 0) : Type 0 where
  pub default_options : String → BadgerOptions
  pub new_badger_database : String → BadgerOptions → Result DB
  pub close : DB → Result (Unit {0})
  pub modules : Modules DB
  pub num_cpu : ℤ

-- `BalanceStorageHandler`, which records nothing. It does not read the balance changes.
module _ {Change : Type 0} where
  abbrev pub on_block_added : Block → List Change → Result (Unit {0})
  on_block_added block changes = ok tt

  abbrev pub on_block_removed : Block → List Change → Result (Unit {0})
  on_block_removed block changes = ok tt

abbrev pub on_accounts_reconciled : ℤ → Result (Unit {0})
on_accounts_reconciled count = ok tt

abbrev pub on_accounts_seen : ℤ → Result (Unit {0})
on_accounts_seen count = ok tt

-- `BalanceStorageHelper`: an account that the storage does not have starts from 0, and no operation
-- is exempt from the balances. It counts no accounts.
abbrev pub missing_account_balance : AccountIdentifier → Currency → BlockIdentifier → Result Amount
missing_account_balance account currency block = ok (record { value = "0"; currency = currency })

abbrev pub balance_exemptions : {Exemption : Type 0} → List Exemption
balance_exemptions = []

abbrev pub exempt_func : Operation → Bool
exempt_func op = false

abbrev pub accounts_reconciled : Result ℤ
accounts_reconciled = err (sentinel not_implemented)

abbrev pub accounts_seen : Result ℤ
accounts_seen = err (sentinel not_implemented)

-- A worker that the block storage calls for each block: the storage of the coins, or that of the
-- balances with its helper and handler.
pub data BlockWorker : Type 0 where
  coin_worker balance_worker : BlockWorker

-- `modules.BlockStorage`: the workers are set by its `Initialize`.
pub record BlockStorage (DB : Type 0) : Type 0 where
  pub database : DB
  pub concurrency : ℤ
  pub initialized : Option (List BlockWorker)

-- The storages of the coins and of the balances are over the same database.
pub record Storage (DB : Type 0) : Type 0 where
  pub db : DB
  pub block : BlockStorage DB
  pub workers : List BlockWorker

module _ {DB : Type 0} (l : Libraries DB) where
  unfoldable pub default_badger_options : String → BadgerOptions
  default_badger_options dir = record (l.default_options dir) {
    compression = no_compression;
    truncate = true;
  }

  -- `CoinStorageHelper`, which asks the block storage.
  unfoldable pub current_block_identifier : BlockStorage DB → Result BlockIdentifier
  current_block_identifier b = l.modules.get_head_block_identifier b.database

  unfoldable pub new_storage : String → Result (Storage DB)
  unfolding default_badger_options
  new_storage db_path = do
    db ← l.new_badger_database db_path (default_badger_options db_path)
    ok (record {
      db = db;
      block = record { database = db; concurrency = l.num_cpu; initialized = none };
      workers = coin_worker ∷ balance_worker ∷ [];
    })

  unfoldable pub initialize : Storage DB → Storage DB
  initialize s = record s { block = record (s.block) { initialized = some s.workers } }

-- `Shutdown`, whose logger ends the process where the database cannot be closed.
pub data Closing : Type 0 where
  closed : Closing
  not_closed : Err → Closing

abbrev pub after_close : Result (Unit {0}) → Result Closing
after_close (ok u) = ok closed
after_close (err e) = ok (not_closed e)
after_close panics = panics
after_close blocks = blocks

unfoldable pub shutdown : {DB : Type 0} → Libraries DB → Storage DB → Result Closing
shutdown l s = after_close (l.close s.db)
