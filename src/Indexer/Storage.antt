-- ===== src/Indexer/Storage.antt =====
-- The storage modules of rosetta-sdk-go, as the program calls them: parameters over an abstract
-- database. A call that writes returns the database that it leaves, beside its result.
use rosetta_ergo.Base.{ℤ, String, Option, List, Result}
use rosetta_ergo.Sdk.{
  Block, BlockIdentifier, PartialBlockIdentifier, Transaction, TransactionIdentifier,
  AccountIdentifier, Amount, Coin, Currency,
}

pub record BlockResponse : Type 0 where
  pub block : Block
  pub other_transactions : List TransactionIdentifier

-- `sdkUtils.AccountBalance`, as `bootstrapGenesisState` fills it.
pub record AccountBalance : Type 0 where
  pub account : Option AccountIdentifier
  pub coins : List Coin

pub record Storage (DB : Type 0) : Type 0 where
  pub get_head_block_identifier : DB → Result BlockIdentifier
  pub get_block_lazy : DB → Option PartialBlockIdentifier → Result BlockResponse
  pub get_block_transaction : DB → BlockIdentifier → TransactionIdentifier → Result Transaction
  pub get_coin : DB → String → Result (Coin × AccountIdentifier)
  pub get_coins : DB → AccountIdentifier → Result (List Coin × BlockIdentifier)
  pub get_balance : DB → AccountIdentifier → Currency → ℤ → Result Amount
  pub add_block : Block → DB → Result (Unit {0}) × DB
  pub remove_block : BlockIdentifier → DB → Result (Unit {0}) × DB
  pub see_block : Block → DB → Result (Unit {0}) × DB
  pub set_coins_imported : List AccountBalance → DB → Result (Unit {0}) × DB
  pub set_balance : AccountIdentifier → Amount → BlockIdentifier → DB → Result (Unit {0}) × DB
  -- A transaction's writes are made on a copy of the database; `commit` takes that copy first.
  pub commit : DB → DB → Result (Unit {0}) × DB
