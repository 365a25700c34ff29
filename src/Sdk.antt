-- ===== src/Sdk.antt =====
-- The data types of rosetta-sdk-go that the program builds and reads, with the fields that it
-- uses. A pointer that the program tests for nil, or follows without a test, is an `Option`, but for
-- those that the asserter of rosetta-sdk-go requires in every block that the program hands on: the
-- identifiers of a block, of a transaction and of the coin of a coin change.
use rosetta_ergo.Base.{ℤ, String, Bool, Option, List, Err}

pub record BlockIdentifier : Type 0 where
  pub hash : String
  pub index : ℤ

-- `/block` names a block by hash, by index, by both or by neither.
pub record PartialBlockIdentifier : Type 0 where
  pub hash : Option String
  pub index : Option ℤ

pub record AccountIdentifier : Type 0 where
  pub address : String

pub record Currency : Type 0 where
  pub symbol : String
  pub decimals : ℤ

pub record Amount : Type 0 where
  pub value : String
  pub currency : Currency

pub record CoinIdentifier : Type 0 where
  pub identifier : String

pub data CoinAction : Type 0 where
  coin_created coin_spent : CoinAction

pub record CoinChange : Type 0 where
  pub coin_identifier : CoinIdentifier
  pub coin_action : CoinAction

pub record Coin : Type 0 where
  pub coin_identifier : CoinIdentifier
  pub amount : Option Amount

pub record AccountCoin : Type 0 where
  pub account : Option AccountIdentifier
  pub coin : Coin

pub record OperationIdentifier : Type 0 where
  pub index : ℤ
  pub network_index : Option ℤ

pub record Operation : Type 0 where
  pub operation_identifier : OperationIdentifier
  pub related_operations : List OperationIdentifier
  pub op_type : String
  pub status : Option String
  pub account : Option AccountIdentifier
  pub amount : Option Amount
  pub coin_change : Option CoinChange

pub record TransactionIdentifier : Type 0 where
  pub hash : String

pub record Transaction : Type 0 where
  pub transaction_identifier : TransactionIdentifier
  pub operations : List Operation

pub record Block : Type 0 where
  pub block_identifier : BlockIdentifier
  pub parent_block_identifier : BlockIdentifier
  pub timestamp : ℤ
  pub transactions : List Transaction

pub record OperationStatus : Type 0 where
  pub status : String
  pub successful : Bool

pub record NetworkIdentifier : Type 0 where
  pub blockchain : String
  pub network : String

-- `types.Error`; `details` is the error whose text stands under the key "context".
pub record RosettaError : Type 0 where
  pub code : ℤ
  pub message : String
  pub retriable : Bool
  pub details : Option Err

-- The metadata map of a peer is what the library's `MarshalMap` returns for it.
pub record RosettaPeer {ℓ} (Metadata : Type ℓ) : Type ℓ where
  pub peer_id : String
  pub metadata : Metadata
