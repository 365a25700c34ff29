-- ===== src/Ergo/Types.antt =====
-- pkg/ergo/types: the node's answers. A pointer in the Go struct is an `Option`.
use rosetta_ergo.Base.{ℤ, String, Bool, Option, List}
use rosetta_ergo.Base.GoMap.{GoMap}

pub record SpendingProof : Type 0 where
  pub proof_bytes : String
  pub extension : GoMap String

pub record Asset : Type 0 where
  pub token_id : String
  pub amount : ℤ

pub record ErgoTransactionInput : Type 0 where
  pub box_id : String
  pub spending_proof : Option SpendingProof
  pub extension : Option (GoMap String)

pub record ErgoTransactionDataInput : Type 0 where
  pub box_id : String
  pub extension : Option (GoMap String)

pub record ErgoTransactionOutput : Type 0 where
  pub box_id : Option String
  pub value : ℤ
  pub ergo_tree : String
  pub creation_height : ℤ
  pub assets : Option (List Asset)
  pub additional_registers : GoMap String
  pub transaction_id : Option String
  pub index : Option ℤ

pub record ErgoTransaction : Type 0 where
  pub id : Option String
  pub inputs : Option (List ErgoTransactionInput)
  pub data_inputs : Option (List ErgoTransactionDataInput)
  pub outputs : Option (List ErgoTransactionOutput)
  pub size : Option ℤ

pub record PowSolutions : Type 0 where
  pub pk : String
  pub w : String
  pub n : String
  pub d : ℤ

pub record BlockHeader : Type 0 where
  pub id : String
  pub timestamp : ℤ
  pub version : ℤ
  pub ad_proofs_root : String
  pub state_root : String
  pub transactions_root : String
  pub n_bits : ℤ
  pub extension_hash : String
  pub pow_solutions : Option PowSolutions
  pub height : ℤ
  pub difficulty : String
  pub parent_id : String
  pub votes : String
  pub size : Option ℤ
  pub extension_id : Option String
  pub transactions_id : Option String
  pub ad_proofs_id : Option String

pub record BlockTransactions : Type 0 where
  pub header_id : String
  pub transactions : Option (List ErgoTransaction)
  pub size : ℤ

pub record BlockAdProofs : Type 0 where
  pub header_id : String
  pub proof_bytes : String
  pub digest : String
  pub size : ℤ

pub record Extension : Type 0 where
  pub header_id : String
  pub digest : String
  pub fields : Option (List (List String))

pub record FullBlock : Type 0 where
  pub header : Option BlockHeader
  pub block_transactions : Option BlockTransactions
  pub ad_proofs : Option BlockAdProofs
  pub extension : Option Extension
  pub size : ℤ

pub record Peer : Type 0 where
  pub address : String
  pub name : Option String
  pub last_seen : Option ℤ
  pub connection_type : Option String

pub record AddressHolder : Type 0 where
  pub address : String

pub record Parameters : Type 0 where
  pub height : ℤ
  pub storage_fee_factor : ℤ
  pub min_value_per_byte : ℤ
  pub max_block_size : ℤ
  pub max_block_cost : ℤ
  pub block_version : ℤ
  pub token_access_cost : ℤ
  pub input_cost : ℤ
  pub data_input_cost : ℤ
  pub output_cost : ℤ

pub record NodeInfo : Type 0 where
  pub name : String
  pub app_version : String
  pub full_height : ℤ
  pub headers_height : ℤ
  pub best_full_header_id : String
  pub previous_full_header_id : String
  pub best_header_id : String
  pub state_root : String
  pub state_type : String
  pub state_version : String
  pub is_mining : Bool
  pub peers_count : ℤ
  pub unconfirmed_count : ℤ
  pub difficulty : ℤ
  pub current_time : ℤ
  pub launch_time : ℤ
  pub headers_score : ℤ
  pub full_blocks_score : ℤ
  pub genesis_block_id : String
  pub parameters : Option Parameters
