-- ===== src/Ergo/Constants.antt =====
-- pkg/ergo/types.go; pkg/rosetta/types.go repeats it and adds the index of the genesis block.
use rosetta_ergo.Base.{ℤ, pos, String, true, List, [], ◌∷◌}
use rosetta_ergo.Sdk.{BlockIdentifier, Currency, OperationStatus}

abbrev pub blockchain : String
blockchain = "Ergo"

abbrev pub mainnet_network : String
mainnet_network = "mainnet"

abbrev pub testnet_network : String
testnet_network = "testnet"

abbrev pub genesis_block_index : ℤ
genesis_block_index = pos 1

abbrev pub erg_decimals : ℤ
erg_decimals = pos 9

abbrev pub nano_erg_in_erg : ℤ
nano_erg_in_erg = pos 1000000000

abbrev pub input_op_type : String
input_op_type = "INPUT"

abbrev pub output_op_type : String
output_op_type = "OUTPUT"

abbrev pub mainnet_genesis_block_identifier : BlockIdentifier
mainnet_genesis_block_identifier = record {
  hash = "b0244dfc267baca974a4caee06120321562784303a8a688976ae56170e4d175b";
  index = pos 1;
}

abbrev pub testnet_genesis_block_identifier : BlockIdentifier
testnet_genesis_block_identifier = record {
  hash = "78bc468ff36d5d6fa9707d382fe5b8947d6dd0ed2bc5c44707426ee12557c7fb";
  index = pos 1;
}

abbrev pub erg_currency : Currency
erg_currency = record { symbol = "ERG"; decimals = erg_decimals }

abbrev pub operation_types : List String
operation_types = input_op_type ∷ output_op_type ∷ []

abbrev pub success_status : String
success_status = "SUCCESS"

abbrev pub operation_statuses : List OperationStatus
operation_statuses = record { status = success_status; successful = true } ∷ []
