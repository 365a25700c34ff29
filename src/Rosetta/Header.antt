-- ===== src/Rosetta/Header.antt =====
-- `HeaderToRosettaBlock` and `PeerToRosettaPeer` of pkg/rosetta/converter.go.
pub mod Links
use rosetta_ergo.Base.{[], Result, ok, ◌>>=◌, wrap_with, eq_ℤ, dec64, if◌then◌else◌}
use rosetta_ergo.Sdk.{Block, RosettaPeer}
use rosetta_ergo.Ergo.Types.{BlockHeader, Peer}
use rosetta_ergo.Ergo.Constants.{genesis_block_index}

-- The genesis block is its own parent; the parent of any other is one below it.
unfoldable pub header_to_rosetta_block : BlockHeader → Block
header_to_rosetta_block bh = record {
  block_identifier = record { hash = bh.id; index = bh.height };
  parent_block_identifier =
      if eq_ℤ bh.height genesis_block_index
      then record { hash = bh.id; index = genesis_block_index }
      else record { hash = bh.parent_id; index = dec64 bh.height };
  timestamp = bh.timestamp;
  transactions = [];
}

-- `types.MarshalMap` is a parameter.
unfoldable pub peer_to_rosetta_peer {ℓ} :
    {Metadata : Type ℓ} → (Peer → Result Metadata) → Peer → Result (RosettaPeer Metadata)
peer_to_rosetta_peer marshal_map p = do
  metadata ← wrap_with "%w: unable to marshal peer metadata" [] (marshal_map p)
  ok (record { peer_id = p.address; metadata = metadata })
