-- ===== src/Tests/Metadata.antt =====
-- BrokerEventMetadata on a small message.
use zbc_go.Common.{◌≡◌, refl, arith, false, [], ◌∷◌, ◌++◌}
use zbc_go.Wire.{Bytes, ok, little_endian}
use zbc_go.Wire.{write_uint}
use zbc_go.Common.{pos, negsuc}
use zbc_go.Sbe.Signed.{write_int}
use zbc_go.Sbe.BrokerEventMetadata.{BrokerEventMetadata}
use zbc_go.Sbe.BrokerEventMetadata as Metadata
use zbc_go.Sbe.BrokerEventMetadata.Laws.{BrokerEventMetadata-decode_newer}

abbrev pub metadata : BrokerEventMetadata
metadata = record {
  req_stream_id = negsuc 0;
  req_request_id = 9;
  raft_term_id = pos 2;
  subscription_id = 0;
  protocol_version = 1;
  event_type = 0;
  incident_key = 4;
}

abbrev metadata_bytes : Bytes
metadata_bytes =
    255 ∷ 255 ∷ 255 ∷ 255 ∷ 9 ∷ 0 ∷ 0 ∷ 0 ∷ 0 ∷ 0 ∷ 0 ∷ 0 ∷ 2 ∷ 0 ∷ 0 ∷ 0 ∷ 0 ∷ 0 ∷ 0 ∷ 0 ∷ 0 ∷ 0
    ∷ 0 ∷ 0 ∷ 1 ∷ 0 ∷ 0 ∷ 4 ∷ 0 ∷ 0 ∷ 0 ∷ 0 ∷ 0 ∷ 0 ∷ 0 ∷ []

metadata_runs : Metadata.encode metadata little_endian false [] ≡ ok (tt, metadata_bytes)
unfolding Metadata.encode write_int write_uint
metadata_runs = refl

BrokerEventMetadata-decode_newer_example :
    Metadata.decode metadata little_endian 2 37 false (metadata_bytes ++ (7 ∷ 7 ∷ []) ++ 6 ∷ [])
    ≡ ok (metadata, 7 ∷ 7 ∷ 6 ∷ [])
BrokerEventMetadata-decode_newer_example =
    BrokerEventMetadata-decode_newer metadata metadata little_endian false false 2 metadata_bytes
      (7 ∷ 7 ∷ []) (6 ∷ []) (omega arith) metadata_runs (λ on. cc) (omega arith)
