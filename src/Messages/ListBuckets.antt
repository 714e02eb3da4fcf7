-- ===== src/Messages/ListBuckets.antt =====
-- src/messages/riak_listbuckets.c: the request for all buckets.
--
-- `pack` stands for the generated packer.
use riak_c_client.Base.{ℕ, Bool, true, Option, List}
use riak_c_client.Error.{RiakError, eriak_out_of_memory}
use riak_c_client.Memory.{Cmd}
use riak_c_client.Binary.{Binary, PbBinary}
use riak_c_client.Operation.{Operation}
use riak_c_client.Object.Types.{Flagged}
use riak_c_client.Messages.Request.{optional_to_pb, if_positive, encode_packed}

-- `RpbListBucketsReq`
pub record PbListBucketsReq : Type 0 where
  pub bucket_type : Flagged PbBinary
  pub stream : Flagged Bool
  pub timeout : Flagged ℕ

abbrev pub msg_rpblistbucketsreq : ℕ
msg_rpblistbucketsreq = 15

-- `riak_listbuckets_request_encode`
unfoldable pub listbuckets_request_encode :
    {D R : Type 0}
    → (PbListBucketsReq → List ℕ)
    → D
    → Operation D R
    → Option Binary
    → ℕ
    → Cmd (RiakError × Operation D R)
listbuckets_request_encode pack decoder rop bucket_type timeout =
    encode_packed eriak_out_of_memory true rop decoder msg_rpblistbucketsreq (
      pack (record {
        bucket_type = optional_to_pb bucket_type;
        stream = record { has = true; content = true };
        timeout = if_positive timeout;
      }))
