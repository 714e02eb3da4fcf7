-- ===== src/Messages/ResetBucket.antt =====
-- src/messages/riak_reset_bucketprops.c: the request that resets the properties of a bucket.
--
-- `pack` stands for the generated packer.
use riak_c_client.Base.{ℕ, Bool, false, Option, List}
use riak_c_client.Error.{RiakError, eriak_out_of_memory}
use riak_c_client.Memory.{Cmd, ◌>>=◌}
use riak_c_client.Binary.{Binary, PbBinary}
use riak_c_client.Message.{PbMessage}
use riak_c_client.Operation.{Operation}
use riak_c_client.Object.Types.{Flagged}
use riak_c_client.Object.Copy.{bin_to_pb}
use riak_c_client.Wire.Read.{DecodeResult}
use riak_c_client.Messages.Request.{optional_to_pb, encode_packed}
use riak_c_client.Messages.Acknowledgement.{Acknowledged, acknowledge}

-- `RpbResetBucketReq`; the generated field `type` is `bucket_type` here.
pub record PbResetBucketReq : Type 0 where
  pub bucket_type : Flagged PbBinary
  pub bucket : PbBinary

abbrev pub msg_rpbsetbucketreq : ℕ
msg_rpbsetbucketreq = 21

abbrev pub msg_rpbresetbucketreq : ℕ
msg_rpbresetbucketreq = 29

-- `riak_reset_bucketprops_request_encode`, with the order of its arguments and with its message code.
unfoldable pub reset_bucketprops_request_encode :
    {D R : Type 0}
    → (PbResetBucketReq → List ℕ)
    → D
    → Operation D R
    → Option Binary
    → Option Binary
    → Cmd (RiakError × Operation D R)
reset_bucketprops_request_encode pack decoder rop bucket bucket_type = do
  b ← bin_to_pb bucket
  encode_packed eriak_out_of_memory false rop decoder msg_rpbsetbucketreq
      (pack (record { bucket_type = optional_to_pb bucket_type; bucket = b }))

-- `riak_reset_bucketprops_response_decode`
abbrev pub reset_bucketprops_response_decode :
    {D : Type 0}
    → Operation D Acknowledged
    → Option PbMessage
    → Bool
    → Cmd (DecodeResult Acknowledged)
reset_bucketprops_response_decode rop pbresp done = acknowledge rop
