-- ===== src/Messages/GetBucket.antt =====
-- src/messages/riak_get_bucketprops.c: the request for the properties of a bucket, and its response.
--
-- `pack` and `unpack` stand for the generated packer and unpacker. The field `props` of a message is
-- required, so that an unpacked one has it.
use riak_c_client.Base.{ℕ, Bool, true, false, Option, none, some, List, if◌then◌else◌}
use riak_c_client.Error.{RiakError, eriak_ok, eriak_out_of_memory, eriak_test_failure, failed}
use riak_c_client.Memory.{Cmd, pure, ◌>>=◌, ◌>>◌, cfg_malloc, free_if}
use riak_c_client.Binary.{Binary, PbBinary}
use riak_c_client.Message.{PbMessage}
use riak_c_client.Operation.{Operation, get_config}
use riak_c_client.Object.Types.{Flagged}
use riak_c_client.Object.Copy.{bin_to_pb}
use riak_c_client.BucketProps.Types.{BucketProps, PbBucketProps}
use riak_c_client.BucketProps.Copy.{bucketprops_new_from_pb, bucketprops_free}
use riak_c_client.Wire.Read.{DecodeResult}
use riak_c_client.Messages.Request.{optional_to_pb, encode_packed}
use riak_c_client.Messages.Response.{gives_up, gives, unpacked}

-- `RpbGetBucketReq`
pub record PbGetBucketReq : Type 0 where
  pub bucket_type : Flagged PbBinary
  pub bucket : PbBinary

-- `RpbGetBucketResp`
pub record PbGetBucketResp : Type 0 where
  pub props : PbBucketProps

-- `_riak_get_bucketprops_response`
pub record GetBucketResponse : Type 0 where
  pub props : Option BucketProps
  pub internal : PbGetBucketResp

abbrev pub sizeof_get_bucketprops_response : ℕ
sizeof_get_bucketprops_response = 16

abbrev pub msg_rpbgetbucketreq : ℕ
msg_rpbgetbucketreq = 19

-- `riak_get_bucketprops_request_encode`. Without a buffer it returns 1, the number of another error.
unfoldable pub get_bucketprops_request_encode :
    {D R : Type 0}
    → (PbGetBucketReq → List ℕ)
    → D
    → Operation D R
    → Option Binary
    → Option Binary
    → Cmd (RiakError × Operation D R)
get_bucketprops_request_encode pack decoder rop bucket_type bucket = do
  b ← bin_to_pb bucket
  encode_packed eriak_test_failure false rop decoder msg_rpbgetbucketreq
      (pack (record { bucket_type = optional_to_pb bucket_type; bucket = b }))

-- What is returned once the properties have been read, or not: without them success as well, and NULL.
unfoldable pub with_props :
    PbGetBucketResp → RiakError × Option BucketProps → Cmd (DecodeResult GetBucketResponse)
with_props pb (err, props) =
    if failed err
    then (do free_if true; pure (record { result = eriak_ok; response = none; done = true }))
    else pure (gives (record { props = props; internal = pb }))

-- The response to an unpacked message.
unfoldable pub get_bucketprops_response :
    {D : Type 0}
    → Operation D GetBucketResponse
    → PbGetBucketResp
    → Cmd (DecodeResult GetBucketResponse)
get_bucketprops_response rop pb = do
  got ← cfg_malloc (get_config rop) sizeof_get_bucketprops_response
  elim got [
    | false ↦ pure (gives_up rop eriak_out_of_memory)
    | true ↦ do r ← bucketprops_new_from_pb (get_config rop) pb.props; with_props pb r
  ]

-- `riak_get_bucketprops_response_decode`
unfoldable pub get_bucketprops_response_decode :
    {D : Type 0}
    → (List ℕ → Option PbGetBucketResp)
    → Operation D GetBucketResponse
    → Option PbMessage
    → Bool
    → Cmd (DecodeResult GetBucketResponse)
get_bucketprops_response_decode unpack rop pbresp done =
    unpacked unpack rop pbresp done (get_bucketprops_response rop)

-- `riak_get_bucketprops_response_free`; the unpacked message stays.
unfoldable pub get_bucketprops_response_free : Option GetBucketResponse → Cmd (Unit {0})
get_bucketprops_response_free none = pure tt
get_bucketprops_response_free (some response) = do bucketprops_free response.props; free_if true
