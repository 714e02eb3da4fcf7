-- ===== src/Messages/ListKeys.antt =====
-- src/messages/riak_listkeys.c: the request for the keys of a bucket.
--
-- `pack` stands for the generated packer.
use riak_c_client.Base.{ℕ, false, Option, List}
use riak_c_client.Error.{RiakError, eriak_test_failure}
use riak_c_client.Memory.{Cmd}
use riak_c_client.Memory.{◌>>=◌}
use riak_c_client.Binary.{Binary, PbBinary}
use riak_c_client.Operation.{Operation}
use riak_c_client.Object.Types.{Flagged}
use riak_c_client.Object.Copy.{bin_to_pb}
use riak_c_client.Messages.Request.{optional_to_pb, if_positive, encode_packed}

-- `RpbListKeysReq`
pub record PbListKeysReq : Type 0 where
  pub bucket_type : Flagged PbBinary
  pub bucket : PbBinary
  pub timeout : Flagged ℕ

abbrev pub msg_rpblistkeysreq : ℕ
msg_rpblistkeysreq = 17

-- `riak_listkeys_request_encode`. Without a buffer it returns 1, the number of another error.
unfoldable pub listkeys_request_encode :
    {D R : Type 0}
    → (PbListKeysReq → List ℕ)
    → D
    → Operation D R
    → Option Binary
    → Option Binary
    → ℕ
    → Cmd (RiakError × Operation D R)
listkeys_request_encode pack decoder rop bucket_type bucket timeout = do
  b ← bin_to_pb bucket
  encode_packed eriak_test_failure false rop decoder msg_rpblistkeysreq (
      pack (record {
        bucket_type = optional_to_pb bucket_type;
        bucket = b;
        timeout = if_positive timeout;
      }))
