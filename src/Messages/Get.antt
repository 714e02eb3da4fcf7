-- ===== src/Messages/Get.antt =====
-- src/messages/riak_get.c: the request for a value.
--
-- `pack` stands for the generated packer.
pub mod Options
pub mod Reply
pub mod Fetched
mod Tests
use riak_c_client.Base.{
  ℕ, ◌+◌, Bool, true, false, Option, none, some, List, [], ◌∷◌, ◌++◌, length, ltb, is_some,
  if◌then◌else◌,
}
use riak_c_client.Error.{
  RiakError, eriak_ok, eriak_out_of_memory, eriak_message_format, eriak_test_failure, failed,
}
use riak_c_client.Memory.{
  Cmd, fault, pure, value, ◌>>=◌, ◌>>◌, Config, config_clean_allocate, free_if,
}
use riak_c_client.Binary
use riak_c_client.Binary.{Binary, PbBinary, copy_from_pb}
use riak_c_client.Message.{PbMessage}
use riak_c_client.Operation.{
  Operation, get_config, set_bucket, set_bucket_type, set_key, has_bucket_type,
}
use riak_c_client.ServerError.{payload}
use riak_c_client.Object.Types.{Flagged, RiakObject, PbContent}
use riak_c_client.Object.Copy.{bin_to_pb, flagged_to_pb, flagged_from_pb, scalar_copy, free_array}
use riak_c_client.Object.Pairs.{unset_pb}
use riak_c_client.Object.Content.{object_new_from_pb, object_free, object_new_array}
use riak_c_client.Wire.Read.{DecodeResult}
use riak_c_client.Messages.Request.{optional_to_pb, encode_packed, unset_number, unset_flag}

-- `_riak_get_options`
pub record GetOptions : Type 0 where
  pub r : Flagged ℕ
  pub pr : Flagged ℕ
  pub basic_quorum : Flagged Bool
  pub notfound_ok : Flagged Bool
  pub if_modified : Flagged (Option Binary)
  pub head : Flagged Bool
  pub deletedvclock : Flagged Bool
  pub timeout : Flagged ℕ
  pub sloppy_quorum : Flagged Bool
  pub n_val : Flagged ℕ

-- `RpbGetReq`; the generated field `type` is `bucket_type` here.
pub record PbGetReq : Type 0 where
  pub bucket_type : Flagged PbBinary
  pub bucket : PbBinary
  pub key : PbBinary
  pub r : Flagged ℕ
  pub pr : Flagged ℕ
  pub basic_quorum : Flagged Bool
  pub notfound_ok : Flagged Bool
  pub if_modified : Flagged PbBinary
  pub head : Flagged Bool
  pub deletedvclock : Flagged Bool
  pub timeout : Flagged ℕ
  pub sloppy_quorum : Flagged Bool
  pub n_val : Flagged ℕ

abbrev pub msg_rpbgetreq : ℕ
msg_rpbgetreq = 9

-- The request without options.
abbrev pub plain_get : Flagged PbBinary → PbBinary → PbBinary → PbGetReq
plain_get bucket_type bucket key = record {
  bucket_type = bucket_type;
  bucket = bucket;
  key = key;
  r = unset_number;
  pr = unset_number;
  basic_quorum = unset_flag;
  notfound_ok = unset_flag;
  if_modified = unset_pb;
  head = unset_flag;
  deletedvclock = unset_flag;
  timeout = unset_number;
  sloppy_quorum = unset_flag;
  n_val = unset_number;
}

-- The options in a request.
unfoldable pub with_get_options : Option GetOptions → PbGetReq → Cmd PbGetReq
with_get_options none getmsg = pure getmsg
with_get_options (some opts) getmsg = do
  if_modified ← flagged_to_pb opts.if_modified getmsg.if_modified
  pure (record getmsg {
    r = opts.r;
    pr = opts.pr;
    basic_quorum = opts.basic_quorum;
    notfound_ok = opts.notfound_ok;
    if_modified = if_modified;
    head = opts.head;
    deletedvclock = opts.deletedvclock;
    timeout = opts.timeout;
    sloppy_quorum = opts.sloppy_quorum;
    n_val = opts.n_val;
  })

-- The request, as the operation's copies of its names leave it.
unfoldable pub get_request :
    Option Binary → Option Binary → Option Binary → Option GetOptions → Cmd PbGetReq
get_request bucket_type bucket key opts = do
  b ← bin_to_pb bucket
  k ← bin_to_pb key
  with_get_options opts (plain_get (optional_to_pb bucket_type) b k)

-- `riak_get_request_encode`
unfoldable pub get_request_encode :
    {D R : Type 0}
    → (PbGetReq → List ℕ)
    → D
    → Operation D R
    → Option Binary
    → Option Binary
    → Option Binary
    → Option GetOptions
    → Cmd (RiakError × Operation D R)
get_request_encode pack decoder rop bucket_type bucket key opts = do
  rop1 ← set_bucket_type rop bucket_type
  rop2 ← set_bucket rop1 bucket
  rop3 ← set_key rop2 key
  getmsg ← get_request bucket_type bucket key opts
  encode_packed eriak_out_of_memory false rop3 decoder msg_rpbgetreq (pack getmsg)
