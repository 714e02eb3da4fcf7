-- ===== src/Messages/Delete.antt =====
-- src/messages/riak_delete.c: the request that deletes a value; its response carries nothing.
--
-- `pack` stands for the generated packer.
pub mod Options
pub mod Sent
use riak_c_client.Base.{ℕ, Bool, true, false, Option, none, some, List}
use riak_c_client.Error.{RiakError, eriak_out_of_memory}
use riak_c_client.Memory.{Cmd, pure, ◌>>=◌}
use riak_c_client.Binary.{Binary, PbBinary}
use riak_c_client.Message.{PbMessage}
use riak_c_client.Operation.{Operation}
use riak_c_client.Object.Types.{Flagged}
use riak_c_client.Object.Copy.{bin_to_pb, flagged_to_pb, scalar_copy}
use riak_c_client.Object.Pairs.{unset_pb}
use riak_c_client.Wire.Read.{DecodeResult}
use riak_c_client.Messages.Request.{optional_to_pb, encode_packed, unset_number, unset_flag}
use riak_c_client.Messages.Acknowledgement.{Acknowledged, acknowledge}

-- `_riak_delete_options`
pub record DeleteOptions : Type 0 where
  pub vclock : Flagged (Option Binary)
  pub w : Flagged ℕ
  pub dw : Flagged ℕ
  pub pw : Flagged ℕ
  pub timeout : Flagged ℕ
  pub sloppy_quorum : Flagged Bool
  pub n_val : Flagged ℕ

-- `RpbDelReq`, less the fields `rw`, `r` and `pr`, which are never set; the generated field `type` is
-- `bucket_type` here.
pub record PbDelReq : Type 0 where
  pub bucket_type : Flagged PbBinary
  pub bucket : PbBinary
  pub key : PbBinary
  pub vclock : Flagged PbBinary
  pub w : Flagged ℕ
  pub dw : Flagged ℕ
  pub pw : Flagged ℕ
  pub timeout : Flagged ℕ
  pub sloppy_quorum : Flagged Bool
  pub n_val : Flagged ℕ

abbrev pub msg_rpbdelreq : ℕ
msg_rpbdelreq = 13

-- The request without options.
abbrev pub plain_delete : Flagged PbBinary → PbBinary → PbBinary → PbDelReq
plain_delete bucket_type bucket key = record {
  bucket_type = bucket_type;
  bucket = bucket;
  key = key;
  vclock = unset_pb;
  w = unset_number;
  dw = unset_number;
  pw = unset_number;
  timeout = unset_number;
  sloppy_quorum = unset_flag;
  n_val = unset_number;
}

-- The options in a request.
unfoldable pub with_delete_options : Option DeleteOptions → PbDelReq → Cmd PbDelReq
with_delete_options none delmsg = pure delmsg
with_delete_options (some opts) delmsg = do
  vclock ← flagged_to_pb opts.vclock delmsg.vclock
  pure (record delmsg {
    dw = scalar_copy opts.dw delmsg.dw;
    n_val = scalar_copy opts.n_val delmsg.n_val;
    pw = scalar_copy opts.pw delmsg.pw;
    sloppy_quorum = scalar_copy opts.sloppy_quorum delmsg.sloppy_quorum;
    timeout = scalar_copy opts.timeout delmsg.timeout;
    vclock = vclock;
    w = scalar_copy opts.w delmsg.w;
  })

-- The request for a key.
unfoldable pub delete_request :
    Option Binary → Option Binary → Option Binary → Option DeleteOptions → Cmd PbDelReq
delete_request bucket_type bucket key opts = do
  b ← bin_to_pb bucket
  k ← bin_to_pb key
  with_delete_options opts (plain_delete (optional_to_pb bucket_type) b k)

-- `riak_delete_request_encode`
unfoldable pub delete_request_encode :
    {D R : Type 0}
    → (PbDelReq → List ℕ)
    → D
    → Operation D R
    → Option Binary
    → Option Binary
    → Option Binary
    → Option DeleteOptions
    → Cmd (RiakError × Operation D R)
delete_request_encode pack decoder rop bucket_type bucket key opts = do
  delmsg ← delete_request bucket_type bucket key opts
  encode_packed eriak_out_of_memory false rop decoder msg_rpbdelreq (pack delmsg)

-- `riak_delete_response_decode`
abbrev pub delete_response_decode :
    {D : Type 0}
    → Operation D Acknowledged
    → Option PbMessage
    → Bool
    → Cmd (DecodeResult Acknowledged)
delete_response_decode rop pbresp done = acknowledge rop
