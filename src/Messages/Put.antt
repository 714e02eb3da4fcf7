-- ===== src/Messages/Put.antt =====
-- src/messages/riak_put.c: the request that stores an object.
--
-- `pack` stands for the generated packer.
pub mod Options
pub mod Reply
pub mod Sent
use riak_c_client.Base.{
  ℕ, Bool, true, false, Option, none, some, List, [], ◌∷◌, ◌++◌, length, ltb, is_some,
  if◌then◌else◌,
}
use riak_c_client.Error.{RiakError, eriak_ok, eriak_out_of_memory, eriak_message_format, failed}
use riak_c_client.Memory.{Cmd, fault, pure, value, ◌>>=◌, ◌>>◌, Config, cfg_malloc, free_if}
use riak_c_client.Binary
use riak_c_client.Binary.{Binary, PbBinary}
use riak_c_client.Message
use riak_c_client.Message.{PbMessage}
use riak_c_client.Operation.{Operation, get_config}
use riak_c_client.ServerError.{payload}
use riak_c_client.Object.Types.{Flagged, RiakObject, PbContent}
use riak_c_client.Object.Copy.{bin_to_pb, flagged_to_pb, flagged_from_pb, scalar_copy, free_array}
use riak_c_client.Object.Pairs.{unset_pb}
use riak_c_client.Object.Content.{
  object_new_from_pb, object_to_pb_copy, object_free, object_free_pb, object_new_array,
}
use riak_c_client.Wire.Read.{DecodeResult}
use riak_c_client.Messages.Request.{installed, unset_number, unset_flag}

-- `_riak_put_options`
pub record PutOptions : Type 0 where
  pub vclock : Flagged (Option Binary)
  pub w : Flagged ℕ
  pub dw : Flagged ℕ
  pub return_body : Flagged Bool
  pub pw : Flagged ℕ
  pub if_not_modified : Flagged Bool
  pub if_none_match : Flagged Bool
  pub return_head : Flagged Bool
  pub timeout : Flagged ℕ
  pub asis : Flagged Bool
  pub sloppy_quorum : Flagged Bool
  pub n_val : Flagged ℕ

-- `RpbPutReq`; the generated field `type` is `bucket_type` here.
pub record PbPutReq : Type 0 where
  pub bucket_type : Flagged PbBinary
  pub bucket : PbBinary
  pub key : Flagged PbBinary
  pub content : PbContent
  pub vclock : Flagged PbBinary
  pub w : Flagged ℕ
  pub dw : Flagged ℕ
  pub return_body : Flagged Bool
  pub pw : Flagged ℕ
  pub if_not_modified : Flagged Bool
  pub if_none_match : Flagged Bool
  pub return_head : Flagged Bool
  pub timeout : Flagged ℕ
  pub asis : Flagged Bool
  pub sloppy_quorum : Flagged Bool
  pub n_val : Flagged ℕ

abbrev pub msg_rpbputreq : ℕ
msg_rpbputreq = 11

-- `RPB_CONTENT__INIT`
abbrev pub no_content : PbContent
no_content = record {
  obj_value = record { len = 0; data_block = none };
  charset = unset_pb;
  last_mod = unset_number;
  last_mod_usecs = unset_number;
  content_type = unset_pb;
  content_encoding = unset_pb;
  deleted = unset_flag;
  vtag = unset_pb;
  n_links = 0;
  links = none;
  n_usermeta = 0;
  usermeta = none;
  n_indexes = 0;
  indexes = none;
}

-- The request without options.
abbrev pub plain_put : Flagged PbBinary → PbBinary → Flagged PbBinary → PbContent → PbPutReq
plain_put bucket_type bucket key content = record {
  bucket_type = bucket_type;
  bucket = bucket;
  key = key;
  content = content;
  vclock = unset_pb;
  w = unset_number;
  dw = unset_number;
  return_body = unset_flag;
  pw = unset_number;
  if_not_modified = unset_flag;
  if_none_match = unset_flag;
  return_head = unset_flag;
  timeout = unset_number;
  asis = unset_flag;
  sloppy_quorum = unset_flag;
  n_val = unset_number;
}

-- `if (options->has_x) { putmsg.has_x = RIAK_TRUE; putmsg.has_x = options->has_x; }`: the content
-- stays.
abbrev pub only_flag : Flagged Bool → Flagged Bool → Flagged Bool
only_flag from to = if from.has then record to { has = true } else to

-- The options in a request.
unfoldable pub with_put_options : Option PutOptions → PbPutReq → Cmd PbPutReq
with_put_options none putmsg = pure putmsg
with_put_options (some opts) putmsg = do
  vclock ← flagged_to_pb opts.vclock putmsg.vclock
  pure (record putmsg {
    asis = scalar_copy opts.asis putmsg.asis;
    dw = scalar_copy opts.dw putmsg.dw;
    if_none_match = only_flag opts.if_none_match putmsg.if_none_match;
    if_not_modified = only_flag opts.if_not_modified putmsg.if_not_modified;
    n_val = scalar_copy opts.n_val putmsg.n_val;
    pw = scalar_copy opts.pw putmsg.pw;
    return_body = scalar_copy opts.return_body putmsg.return_body;
    return_head = scalar_copy opts.return_head putmsg.return_head;
    sloppy_quorum = scalar_copy opts.sloppy_quorum putmsg.sloppy_quorum;
    timeout = scalar_copy opts.timeout putmsg.timeout;
    vclock = vclock;
    w = scalar_copy opts.w putmsg.w;
  })

-- The request for an object. The error of the copy of its content is dropped.
unfoldable pub put_request : Config → RiakObject → Option PutOptions → Cmd PbPutReq
put_request cfg object opts = do
  bucket ← bin_to_pb object.bucket
  bucket_type ← flagged_to_pb object.bucket_type unset_pb
  key ← flagged_to_pb object.key unset_pb
  (err, content) ← object_to_pb_copy cfg no_content object
  with_put_options opts (plain_put bucket_type bucket key content)

-- The end of the encoder: the content is given back once it has been packed, and not without a block
-- for the bytes.
unfoldable pub pack_put :
    (PbPutReq → List ℕ) → Config → PbPutReq → Cmd (RiakError × Option PbMessage)
pack_put pack cfg putmsg = do
  msgbuf ← cfg_malloc cfg (length (pack putmsg))
  elim msgbuf [
    | false ↦ pure (eriak_out_of_memory, none)
    | true ↦ do
      object_free_pb putmsg.content
      request ← Message.new cfg msg_rpbputreq (length (pack putmsg)) (some (pack putmsg))
      elim request [ none ↦ pure (eriak_out_of_memory, none) | some pb ↦ pure (eriak_ok, some pb) ]
  ]

-- `riak_put_request_encode`
unfoldable pub put_request_encode :
    {D R : Type 0}
    → (PbPutReq → List ℕ)
    → D
    → Operation D R
    → RiakObject
    → Option PutOptions
    → Cmd (RiakError × Operation D R)
put_request_encode pack decoder rop object opts = do
  putmsg ← put_request (get_config rop) object opts
  r ← pack_put pack (get_config rop) putmsg
  pure (installed rop decoder r)
