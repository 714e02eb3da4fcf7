-- ===== src/Messages/Index.antt =====
-- src/messages/riak_2i.c: a query of a secondary index, and its streamed response.
--
-- `pack` and `unpack` stand for the generated packer and unpacker; what they allocate goes by protobuf-c's
-- allocator and is not counted.
pub mod Options
pub mod Reply
pub mod Decode
pub mod Keys
pub mod Assembled
pub mod Gathered
pub mod Decoded
pub mod Sent
mod Tests
use riak_c_client.Base.{ℕ, Bool, true, false, Option, none, some, List, length, if◌then◌else◌}
use riak_c_client.Error.{RiakError, eriak_ok, eriak_out_of_memory}
use riak_c_client.Memory.{Cmd, pure, ◌>>=◌, Config, config_clean_allocate}
use riak_c_client.Binary.{Binary, PbBinary}
use riak_c_client.Message
use riak_c_client.Message.{PbMessage}
use riak_c_client.Operation.{Operation, get_config, set_bucket_type, set_bucket, set_index}
use riak_c_client.Object.Types.{Flagged}
use riak_c_client.Object.Pairs.{unset_pb}
use riak_c_client.Object.Copy.{bin_to_pb, flagged_to_pb}
use riak_c_client.Messages.Request.{optional_to_pb, installed, unset_number, unset_flag}

-- `RpbIndexReq__IndexQueryType`
pub data IndexQueryType : Type 0 where
  eq range : IndexQueryType

-- `_riak_2i_options`; the field `type` is `bucket_type` here.
pub record IndexOptions : Type 0 where
  pub qtype : IndexQueryType
  pub key : Flagged (Option Binary)
  pub range_min : Flagged (Option Binary)
  pub range_max : Flagged (Option Binary)
  pub return_terms : Flagged Bool
  pub stream : Flagged Bool
  pub max_results : Flagged ℕ
  pub continuation : Flagged (Option Binary)
  pub timeout : Flagged ℕ
  pub bucket_type : Flagged (Option Binary)
  pub term_regex : Flagged (Option Binary)
  pub pagination_sort : Flagged Bool

-- `RpbIndexReq`
pub record PbIndexReq : Type 0 where
  pub bucket : PbBinary
  pub index : PbBinary
  pub qtype : IndexQueryType
  pub key : Flagged PbBinary
  pub range_min : Flagged PbBinary
  pub range_max : Flagged PbBinary
  pub return_terms : Flagged Bool
  pub stream : Flagged Bool
  pub max_results : Flagged ℕ
  pub continuation : Flagged PbBinary
  pub timeout : Flagged ℕ
  pub bucket_type : Flagged PbBinary
  pub term_regex : Flagged PbBinary
  pub pagination_sort : Flagged Bool

abbrev pub msg_rpbindexreq : ℕ
msg_rpbindexreq = 25

-- The request without options.
abbrev pub plain_query : PbBinary → PbBinary → Flagged PbBinary → PbIndexReq
plain_query bucket index bucket_type = record {
  bucket = bucket;
  index = index;
  qtype = eq;
  key = unset_pb;
  range_min = unset_pb;
  range_max = unset_pb;
  return_terms = unset_flag;
  stream = unset_flag;
  max_results = unset_number;
  continuation = unset_pb;
  timeout = unset_number;
  bucket_type = bucket_type;
  term_regex = unset_pb;
  pagination_sort = unset_flag;
}

-- `req.has_x = options->has_x; if (options->has_x) { copy_to_pb(&req.x, options->x); }`
unfoldable pub replace_to_pb : Flagged (Option Binary) → Flagged PbBinary → Cmd (Flagged PbBinary)
replace_to_pb from to = if from.has then flagged_to_pb from to else pure (record to { has = false })

-- What the options add to a request.
unfoldable pub with_index_options : Option IndexOptions → PbIndexReq → Cmd PbIndexReq
with_index_options none req = pure req
with_index_options (some options) req = do
  key ← replace_to_pb options.key req.key
  range_min ← replace_to_pb options.range_min req.range_min
  range_max ← replace_to_pb options.range_max req.range_max
  continuation ← replace_to_pb options.continuation req.continuation
  bucket_type ← replace_to_pb options.bucket_type req.bucket_type
  term_regex ← replace_to_pb options.term_regex req.term_regex
  pure (record req {
    qtype = options.qtype;
    key = key;
    range_min = range_min;
    range_max = range_max;
    return_terms = options.return_terms;
    stream = options.stream;
    max_results = options.max_results;
    continuation = continuation;
    timeout = options.timeout;
    bucket_type = bucket_type;
    term_regex = term_regex;
    pagination_sort = options.pagination_sort;
  })

-- The request that is packed.
unfoldable pub index_request :
    Option Binary → Option Binary → Option Binary → Option IndexOptions → Cmd PbIndexReq
index_request bucket_type bucket index options = do
  b ← bin_to_pb bucket
  i ← bin_to_pb index
  with_index_options options (plain_query b i (optional_to_pb bucket_type))

-- The message of a request; the buffer is not given back without memory for the message.
unfoldable pub index_message : Config → List ℕ → Cmd (RiakError × Option PbMessage)
index_message cfg bytes = do
  msgbuf ← config_clean_allocate (some cfg) (length bytes)
  elim msgbuf [
    | false ↦ pure (eriak_out_of_memory, none)
    | true ↦ do
      request ← Message.new cfg msg_rpbindexreq (length bytes) (some bytes)
      elim request [ none ↦ pure (eriak_out_of_memory, none) | some pb ↦ pure (eriak_ok, some pb) ]
  ]

-- `riak_2i_request_encode`
unfoldable pub index_request_encode :
    {D R : Type 0}
    → (PbIndexReq → List ℕ)
    → D
    → Operation D R
    → Option Binary
    → Option Binary
    → Option Binary
    → Option IndexOptions
    → Cmd (RiakError × Operation D R)
index_request_encode pack decoder rop bucket_type bucket index options = do
  rop1 ← set_bucket_type rop bucket_type
  rop2 ← set_bucket rop1 bucket
  rop3 ← set_index rop2 index
  req ← index_request bucket_type bucket index options
  r ← index_message (get_config rop) (pack req)
  pure (installed rop3 decoder r)
