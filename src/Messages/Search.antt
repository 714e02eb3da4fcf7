-- ===== src/Messages/Search.antt =====
-- src/messages/riak_search.c: a search request, and its response, which is one message.
--
-- `pack` and `unpack` stand for the generated packer and unpacker; what they allocate goes by protobuf-c's
-- allocator and is not counted. `F` stands for the numbers of type float, which are copied and never read.
pub mod Options
pub mod Reply
pub mod Sent
pub mod Copied
pub mod Decoded
mod Tests
use riak_c_client.Base.{
  ℕ, zero, suc, Bool, true, false, Option, none, some, List, [], ◌∷◌, length, ltb, mul64, is_some,
  if◌then◌else◌,
}
use riak_c_client.Error.{RiakError, eriak_ok, eriak_out_of_memory}
use riak_c_client.Memory.{Cmd, fault, pure, ◌>>=◌, ◌>>◌, Config, config_clean_allocate, free_if}
use riak_c_client.Binary.{Binary, PbBinary}
use riak_c_client.Message
use riak_c_client.Message.{PbMessage}
use riak_c_client.Operation.{Operation, get_config, set_bucket}
use riak_c_client.Object.Types.{Flagged}
use riak_c_client.Object.Pairs.{unset_pb}
use riak_c_client.Object.Copy.{bin_to_pb, flagged_to_pb}
use riak_c_client.Object.Grow.{Slots}
use riak_c_client.Messages.Request.{installed, unset_number}
use riak_c_client.Messages.Listing.{cells_of}

-- `_riak_search_options`; `fl` is `n_fl` and `fl` of the source.
pub record SearchOptions : Type 0 where
  pub rows : Flagged ℕ
  pub begin : Flagged ℕ
  pub sort : Flagged (Option Binary)
  pub filter : Flagged (Option Binary)
  pub df : Flagged (Option Binary)
  pub op : Flagged (Option Binary)
  pub fl : Slots Binary
  pub presort : Flagged (Option Binary)

-- `RpbSearchQueryReq`; `n_fl` is the number of the entries of `fl`.
pub record PbSearchReq : Type 0 where
  pub q : PbBinary
  pub index : PbBinary
  pub rows : Flagged ℕ
  pub begin : Flagged ℕ
  pub sort : Flagged PbBinary
  pub filter : Flagged PbBinary
  pub df : Flagged PbBinary
  pub op : Flagged PbBinary
  pub fl : List PbBinary
  pub presort : Flagged PbBinary

abbrev pub msg_rpbsearchqueryreq : ℕ
msg_rpbsearchqueryreq = 27

abbrev pub sizeof_pb_binary : ℕ
sizeof_pb_binary = 16

-- The request without options.
abbrev pub plain_search : PbBinary → PbBinary → PbSearchReq
plain_search q index = record {
  q = q;
  index = index;
  rows = unset_number;
  begin = unset_number;
  sort = unset_pb;
  filter = unset_pb;
  df = unset_pb;
  op = unset_pb;
  fl = [];
  presort = unset_pb;
}

-- The loop over the fields to return.
unfoldable pub fields_to_pb : ℕ → List (Option Binary) → Cmd (List PbBinary)
fields_to_pb zero cells = pure []
fields_to_pb (suc n) [] = λ h. fault
fields_to_pb (suc n) (b ∷ cells) = do
  pb ← bin_to_pb b
  rest ← fields_to_pb n cells
  pure (pb ∷ rest)

-- The array of the fields to return, and the loop; `none` without memory.
unfoldable pub fields_request : Config → Slots Binary → Cmd (Option (List PbBinary))
fields_request cfg fl =
    if ltb 0 fl.count
    then (do
      got ← config_clean_allocate (some cfg) (mul64 sizeof_pb_binary fl.count)
      elim got [
        | false ↦ pure none
        | true ↦ do bs ← fields_to_pb fl.count (cells_of fl.cells); pure (some bs)
      ])
    else pure (some [])

-- What the options add to a request; `none` without memory.
unfoldable pub with_search_options :
    Config → Option SearchOptions → PbSearchReq → Cmd (Option PbSearchReq)
with_search_options cfg none req = pure (some req)
with_search_options cfg (some options) req = do
  sort ← flagged_to_pb options.sort req.sort
  filter ← flagged_to_pb options.filter req.filter
  df ← flagged_to_pb options.df req.df
  op ← flagged_to_pb options.op req.op
  presort ← flagged_to_pb options.presort req.presort
  fields ← fields_request cfg options.fl
  elim fields [
    | none ↦ pure none
    | some fl ↦ pure (
        some (record req {
          rows = options.rows;
          begin = options.begin;
          sort = sort;
          filter = filter;
          df = df;
          op = op;
          fl = fl;
          presort = presort;
        }))
  ]

-- The request that is packed: the bucket is the index.
unfoldable pub search_request :
    Config → Option Binary → Option Binary → Option SearchOptions → Cmd (Option PbSearchReq)
search_request cfg bucket query options = do
  q ← bin_to_pb query
  index ← bin_to_pb bucket
  with_search_options cfg options (plain_search q index)

-- The message of a request. Its array of fields to return is given back once the request is packed, not
-- where there is no buffer.
unfoldable pub search_message : Config → Bool → List ℕ → Cmd (RiakError × Option PbMessage)
search_message cfg has_fields bytes = do
  msgbuf ← config_clean_allocate (some cfg) (length bytes)
  elim msgbuf [
    | false ↦ pure (eriak_out_of_memory, none)
    | true ↦ do
      free_if has_fields
      request ← Message.new cfg msg_rpbsearchqueryreq (length bytes) (some bytes)
      elim request [ none ↦ pure (eriak_out_of_memory, none) | some pb ↦ pure (eriak_ok, some pb) ]
  ]

-- `riak_search_request_encode`
unfoldable pub search_request_encode :
    {D R : Type 0}
    → (PbSearchReq → List ℕ)
    → D
    → Operation D R
    → Option Binary
    → Option Binary
    → Option SearchOptions
    → Cmd (RiakError × Operation D R)
search_request_encode pack decoder rop bucket query options = do
  rop' ← set_bucket rop bucket
  made ← search_request (get_config rop) bucket query options
  elim made [
    | none ↦ pure (eriak_out_of_memory, rop')
    | some req ↦ do
      r ← search_message (get_config rop) (ltb 0 (length req.fl)) (pack req)
      pure (installed rop' decoder r)
  ]
