-- ===== src/Messages/MapReduce.antt =====
-- src/messages/riak_mapreduce.c: a map/reduce request, and its streamed response.
--
-- `pack` and `unpack` stand for the generated packer and unpacker; what they allocate goes by protobuf-c's
-- allocator and is not counted.
pub mod Unfinished
pub mod Gathered
pub mod Whole
use riak_c_client.Base.{
  ℕ, zero, suc, ◌+◌, Bool, true, false, Option, none, some, List, [], ◌∷◌, ◌++◌, length, ltb,
  is_some, mul64, add32, next_int, ◌||◌, if◌then◌else◌, write_at,
}
use riak_c_client.Error.{RiakError, eriak_ok, eriak_out_of_memory, eriak_message_format}
use riak_c_client.Memory.{
  Cmd, fault, pure, value, ◌>>=◌, ◌>>◌, Config, config_allocate, config_clean_allocate, free_if,
}
use riak_c_client.Binary
use riak_c_client.Binary.{Binary, PbBinary, copy_from_pb}
use riak_c_client.Utils.{array_realloc}
use riak_c_client.Message.{PbMessage}
use riak_c_client.Operation.{Operation, get_config}
use riak_c_client.ServerError.{payload}
use riak_c_client.Object.Types.{Flagged}
use riak_c_client.Object.Copy.{bin_to_pb}
use riak_c_client.Wire.Read.{DecodeResult}
use riak_c_client.Messages.Request.{encode_packed}
use riak_c_client.Messages.Listing.{cells_of}

-- `RpbMapRedReq`
pub record PbMapRedReq : Type 0 where
  pub request : PbBinary
  pub content_type : PbBinary

abbrev pub msg_rpbmapredreq : ℕ
msg_rpbmapredreq = 23

-- `riak_mapreduce_request_encode`
unfoldable pub mapreduce_request_encode :
    {D R : Type 0}
    → (PbMapRedReq → List ℕ)
    → D
    → Operation D R
    → Option Binary
    → Option Binary
    → Cmd (RiakError × Operation D R)
mapreduce_request_encode pack decoder rop content_type map_request = do
  r ← bin_to_pb map_request
  t ← bin_to_pb content_type
  encode_packed eriak_out_of_memory false rop decoder msg_rpbmapredreq
      (pack (record { request = r; content_type = t }))

-- `RpbMapRedResp`
pub record PbMapRedResp : Type 0 where
  pub phase : Flagged ℕ
  pub response : Flagged PbBinary
  pub done : Flagged Bool

-- `_riak_mapreduce_message`
pub record MapReduceMessage : Type 0 where
  pub phase : Flagged ℕ
  pub response : Flagged (Option Binary)
  pub done : Flagged Bool

-- `_riak_mapreduce_response`; the entries of `msg` up to the count are not NULL.
pub record MapReduceResponse : Type 0 where
  pub msg : Option (List MapReduceMessage)
  pub n_responses : ℕ
  pub internal : Option (List (Option PbMapRedResp))

abbrev pub sizeof_mapreduce_response : ℕ
sizeof_mapreduce_response = 24

abbrev pub sizeof_mapreduce_message : ℕ
sizeof_mapreduce_message = 40

abbrev pub no_mapreduce : MapReduceResponse
no_mapreduce = record { msg = none; n_responses = 0; internal = none }

-- `*done`
abbrev pub mapreduce_done : PbMapRedResp → Bool
mapreduce_done pb = if pb.done.has then pb.done.content else false

-- The vector of unpacked messages with room for one more; `none` without memory.
unfoldable pub more_room : Config → MapReduceResponse → Cmd (Option (List (Option PbMapRedResp)))
more_room cfg response =
    if ltb 0 response.n_responses
    then array_realloc cfg none (cells_of response.internal) 8 response.n_responses
        (add32 response.n_responses 1)
    else (do
      got ← config_allocate (some cfg) 8
      elim got [ false ↦ pure none | true ↦ pure (some (none ∷ [])) ])

-- One message for the user. Its copy of the response is made whatever the flag says, and may be NULL.
unfoldable pub user_message : Config → PbMapRedResp → Cmd (Option MapReduceMessage)
user_message cfg pb = do
  got ← config_clean_allocate (some cfg) sizeof_mapreduce_message
  elim got [
    | false ↦ pure none
    | true ↦ do
      b ← copy_from_pb cfg pb.response.content
      pure (
          some (record {
            phase = pb.phase;
            response = record { has = pb.response.has; content = b };
            done = pb.done;
          }))
  ]

-- The loop over the unpacked messages from the `i`-th on, an `int`; `none` without memory.
unfoldable pub user_messages :
    Config → ℕ → List (Option PbMapRedResp) → Cmd (Option (List MapReduceMessage))
user_messages cfg i [] = pure (some [])
user_messages cfg i (none ∷ pbs) = λ h. fault
user_messages cfg i (some pb ∷ pbs) = do
  m ← user_message cfg pb
  elim m [
    | none ↦ pure none
    | some x ↦ do
      next ← value (next_int i)
      rest ← user_messages cfg next pbs
      elim rest [ none ↦ pure none | some xs ↦ pure (some (x ∷ xs)) ]
  ]

-- What the pointer to the response is worth after an error: an old response stays where it is, in its
-- state so far; a new one is lost.
abbrev pub remains : Option MapReduceResponse → MapReduceResponse → Option MapReduceResponse
remains none response = none
remains (some _) response = some response

abbrev pub reduced : RiakError → Option MapReduceResponse → Bool → DecodeResult MapReduceResponse
reduced err response done = record { result = err; response = response; done = done }

-- The messages for the user, made anew from all that has been unpacked; what `msg` pointed to before is
-- not given back.
unfoldable pub assemble :
    Config
    → Option MapReduceResponse
    → MapReduceResponse
    → List (Option PbMapRedResp)
    → Bool
    → Cmd (DecodeResult MapReduceResponse)
assemble cfg old response pbs done = do
  got ← config_clean_allocate (some cfg) (mul64 8 response.n_responses)
  elim got [
    | false ↦ pure (reduced eriak_out_of_memory (remains old (record response { msg = none })) done)
    | true ↦ do
      msgs ← user_messages cfg 0 pbs
      elim msgs [
        | none ↦ do
          free_if true
          pure (reduced eriak_out_of_memory (remains old (record response { msg = none })) done)
        | some xs ↦ pure (reduced eriak_ok (some (record response { msg = some xs })) done)
      ]
  ]

-- An unpacked message behind those of a response.
unfoldable pub reduce :
    Config
    → Bool
    → Option MapReduceResponse
    → MapReduceResponse
    → PbMapRedResp
    → Cmd (DecodeResult MapReduceResponse)
reduce cfg streaming old response pb = do
  cells ← more_room cfg response
  elim cells [
    | none ↦ pure (reduced eriak_out_of_memory (remains old response) (mapreduce_done pb))
    | some room ↦ do
      pbs ← value (write_at room response.n_responses (some pb))
      (let response' = record response {
        internal = some pbs;
        n_responses = add32 response.n_responses 1;
      } in
          if streaming || mapreduce_done pb
          then assemble cfg old response' pbs (mapreduce_done pb)
          else pure (reduced eriak_ok (some response') (mapreduce_done pb)))
  ]

-- The response so far, or a new one.
unfoldable pub reduce_onto :
    Config
    → Bool
    → Option MapReduceResponse
    → PbMapRedResp
    → Bool
    → Cmd (DecodeResult MapReduceResponse)
reduce_onto cfg streaming (some response) pb done = reduce cfg streaming (some response) response pb
reduce_onto cfg streaming none pb done = do
  got ← config_clean_allocate (some cfg) sizeof_mapreduce_response
  elim got [
    | false ↦ pure (reduced eriak_out_of_memory none done)
    | true ↦ reduce cfg streaming none no_mapreduce pb
  ]

-- `riak_mapreduce_response_decode`; a NULL message faults.
unfoldable pub mapreduce_response_decode :
    {D : Type 0}
    → (List ℕ → Option PbMapRedResp)
    → Operation D MapReduceResponse
    → Option PbMessage
    → Bool
    → Cmd (DecodeResult MapReduceResponse)
mapreduce_response_decode unpack rop none done = λ h. fault
mapreduce_response_decode unpack rop (some pbresp) done = do
  bytes ← value (payload pbresp)
  elim (unpack bytes) [
    | none ↦ pure (reduced eriak_message_format rop.response done)
    | some pb ↦ reduce_onto (get_config rop) rop.streaming rop.response pb done
  ]

-- The loop that frees the messages for the user, with so many left, from the `i`-th on.
unfoldable pub free_messages : ℕ → ℕ → List MapReduceMessage → Cmd (Unit {0})
free_messages zero i msgs = pure tt
free_messages (suc n) i [] = λ h. fault
free_messages (suc n) i (m ∷ msgs) = do
  Binary.free m.response.content
  free_if true
  next ← value (next_int i)
  free_messages n next msgs

-- The array that a response has; NULL holds nothing.
abbrev pub messages_of : Option (List MapReduceMessage) → List MapReduceMessage
messages_of none = []
messages_of (some msgs) = msgs

-- `riak_mapreduce_response_free`; NULL is read. The unpacked messages go by protobuf-c's allocator.
unfoldable pub mapreduce_response_free : Option MapReduceResponse → Cmd (Unit {0})
mapreduce_response_free none = λ h. fault
mapreduce_response_free (some response) = do
  free_messages response.n_responses 0 (messages_of response.msg)
  free_if (is_some response.msg)
  free_if (is_some response.internal)
  free_if true
