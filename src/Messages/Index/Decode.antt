-- ===== src/Messages/Index/Decode.antt =====
-- The decoding of the messages of a response to an index query, in src/messages/riak_2i.c.
use riak_c_client.Base.{
  ℕ, zero, suc, Bool, true, false, Option, none, some, List, [], ◌∷◌, is_some, add32, ◌||◌,
  if◌then◌else◌, write_at,
}
use riak_c_client.Error.{eriak_ok, eriak_out_of_memory, eriak_message_format, failed}
use riak_c_client.Memory.{
  Cmd, fault, pure, value, ◌>>=◌, ◌>>◌, Config, config_clean_allocate, free_if,
}
use riak_c_client.Binary.{copy_from_pb}
use riak_c_client.Message.{PbMessage}
use riak_c_client.Operation.{Operation, get_config}
use riak_c_client.ServerError.{payload}
use riak_c_client.Object.Types.{Pair}
use riak_c_client.Object.Pairs.{pair_free}
use riak_c_client.Wire.Read.{DecodeResult}
use riak_c_client.Messages.Listing.{cells_of, free_items}
use riak_c_client.Messages.Index.Reply.{
  PbIndexResp, IndexResponse, sizeof_index_response, no_index_response, index_done, index_room,
  index_remains, index_result, assemble_index,
}

-- What the response takes of its last message. The copy of the continuation is made whatever the flag says,
-- and may be NULL.
unfoldable pub last_fields : Config → IndexResponse → PbIndexResp → Cmd IndexResponse
last_fields cfg response pb = do
  b ← copy_from_pb cfg pb.continuation.content
  pure (record response {
    continuation = record { has = pb.continuation.has; content = b };
    done = pb.done;
  })

-- An unpacked message behind those of a response.
unfoldable pub add_message :
    Config
    → Bool
    → Option IndexResponse
    → IndexResponse
    → PbIndexResp
    → Cmd (DecodeResult IndexResponse)
add_message cfg streaming old response pb = do
  cells ← index_room cfg response.n_responses response.internal
  elim cells [
    | none ↦ pure (index_result eriak_out_of_memory (index_remains old response) (index_done pb))
    | some room ↦ do
      pbs ← value (write_at room response.n_responses (some pb))
      (err, response') ←
          (let kept = record response {
            internal = some pbs;
            n_responses = add32 response.n_responses 1;
          } in
            if streaming || index_done pb
            then assemble_index cfg kept pbs
            else pure (eriak_ok, kept))
      (if failed err
          then pure (index_result err (index_remains old response') (index_done pb))
          else (do
            response'' ← last_fields cfg response' pb
            pure (index_result eriak_ok (some response'') (index_done pb))))
  ]

-- The response so far, or a new one.
unfoldable pub add_onto :
    Config → Bool → Option IndexResponse → PbIndexResp → Bool → Cmd (DecodeResult IndexResponse)
add_onto cfg streaming (some response) pb done =
    add_message cfg streaming (some response) response pb
add_onto cfg streaming none pb done = do
  got ← config_clean_allocate (some cfg) sizeof_index_response
  elim got [
    | false ↦ pure (index_result eriak_out_of_memory none done)
    | true ↦ add_message cfg streaming none no_index_response pb
  ]

-- `riak_2i_response_decode`; a NULL message faults.
unfoldable pub index_response_decode :
    {D : Type 0}
    → (List ℕ → Option PbIndexResp)
    → Operation D IndexResponse
    → Option PbMessage
    → Bool
    → Cmd (DecodeResult IndexResponse)
index_response_decode unpack rop none done = λ h. fault
index_response_decode unpack rop (some pbresp) done = do
  bytes ← value (payload pbresp)
  elim (unpack bytes) [
    | none ↦ pure (index_result eriak_message_format rop.response done)
    | some pb ↦ add_onto (get_config rop) rop.streaming rop.response pb done
  ]

-- The loop of `riak_pairs_free` over these results; NULL is read.
unfoldable pub free_results : ℕ → List (Option Pair) → Cmd (Unit {0})
free_results zero rs = pure tt
free_results (suc n) [] = λ h. fault
free_results (suc n) (none ∷ rs) = λ h. fault
free_results (suc n) (some r ∷ rs) = do pair_free r; free_results n rs

-- `riak_2i_response_free`: the continuation stays. The unpacked messages go by protobuf-c's allocator.
unfoldable pub index_response_free : Option IndexResponse → Cmd (Unit {0})
index_response_free none = pure tt
index_response_free (some response) = do
  free_items response.n_keys (cells_of response.keys)
  free_if (is_some response.keys)
  free_results response.n_results (cells_of response.results)
  free_if (is_some response.results)
  free_if (is_some response.internal)
  free_if true
