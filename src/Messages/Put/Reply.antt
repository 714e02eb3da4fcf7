-- ===== src/Messages/Put/Reply.antt =====
-- The response to a put request of src/messages/riak_put.c.
--
-- `unpack` stands for the generated unpacker; what it allocates goes by protobuf-c's allocator and is not
-- counted.
use riak_c_client.Base.{
  ℕ, Bool, true, false, Option, none, some, List, [], ◌∷◌, ◌++◌, length, ltb, is_some,
  if◌then◌else◌,
}
use riak_c_client.Error.{RiakError, eriak_ok, eriak_out_of_memory, eriak_message_format, failed}
use riak_c_client.Memory.{Cmd, fault, pure, value, ◌>>=◌, ◌>>◌, Config, cfg_malloc, free_if}
use riak_c_client.Binary.{Binary, PbBinary}
use riak_c_client.Message.{PbMessage}
use riak_c_client.Operation.{Operation, get_config}
use riak_c_client.ServerError.{payload}
use riak_c_client.Object.Types.{Flagged, RiakObject, PbContent}
use riak_c_client.Object.Copy.{flagged_from_pb, free_array}
use riak_c_client.Object.Content.{object_new_from_pb, object_free, object_new_array}
use riak_c_client.Wire.Read.{DecodeResult}

-- `RpbPutResp`
pub record PbPutResp : Type 0 where
  pub content : List PbContent
  pub vclock : Flagged PbBinary
  pub key : Flagged PbBinary

-- `_riak_put_response`
pub record PutResponse : Type 0 where
  pub n_content : ℕ
  pub content : Option (List RiakObject)
  pub vclock : Flagged (Option Binary)
  pub key : Flagged (Option Binary)
  pub internal : PbPutResp

abbrev pub sizeof_put_response : ℕ
sizeof_put_response = 56

-- A decoder's return with an error, which leaves the pointer to the response.
abbrev pub no_put : {D : Type 0} → Operation D PutResponse → RiakError → DecodeResult PutResponse
no_put rop err = record { result = err; response = rop.response; done = true }

-- The loop over the contents, behind the objects already built.
unfoldable pub put_objects :
    Config → List RiakObject → List PbContent → Cmd (RiakError × List RiakObject)
put_objects cfg built [] = pure (eriak_ok, built)
put_objects cfg built (pb ∷ pbs) = do
  (err, made) ← object_new_from_pb cfg pb
  elim (failed err) [
    | true ↦ pure (err, built)
    | false ↦ do object ← value made; put_objects cfg (built ++ (object ∷ [])) pbs
  ]

-- The response with its contents.
unfoldable pub put_content :
    {D : Type 0}
    → Operation D PutResponse
    → PutResponse
    → PbPutResp
    → Cmd (DecodeResult PutResponse)
put_content rop response pb =
    if ltb 0 (length pb.content)
    then (do
      got ← object_new_array (get_config rop) (length pb.content)
      elim got [
        | false ↦ do free_if true; pure (no_put rop eriak_out_of_memory)
        | true ↦ do
          (err, objects) ← put_objects (get_config rop) [] pb.content
          elim (failed err) [
            | true ↦ do
              free_array (λ o. object_free (some o)) (length objects) (some objects)
              free_if true
              pure (no_put rop err)
            | false ↦ pure (record {
              result = eriak_ok;
              response =
                  some (record response { n_content = length pb.content; content = some objects });
              done = true;
            })
          ]
      ])
    else pure (record { result = eriak_ok; response = some response; done = true })

-- The response to an unpacked message; without memory for a copy the response is lost.
unfoldable pub put_response :
    {D : Type 0} → Operation D PutResponse → PbPutResp → Cmd (DecodeResult PutResponse)
put_response rop pb = do
  got ← cfg_malloc (get_config rop) sizeof_put_response
  elim got [
    | false ↦ pure (no_put rop eriak_out_of_memory)
    | true ↦ do
      vclock ← flagged_from_pb (get_config rop) pb.vclock
      elim vclock [
        | none ↦ pure (no_put rop eriak_out_of_memory)
        | some v ↦ do
          key ← flagged_from_pb (get_config rop) pb.key
          elim key [
            | none ↦ pure (no_put rop eriak_out_of_memory)
            | some k ↦
                put_content rop
                  (record { n_content = 0; content = none; vclock = v; key = k; internal = pb }) pb
          ]
      ]
  ]

-- `riak_put_response_decode`; a NULL message faults.
unfoldable pub put_response_decode :
    {D : Type 0}
    → (List ℕ → Option PbPutResp)
    → Operation D PutResponse
    → Option PbMessage
    → Bool
    → Cmd (DecodeResult PutResponse)
put_response_decode unpack rop none done = λ h. fault
put_response_decode unpack rop (some pbresp) done = do
  bytes ← value (payload pbresp)
  elim (unpack bytes) [
    | none ↦ pure (record { result = eriak_message_format; response = rop.response; done = done })
    | some pb ↦ put_response rop pb
  ]

-- `riak_put_response_free`; of the key and the vector clock only their own blocks are given back.
unfoldable pub put_response_free : Option PutResponse → Cmd (Unit {0})
put_response_free none = pure tt
put_response_free (some response) = do
  elim (ltb 0 response.n_content) [
    | true ↦ free_array (λ o. object_free (some o)) response.n_content response.content
    | false ↦ pure tt
  ]
  free_if (is_some response.key.content)
  free_if (is_some response.vclock.content)
  free_if true
