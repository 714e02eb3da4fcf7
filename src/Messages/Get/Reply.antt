-- ===== src/Messages/Get/Reply.antt =====
-- The response to a get request of src/messages/riak_get.c.
--
-- `unpack` stands for the generated unpacker; what it allocates goes by protobuf-c's allocator and is not
-- counted.
use riak_c_client.Base.{
  ℕ, Bool, true, false, Option, none, some, List, [], ◌∷◌, ◌++◌, length, ltb, if◌then◌else◌,
}
use riak_c_client.Error.{
  RiakError, eriak_ok, eriak_out_of_memory, eriak_message_format, eriak_test_failure, failed,
}
use riak_c_client.Memory.{Cmd, fault, pure, value, ◌>>=◌, ◌>>◌, config_clean_allocate, free_if}
use riak_c_client.Binary
use riak_c_client.Binary.{Binary, PbBinary, copy_from_pb}
use riak_c_client.Message.{PbMessage}
use riak_c_client.Operation.{Operation, get_config, has_bucket_type}
use riak_c_client.ServerError.{payload}
use riak_c_client.Object.Types.{Flagged, RiakObject, PbContent}
use riak_c_client.Object.Copy.{flagged_from_pb, scalar_copy, free_array}
use riak_c_client.Object.Content.{object_new_from_pb, object_free, object_new_array}
use riak_c_client.Wire.Read.{DecodeResult}
use riak_c_client.Messages.Request.{unset_flag}

-- `RpbGetResp`
pub record PbGetResp : Type 0 where
  pub content : List PbContent
  pub vclock : Flagged PbBinary
  pub unchanged : Flagged Bool

-- `_riak_get_response`
pub record GetResponse : Type 0 where
  pub vclock : Flagged (Option Binary)
  pub unchanged : Flagged Bool
  pub n_content : ℕ
  pub content : Option (List RiakObject)
  pub internal : PbGetResp

abbrev pub sizeof_get_response : ℕ
sizeof_get_response = 48

-- The names that the operation has kept, copied into an object. A copy without memory is NULL.
unfoldable pub named : {D R : Type 0} → Operation D R → RiakObject → Cmd RiakObject
named rop object = do
  bucket ← Binary.copy (get_config rop) rop.request.bucket
  bucket_type ←
      (if has_bucket_type rop
        then (do
          t ← Binary.copy (get_config rop) rop.request.bucket_type
          pure (record { has = true; content = t }))
        else pure object.bucket_type)
  key ← Binary.copy (get_config rop) rop.request.key
  pure (record object {
    bucket = bucket;
    bucket_type = bucket_type;
    key = record { has = true; content = key };
  })

-- An object that has been read, before its names; NULL is written through.
abbrev pub there : Option RiakObject → Cmd RiakObject
there none = λ h. fault
there (some object) = pure object

-- The loop over the contents, behind the objects already built.
unfoldable pub get_objects :
    {D R : Type 0}
    → Operation D R
    → List RiakObject
    → List PbContent
    → Cmd (RiakError × List RiakObject)
get_objects rop built [] = pure (eriak_ok, built)
get_objects rop built (pb ∷ pbs) = do
  (err, made) ← object_new_from_pb (get_config rop) pb
  elim (failed err) [
    | true ↦ pure (err, built)
    | false ↦ do
      object ← there made
      object' ← named rop object
      get_objects rop (built ++ (object' ∷ [])) pbs
  ]

-- The response with its contents.
unfoldable pub with_content :
    {D : Type 0}
    → Operation D GetResponse
    → GetResponse
    → PbGetResp
    → Cmd (DecodeResult GetResponse)
with_content rop response pb =
    if ltb 0 (length pb.content)
    then (do
      got ← object_new_array (get_config rop) (length pb.content)
      elim got [
        | false ↦ do
          free_if true
          pure (record { result = eriak_test_failure; response = rop.response; done = true })
        | true ↦ do
          (err, objects) ← get_objects rop [] pb.content
          elim (failed err) [
            | true ↦ do
              free_array (λ o. object_free (some o)) (length objects) (some objects)
              free_if true
              pure (record { result = err; response = rop.response; done = true })
            | false ↦ pure (record {
              result = eriak_ok;
              response =
                  some (record response { n_content = length pb.content; content = some objects });
              done = true;
            })
          ]
      ])
    else pure (record { result = eriak_ok; response = some response; done = true })

-- `response->unchanged` and its flag
abbrev pub unchanged_of : Flagged Bool → Flagged Bool
unchanged_of from = scalar_copy from unset_flag

-- The response to an unpacked message.
unfoldable pub get_response :
    {D : Type 0} → Operation D GetResponse → PbGetResp → Cmd (DecodeResult GetResponse)
get_response rop pb = do
  got ← config_clean_allocate (some (get_config rop)) sizeof_get_response
  elim got [
    | false ↦ pure (record { result = eriak_out_of_memory; response = rop.response; done = true })
    | true ↦ do
      vclock ← flagged_from_pb (get_config rop) pb.vclock
      elim vclock [
        | none ↦ do
          free_if true
          pure (record { result = eriak_out_of_memory; response = rop.response; done = true })
        | some v ↦
            with_content rop
              (record {
                vclock = v;
                unchanged = unchanged_of pb.unchanged;
                n_content = 0;
                content = none;
                internal = pb;
              })
              pb
      ]
  ]

-- `riak_get_response_decode`; a NULL message faults.
unfoldable pub get_response_decode :
    {D : Type 0}
    → (List ℕ → Option PbGetResp)
    → Operation D GetResponse
    → Option PbMessage
    → Bool
    → Cmd (DecodeResult GetResponse)
get_response_decode unpack rop none done = λ h. fault
get_response_decode unpack rop (some pbresp) done = do
  bytes ← value (payload pbresp)
  elim (unpack bytes) [
    | none ↦ pure (record { result = eriak_message_format; response = rop.response; done = done })
    | some pb ↦ get_response rop pb
  ]

-- `riak_get_response_free`
unfoldable pub get_response_free : Option GetResponse → Cmd (Unit {0})
get_response_free none = pure tt
get_response_free (some response) = do
  elim (ltb 0 response.n_content) [
    | true ↦ free_array (λ o. object_free (some o)) response.n_content response.content
    | false ↦ pure tt
  ]
  Binary.free response.vclock.content
  free_if true
