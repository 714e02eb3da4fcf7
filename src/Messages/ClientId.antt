-- ===== src/Messages/ClientId.antt =====
-- src/messages/riak_get_clientid.c and src/messages/riak_set_clientid.c: the id of the client.
--
-- `pack` and `unpack` stand for the generated packer and unpacker.
use riak_c_client.Base.{ℕ, Bool, true, false, Option, none, some, List}
use riak_c_client.Error.{RiakError, eriak_out_of_memory}
use riak_c_client.Memory.{Cmd, pure, ◌>>=◌, ◌>>◌, cfg_malloc, free_if}
use riak_c_client.Binary
use riak_c_client.Binary.{Binary, PbBinary, copy_from_pb}
use riak_c_client.Message.{PbMessage}
use riak_c_client.Operation.{Operation, get_config}
use riak_c_client.Object.Copy.{bin_to_pb}
use riak_c_client.Wire.Read.{DecodeResult}
use riak_c_client.Messages.Request.{encode_empty, encode_packed}
use riak_c_client.Messages.Response.{gives_up, gives, unpacked}
use riak_c_client.Messages.Acknowledgement.{Acknowledged, acknowledge}

-- `RpbGetClientIdResp`
pub record PbClientIdResp : Type 0 where
  pub client_id : PbBinary

-- `_riak_get_clientid_response`
pub record ClientId : Type 0 where
  pub client_id : Option Binary
  pub internal : PbClientIdResp

abbrev pub sizeof_clientid : ℕ
sizeof_clientid = 16

abbrev pub msg_rpbgetclientidreq : ℕ
msg_rpbgetclientidreq = 3

abbrev pub msg_rpbsetclientidreq : ℕ
msg_rpbsetclientidreq = 5

-- `riak_get_clientid_request_encode`
unfoldable pub get_clientid_request_encode :
    {D R : Type 0} → D → Operation D R → Cmd (RiakError × Operation D R)
get_clientid_request_encode decoder rop = encode_empty rop decoder msg_rpbgetclientidreq

-- The response to an unpacked message; without memory for the copy the response is lost.
unfoldable pub clientid_response :
    {D : Type 0} → Operation D ClientId → PbClientIdResp → Cmd (DecodeResult ClientId)
clientid_response rop pb = do
  got ← cfg_malloc (get_config rop) sizeof_clientid
  elim got [
    | false ↦ pure (gives_up rop eriak_out_of_memory)
    | true ↦ do
      id ← copy_from_pb (get_config rop) pb.client_id
      elim id [
        | none ↦ pure (gives_up rop eriak_out_of_memory)
        | some b ↦ pure (gives (record { client_id = some b; internal = pb }))
      ]
  ]

-- `riak_get_clientid_response_decode`
unfoldable pub get_clientid_response_decode :
    {D : Type 0}
    → (List ℕ → Option PbClientIdResp)
    → Operation D ClientId
    → Option PbMessage
    → Bool
    → Cmd (DecodeResult ClientId)
get_clientid_response_decode unpack rop pbresp done =
    unpacked unpack rop pbresp done (clientid_response rop)

-- `riak_get_clientid_response_free`
unfoldable pub get_clientid_response_free : Option ClientId → Cmd (Unit {0})
get_clientid_response_free none = pure tt
get_clientid_response_free (some response) = do Binary.free response.client_id; free_if true

-- `RpbSetClientIdReq`
pub record PbSetClientIdReq : Type 0 where
  pub client_id : PbBinary

-- `riak_set_clientid_request_encode`
unfoldable pub set_clientid_request_encode :
    {D R : Type 0}
    → (PbSetClientIdReq → List ℕ)
    → D
    → Operation D R
    → Option Binary
    → Cmd (RiakError × Operation D R)
set_clientid_request_encode pack decoder rop clientid = do
  id ← bin_to_pb clientid
  encode_packed eriak_out_of_memory false rop decoder msg_rpbsetclientidreq
      (pack (record { client_id = id }))

-- `riak_set_clientid_response_decode`
abbrev pub set_clientid_response_decode :
    {D : Type 0}
    → Operation D Acknowledged
    → Option PbMessage
    → Bool
    → Cmd (DecodeResult Acknowledged)
set_clientid_response_decode rop pbresp done = acknowledge rop
