-- ===== src/Messages/ServerInfo.antt =====
-- src/messages/riak_serverinfo.c: the name and the version of the server.
--
-- `unpack` stands for the generated unpacker.
use riak_c_client.Base.{ℕ, Bool, true, false, Option, none, some, List}
use riak_c_client.Error.{RiakError, eriak_out_of_memory}
use riak_c_client.Memory.{Cmd, pure, ◌>>=◌, ◌>>◌, cfg_malloc, free_if}
use riak_c_client.Binary
use riak_c_client.Binary.{Binary, PbBinary}
use riak_c_client.Message.{PbMessage}
use riak_c_client.Operation.{Operation, get_config}
use riak_c_client.Object.Types.{Flagged}
use riak_c_client.Object.Copy.{flagged_from_pb}
use riak_c_client.Wire.Read.{DecodeResult}
use riak_c_client.Messages.Request.{encode_empty}
use riak_c_client.Messages.Response.{gives_up, gives, unpacked}

-- `RpbGetServerInfoResp`
pub record PbServerInfoResp : Type 0 where
  pub node : Flagged PbBinary
  pub server_version : Flagged PbBinary

-- `_riak_serverinfo_response`
pub record ServerInfo : Type 0 where
  pub node : Flagged (Option Binary)
  pub server_version : Flagged (Option Binary)
  pub internal : PbServerInfoResp

abbrev pub sizeof_serverinfo : ℕ
sizeof_serverinfo = 40

abbrev pub msg_rpbgetserverinforeq : ℕ
msg_rpbgetserverinforeq = 7

-- `riak_serverinfo_request_encode`
unfoldable pub serverinfo_request_encode :
    {D R : Type 0} → D → Operation D R → Cmd (RiakError × Operation D R)
serverinfo_request_encode decoder rop = encode_empty rop decoder msg_rpbgetserverinforeq

-- The response to an unpacked message; without memory for a copy the response is lost.
unfoldable pub serverinfo_response :
    {D : Type 0} → Operation D ServerInfo → PbServerInfoResp → Cmd (DecodeResult ServerInfo)
serverinfo_response rop pb = do
  got ← cfg_malloc (get_config rop) sizeof_serverinfo
  elim got [
    | false ↦ pure (gives_up rop eriak_out_of_memory)
    | true ↦ do
      node ← flagged_from_pb (get_config rop) pb.node
      elim node [
        | none ↦ pure (gives_up rop eriak_out_of_memory)
        | some n ↦ do
          version ← flagged_from_pb (get_config rop) pb.server_version
          elim version [
            | none ↦ pure (gives_up rop eriak_out_of_memory)
            | some v ↦ pure (gives (record { node = n; server_version = v; internal = pb }))
          ]
      ]
  ]

-- `riak_serverinfo_response_decode`
unfoldable pub serverinfo_response_decode :
    {D : Type 0}
    → (List ℕ → Option PbServerInfoResp)
    → Operation D ServerInfo
    → Option PbMessage
    → Bool
    → Cmd (DecodeResult ServerInfo)
serverinfo_response_decode unpack rop pbresp done =
    unpacked unpack rop pbresp done (serverinfo_response rop)

-- `riak_serverinfo_response_free`
unfoldable pub serverinfo_response_free : Option ServerInfo → Cmd (Unit {0})
serverinfo_response_free none = pure tt
serverinfo_response_free (some response) = do
  Binary.free response.node.content
  Binary.free response.server_version.content
  free_if true
