-- ===== src/Messages/Ping.antt =====
-- src/messages/riak_ping.c: the request without data, and the response that says that it came.
use riak_c_client.Base.{ℕ, Bool, true, false, Option, some}
use riak_c_client.Error.{RiakError, eriak_ok, eriak_out_of_memory}
use riak_c_client.Memory.{Cmd, pure, ◌>>=◌, cfg_malloc, free_if}
use riak_c_client.Message.{PbMessage, msg_rpbpingreq}
use riak_c_client.Operation.{Operation, get_config}
use riak_c_client.Wire.Read.{DecodeResult}
use riak_c_client.Messages.Request.{encode_empty}

-- `_riak_ping_response`
pub record PingResponse : Type 0 where
  pub success : Bool

abbrev pub sizeof_ping_response : ℕ
sizeof_ping_response = 4

-- `riak_ping_request_encode`
unfoldable pub ping_request_encode :
    {D R : Type 0} → D → Operation D R → Cmd (RiakError × Operation D R)
ping_request_encode decoder rop = encode_empty rop decoder msg_rpbpingreq

-- `riak_ping_response_decode`; the message is not read.
unfoldable pub ping_response_decode :
    {D : Type 0}
    → Operation D PingResponse
    → Option PbMessage
    → Bool
    → Cmd (DecodeResult PingResponse)
ping_response_decode rop pbresp done = do
  got ← cfg_malloc (get_config rop) sizeof_ping_response
  elim got [
    | false ↦ pure (record { result = eriak_out_of_memory; response = rop.response; done = true })
    | true ↦
        pure
          (record { result = eriak_ok; response = some (record { success = true }); done = true })
  ]

-- `riak_ping_response_free`
abbrev pub ping_response_free : Bool → Cmd (Unit {0})
ping_response_free is_there = free_if is_there
