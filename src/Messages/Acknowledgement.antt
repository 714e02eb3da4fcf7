-- ===== src/Messages/Acknowledgement.antt =====
-- The responses of src/messages that carry nothing: to a delete, to a set of the client id, and to a set
-- or a reset of bucket properties. Their four decoders differ only in names.
use riak_c_client.Base.{ℕ, true, false, some}
use riak_c_client.Error.{eriak_ok, eriak_out_of_memory}
use riak_c_client.Memory.{Cmd, pure, ◌>>=◌, cfg_malloc}
use riak_c_client.Operation.{Operation, get_config}
use riak_c_client.Wire.Read.{DecodeResult}

-- `_riak_delete_response` and the like: structures without a field.
pub data Acknowledged : Type 0 where
  acknowledged : Acknowledged

abbrev pub sizeof_acknowledged : ℕ
sizeof_acknowledged = 0

-- The decoders; the message is not read.
unfoldable pub acknowledge :
    {D : Type 0} → Operation D Acknowledged → Cmd (DecodeResult Acknowledged)
acknowledge rop = do
  got ← cfg_malloc (get_config rop) sizeof_acknowledged
  elim got [
    | false ↦ pure (record { result = eriak_out_of_memory; response = rop.response; done = true })
    | true ↦ pure (record { result = eriak_ok; response = some acknowledged; done = true })
  ]
