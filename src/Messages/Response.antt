-- ===== src/Messages/Response.antt =====
-- The steps that the decoders of src/messages with one message share.
use riak_c_client.Base.{ℕ, Bool, true, Option, none, some, List}
use riak_c_client.Error.{RiakError, eriak_ok, eriak_message_format}
use riak_c_client.Memory.{Cmd, fault, pure, value, ◌>>=◌}
use riak_c_client.Message.{PbMessage}
use riak_c_client.Operation.{Operation}
use riak_c_client.ServerError.{payload}
use riak_c_client.Wire.Read.{DecodeResult}

-- `*resp = response; return ERIAK_OK;`
abbrev pub gives : {R : Type 0} → R → DecodeResult R
gives response = record { result = eriak_ok; response = some response; done = true }

module _ {D R : Type 0} where
  -- `return err` before `*resp` is written, with the flag set.
  abbrev pub gives_up : Operation D R → RiakError → DecodeResult R
  gives_up rop err = record { result = err; response = rop.response; done = true }

  -- The unpacking with which a decoder begins; a NULL message is read.
  unfoldable pub unpacked :
      {P : Type 0}
      → (List ℕ → Option P)
      → Operation D R
      → Option PbMessage
      → Bool
      → (P → Cmd (DecodeResult R))
      → Cmd (DecodeResult R)
  unpacked unpack rop none done next = λ h. fault
  unpacked unpack rop (some pbresp) done next = do
    bytes ← value (payload pbresp)
    elim (unpack bytes) [
      | none ↦ pure (record { result = eriak_message_format; response = rop.response; done = done })
      | some pb ↦ next pb
    ]
