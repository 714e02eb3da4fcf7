-- ===== src/Message.antt =====
-- src/riak_messages.c: a message with its code, and the codes of
-- src/internal/riak_messages-internal.h that the modelled requests and responses use.
use riak_c_client.Base.{ℕ, ◌%◌, true, false, Option, none, some, List, u8_mod, u32_mod, is_some}
use riak_c_client.Memory.{Cmd, pure, ◌>>=◌, ◌>>◌, Config, config_clean_allocate, free_if}

-- `riak_pb_message`; `body` is the block that its `data` points to.
pub record PbMessage : Type 0 where
  pub len : ℕ
  pub msgid : ℕ
  pub body : Option (List ℕ)

abbrev pub sizeof_pb_message : ℕ
sizeof_pb_message = 16

-- `riak_pb_message_new`
unfoldable pub new : Config → ℕ → ℕ → Option (List ℕ) → Cmd (Option PbMessage)
new cfg msgtype msglen buffer = do
  pb ← config_clean_allocate (some cfg) sizeof_pb_message
  elim pb [
    | true ↦
        pure (some (record { len = msglen % u32_mod; msgid = msgtype % u8_mod; body = buffer }))
    | false ↦ pure none
  ]

-- `riak_pb_message_free` of a pointer that is not NULL
unfoldable pub free : PbMessage → Cmd (Unit {0})
free pb = do free_if (is_some pb.body); free_if true

abbrev pub msg_rpberrorresp : ℕ
msg_rpberrorresp = 0

abbrev pub msg_rpbpingreq : ℕ
msg_rpbpingreq = 1
