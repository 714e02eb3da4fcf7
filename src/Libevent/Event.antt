-- ===== src/Libevent/Event.antt =====
-- The functions of src/adapters/riak_libevent.h that make and free what connects an operation to libevent, its
-- callback for events of the connection, and riak_libevent_send, less what is logged.
--
-- Libevent is a parameter: `Answers` is what its functions answer, and `Buffers` counts the buffer events it has given
-- out and back. One buffer event belongs to an `RiakLibevent`; a use of it after it was given back is a fault.
use riak_c_client.Base.{
  ℕ, ◌+◌, ◌==◌, Bool, true, false, Option, none, some, List, length, if◌then◌else◌, ◌||◌,
}
use riak_c_client.Error.{RiakError, eriak_ok, eriak_out_of_memory, eriak_event}
use riak_c_client.Memory.{Cmd, fault, pure, ◌>>=◌, ◌>>◌, Config, config_clean_allocate, free_if}
use riak_c_client.Message.{PbMessage}
use riak_c_client.Wire.Write.{write}

-- Whether bufferevent_socket_new gives a buffer event, bufferevent_base_set returns less than 0, and what
-- bufferevent_enable returns.
pub record Answers : Type 0 where
  pub socket_new : Bool
  pub base_set_fails : Bool
  pub enable : ℕ

pub record Buffers : Type 0 where
  pub alive : Bool
  pub taken : ℕ
  pub given : ℕ
  pub has_callbacks : Bool
  pub loop_exits : ℕ

-- `_riak_libevent`: of `bevent` only whether it is not NULL; the operation and the base are those of the call.
pub record RiakLibevent : Type 0 where
  pub bevent : Bool

abbrev pub sizeof_libevent : ℕ
sizeof_libevent = 24

-- bufferevent_free
abbrev pub bufferevent_free : Buffers → Cmd Buffers
bufferevent_free b =
    if b.alive then pure (record b { alive = false; given = b.given + 1 }) else (λ h. fault)

-- `riak_libevent_new` with a buffer event.
unfoldable pub set_up : Answers → Buffers → RiakError × Buffers
set_up answers b =
    if answers.base_set_fails
    then (eriak_event, b)
    else (if answers.enable == 0
        then (eriak_ok, record b { has_callbacks = true })
        else (eriak_event, b))

-- `riak_libevent_new`: after an error behind its allocation the event stays with the caller.
unfoldable pub libevent_new :
    Config → Answers → Buffers → Cmd (RiakError × Option RiakLibevent × Buffers)
libevent_new cfg answers b = do
  got ← config_clean_allocate (some cfg) sizeof_libevent
  elim got [
    | false ↦ pure (eriak_out_of_memory, none, b)
    | true ↦
        if answers.socket_new
        then (let (err, b') = set_up answers (record b { alive = true; taken = b.taken + 1 }) in
            pure (err, some (record { bevent = true }), b'))
        else pure (eriak_out_of_memory, some (record { bevent = false }), b)
  ]

-- `riak_libevent_free`
unfoldable pub libevent_free : Option RiakLibevent → Buffers → Cmd Buffers
libevent_free none b = pure b
libevent_free (some rev) b = do
  b' ← (if rev.bevent then bufferevent_free b else pure b)
  free_if true
  pure b'

-- The bits of `events`, BEV_EVENT_CONNECTED and so on.
pub record Events : Type 0 where
  pub connected : Bool
  pub error : Bool
  pub eof : Bool
  pub timeout : Bool

-- `riak_libevent_connection_cb`. The event that points to the buffer event is not changed. Libevent keeps a buffer
-- event readable until the callback returns.
unfoldable pub connection_cb : Events → Buffers → Cmd Buffers
connection_cb events b =
    if events.connected
    then pure b
    else (if events.error || events.eof || events.timeout
        then (do b' ← bufferevent_free b; pure (record b' { loop_exits = b'.loop_exits + 1 }))
        else pure b)

-- `riak_libevent_write_cb`: the number of the bytes, or 0 after an error; `bufferevent_write` is libevent's.
unfoldable pub write_cb : {S : Type 0} → (S → List ℕ → ℕ × S) → S → List ℕ → ℕ × S
write_cb bufferevent_write io bytes =
    let (result, io') = bufferevent_write io bytes in (if result == 0 then length bytes else 0, io')

-- `riak_libevent_send`
abbrev pub libevent_send :
    {S : Type 0} → (S → List ℕ → ℕ × S) → Option PbMessage → S → Option (RiakError × S)
libevent_send bufferevent_write request io = write (write_cb bufferevent_write) request io
