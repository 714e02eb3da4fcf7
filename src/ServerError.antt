-- ===== src/ServerError.antt =====
-- src/messages/riak_server_error.c and riak_server_error_new of src/riak_error.c: the error response
-- of a server.
--
-- `unpack_error` stands for rpb_error_resp__unpack, which protobuf-c's compiler writes; what it
-- allocates and frees goes by protobuf-c's allocator and is not counted.
use riak_c_client.Base.{ℕ, true, false, Option, none, some, List, [], ◌∷◌, drop, sub32, read_run}
use riak_c_client.Error.{RiakError, eriak_ok, eriak_out_of_memory, eriak_message_format, failed}
use riak_c_client.Memory.{Cmd, fault, pure, value, ◌>>=◌, ◌>>◌, Config, cfg_malloc, free_if}
use riak_c_client.Binary
use riak_c_client.Binary.{Binary, PbBinary, cells}
use riak_c_client.Message.{PbMessage}
use riak_c_client.Operation.{Operation, ServerError, get_config}

-- `RpbErrorResp`, the generated type.
pub record PbErrorResp : Type 0 where
  pub errcode : ℕ
  pub errmsg : PbBinary

-- `_riak_server_error_response`
pub record ServerErrorResponse : Type 0 where
  pub errcode : ℕ
  pub errmsg : Binary

-- What the caller's pointer to the response is worth: NULL, a response, or freed memory.
pub data ErrorSlot : Type 0 where
  null freed : ErrorSlot
  live : ServerErrorResponse → ErrorSlot

-- A call of a user's callback: the function, what it is given, and the user's pointer.
pub data Event (R : Type 0) : Type 0 where
  responded : ℕ → Option R → ℕ → Event R
  server_failed : ℕ → ServerErrorResponse → ℕ → Event R

abbrev pub sizeof_server_error : ℕ
sizeof_server_error = 16

abbrev pub sizeof_server_error_response : ℕ
sizeof_server_error_response = 24

-- `riak_server_error_new`: the error, and what `*err` holds after it.
unfoldable pub server_error_new :
    Config → Option ServerError → ℕ → Option Binary → Cmd (RiakError × Option ServerError)
server_error_new cfg old errcode errmsg = do
  error ← cfg_malloc cfg sizeof_server_error
  elim error [
    | false ↦ pure (eriak_out_of_memory, old)
    | true ↦ do
      msg ← Binary.copy cfg errmsg
      elim msg [
        | none ↦ do free_if true; pure (eriak_out_of_memory, none)
        | some m ↦ pure (eriak_ok, some (record { errcode = errcode; errmsg = some m }))
      ]
  ]

-- The part of a message behind its code, of `len - 1` bytes, that is handed to an unpacker.
unfoldable pub payload : PbMessage → Option (List ℕ)
payload pb = read_run (drop 1 (cells pb.body)) (sub32 pb.len 1)

-- A callback that is set is called.
abbrev pub notify : {R : Type 0} → Option ℕ → ServerErrorResponse → ℕ → List (Event R)
notify none response cb_data = []
notify (some cb) response cb_data = server_failed cb response cb_data ∷ []

-- What a decoding of an error response leaves: the error, the operation, `*resp`, and the calls of
-- callbacks.
pub record Decoded (D R : Type 0) : Type 0 where
  pub result : RiakError
  pub rop : Operation D R
  pub slot : ErrorSlot
  pub events : List (Event R)

module _ {D R : Type 0} where
  abbrev pub gave_up : RiakError → Operation D R → Decoded D R
  gave_up err rop = record { result = err; rop = rop; slot = null; events = [] }

  -- The end of `riak_server_error_response_decode`, with the response filled in.
  unfoldable pub keep_error : Operation D R → ServerErrorResponse → Cmd (Decoded D R)
  keep_error rop response = do
    (err, error) ←
        server_error_new (get_config rop) rop.error response.errcode (some response.errmsg)
    elim (failed err) [
      | false ↦ pure (record {
        result = eriak_ok;
        rop = record rop { error = error };
        slot = live response;
        events = notify rop.error_cb response rop.cb_data;
      })
      | true ↦ do
        free_if true
        pure (record {
          result = err;
          rop = record rop { error = error };
          slot = freed;
          events = notify rop.error_cb response rop.cb_data;
        })
    ]

  -- `riak_server_error_response_decode`, which gives the message back; a NULL message faults.
  unfoldable pub decode_server_error :
      (List ℕ → Option PbErrorResp) → Operation D R → Option PbMessage → Cmd (Decoded D R)
  decode_server_error unpack_error rop none = λ h. fault
  decode_server_error unpack_error rop (some pb) = do
    bytes ← value (payload pb)
    elim (unpack_error bytes) [
      | none ↦ pure (gave_up eriak_message_format rop)
      | some errresp ↦ do
        got ← cfg_malloc (get_config rop) sizeof_server_error_response
        free_if true
        elim got [
          | false ↦ pure (gave_up eriak_out_of_memory rop)
          | true ↦ do
            msg ← Binary.copy_from_pb (get_config rop) errresp.errmsg
            elim msg [
              | none ↦ do free_if true; pure (gave_up eriak_out_of_memory rop)
              | some m ↦ keep_error rop (record { errcode = errresp.errcode; errmsg = m })
            ]
        ]
    ]

-- `riak_server_error_response_free` of a live response: the error's message is a shallow copy.
unfoldable pub server_error_response_free : ServerErrorResponse → Cmd (Unit {0})
server_error_response_free response = do free_if true; free_if true
