-- ===== src/Sync.antt =====
-- The synchronous calls of src/riak.c: each makes an operation, encodes its request, writes it, calls
-- riak_read once and frees the operation.
--
-- Parameters: `S` is the state of the connection's socket; `read_cb` is read(2) and `write_cb` is
-- write(2) on it, as riak_sync_read_cb and riak_sync_write_cb pass them on; `decode` is the dispatch
-- of the decoder pointer, `unpack_error` the generated unpacker of error responses. The message that
-- riak_sync_read_cb prints on stderr and the log are left out. `self` is the operation's address.
pub mod Answer
pub mod Call
pub mod Calls
pub mod Packed
pub mod Answered
pub mod Properties
pub mod Streamed
pub mod Tests
pub mod ListKeys
pub mod Ping
use riak_c_client.Base.{ℕ, Bool, true, false, Option, none, some, List, [], if◌then◌else◌}
use riak_c_client.Error.{RiakError, eriak_ok, failed}
use riak_c_client.Memory.{Cmd, pure, value, ◌>>=◌, ◌>>◌}
use riak_c_client.Connection.{Connection}
use riak_c_client.Operation
use riak_c_client.Operation.{Operation, set_cb_data}
use riak_c_client.ServerError.{PbErrorResp, Event}
use riak_c_client.Wire.Read.{Reply, Reading, Decode, read}
use riak_c_client.Wire.Write.{write}

-- What a call leaves: its result, what the caller's pointer to the response is worth, the socket, and
-- the calls of the operation's callbacks.
pub record Synced (R S : Type 0) : Type 0 where
  pub result : RiakError
  pub response : Option R
  pub io : S
  pub events : List (Event R)

module _ {D R S : Type 0} (read_cb : S → ℕ → Reply × S) (write_cb : S → List ℕ → ℕ × S)
    (decode : Decode D R) (unpack_error : List ℕ → Option PbErrorResp) (fuel self : ℕ) where
  -- After the request has been written.
  unfoldable pub receive : Operation D R → S → Cmd (Synced R S)
  receive rop io = do
    (err, s) ←
        read read_cb decode unpack_error fuel
          (record { rop = rop; done = false; io = io; events = [] })
    Operation.free s.rop
    pure (record { result = err; response = s.rop.response; io = s.io; events = s.events })

  -- `riak_sync_request`; `old` is what the caller's pointer is worth before.
  unfoldable pub sync_request : Operation D R → S → Option R → Cmd (Synced R S)
  sync_request rop io old =
      let rop' = set_cb_data rop self in
      do
        (err, io') ← value (write write_cb rop'.pb_request io)
        elim (failed err) [
          | true ↦ do
            Operation.free rop'
            pure (record { result = err; response = old; io = io'; events = [] })
          | false ↦ receive rop' io'
        ]

  -- What follows the encoding of a request; after an error the operation is not freed.
  unfoldable pub after_encode : S → Option R → RiakError × Operation D R → Cmd (Synced R S)
  after_encode io old (err, rop) =
      if failed err
      then pure (record { result = err; response = old; io = io; events = [] })
      else sync_request rop io old

  -- What follows riak_operation_new.
  unfoldable pub with_operation :
      (Operation D R → Cmd (RiakError × Operation D R))
      → S
      → Option R
      → RiakError × Option (Operation D R)
      → Cmd (Synced R S)
  with_operation encode io old (err, none) =
      pure (record { result = err; response = old; io = io; events = [] })
  with_operation encode io old (err, some rop) = do r ← encode rop; after_encode io old r

  -- A synchronous call with the encoder `encode`: `riak_serverinfo`, `riak_get`, `riak_put`,
  -- `riak_listbuckets`, `riak_listkeys`, `riak_get_clientid`, `riak_get_bucketprops`,
  -- `riak_reset_bucketprops`, `riak_set_bucketprops`, `riak_mapreduce`, `riak_2i` and `riak_search`.
  unfoldable pub call :
      Connection
      → (Operation D R → Cmd (RiakError × Operation D R))
      → S
      → Option R
      → Cmd (Synced R S)
  call cxn encode io old = do r ← Operation.new cxn none none 0; with_operation encode io old r
