-- ===== src/Wire/Read.antt =====
-- riak_read of src/riak.c: reads the messages of a response, over as many calls as they take.
--
-- Parameters: `S` is the state of the transport and `read_cb` the user's read callback, which
-- answers with the bytes it stored, or with -1; `decode` is the dispatch of the operation's decoder
-- pointer; `unpack_error` is the generated unpacker of error responses. The host is little-endian.
-- A byte of a fresh buffer reads 0. Logging, and the copy of the error text that is made for the
-- log, are left out.
use riak_c_client.Base.{
  ℕ, zero, suc, ◌-◌, Bool, true, false, Option, none, some, List, [], ◌∷◌, ◌++◌, length, replicate,
  is_some, read_at, write_run, add32, sub32, sub64, u64_mod, ltb, ◌==◌, not, if◌then◌else◌,
}
use riak_c_client.Error.{RiakError, eriak_ok, eriak_read, eriak_server_error, failed}
use riak_c_client.Memory.{
  Cmd, fault, out_of_fuel, pure, value, ◌>>=◌, ◌>>◌, config_allocate, free_if,
}
use riak_c_client.Message
use riak_c_client.Message.{PbMessage, msg_rpberrorresp}
use riak_c_client.Operation.{Operation, get_config}
use riak_c_client.ServerError.{
  PbErrorResp, null, freed, live, Event, responded, decode_server_error, server_error_response_free,
  notify,
}
use riak_c_client.Wire.Header.{host_bytes, host_u32, ntohl}

-- What the read callback returns: the bytes it stored, or -1.
pub data Reply : Type 0 where
  got : List ℕ → Reply
  broken : Reply

-- The result of the callback as the `size_t` that it is assigned to.
abbrev pub reply_count : Reply → ℕ
reply_count (got bytes) = length bytes
reply_count broken = u64_mod - 1

abbrev pub reply_bytes : Reply → List ℕ
reply_bytes (got bytes) = bytes
reply_bytes broken = []

-- The operation, `*done_streaming`, the transport and the callbacks called so far.
pub record Reading (D R S : Type 0) : Type 0 where
  pub rop : Operation D R
  pub done : Bool
  pub io : S
  pub events : List (Event R)

-- The end of a round of the loop: another round, or a return.
pub data Round (D R S : Type 0) : Type 0 where
  again : Reading D R S → Round D R S
  return : RiakError → Reading D R S → Round D R S

-- The result of a decoder: the error, the response behind its pointer and its flag.
pub record DecodeResult (R : Type 0) : Type 0 where
  pub result : RiakError
  pub response : Option R
  pub done : Bool

abbrev pub Decode : Type 0 → Type 0 → Type 0
Decode D R = D → Operation D R → Option PbMessage → Bool → Cmd (DecodeResult R)

-- The bytes that the callback stored behind `msgbuf + position`; behind NULL only none at all.
abbrev pub store_bytes : Option (List ℕ) → ℕ → List ℕ → Option (Option (List ℕ))
store_bytes none position [] = some none
store_bytes none position (b ∷ bytes) = none
store_bytes (some block) position bytes = elim (write_run block position bytes) [
  | none ↦ none
  | some block' ↦ some (some block')
]

module _ {D R : Type 0} where
  -- The operation when the whole length is known: `rop->msgbuf` is a new block.
  abbrev pub header_done : Operation D R → ℕ → Option (List ℕ) → Operation D R
  header_done rop msglen msgbuf = record rop {
    msglen_complete = true;
    msglen = msglen;
    msgbuf = msgbuf;
  }

  -- The operation after a whole message: `position`, `msglen` and `msglen_complete` are reset.
  abbrev pub reset : Operation D R → Operation D R
  reset rop = record rop { position = 0; msglen = 0; msglen_complete = false }

  -- The user's callback for a response.
  abbrev pub respond : Operation D R → List (Event R)
  respond rop = elim (rop.response_cb) [
    | none ↦ []
    | some cb ↦ responded cb rop.response rop.cb_data ∷ []
  ]

module _ {D R S : Type 0} (read_cb : S → ℕ → Reply × S) (decode : Decode D R)
    (unpack_error : List ℕ → Option PbErrorResp) where
  -- The allocation of the buffer, once four bytes of the length are there.
  unfoldable pub start_body : Reading D R S → ℕ → Cmd (Round D R S)
  start_body s msglen = do
    buf ← config_allocate (some (get_config s.rop)) msglen
    elim buf [
      | true ↦
          pure (again (record s { rop = header_done s.rop msglen (some (replicate msglen 0)) }))
      | false ↦ pure (return eriak_read (record s { rop = header_done s.rop msglen none }))
    ]

  -- What follows the read of the length: `inmsglen` are its bytes after it, `remaining` what was
  -- asked for.
  unfoldable pub after_header : Reading D R S → List ℕ → ℕ → ℕ → Cmd (Round D R S)
  after_header s inmsglen remaining buflen =
      if not (buflen == remaining)
      then (if buflen == 0
          then pure (return eriak_ok s)
          else if ltb buflen 4
          then pure (
              return eriak_ok (record s {
                rop = record (s.rop) { position = buflen; msglen = host_u32 inmsglen };
              }))
          else pure (return eriak_read s))
      else start_body s (ntohl (host_u32 inmsglen))

  -- The branch of the loop that reads the length: what the callback stored, behind the bytes that
  -- an earlier call left.
  unfoldable pub take_header : Reading D R S → ℕ → Reply × S → Cmd (Round D R S)
  take_header s remaining (reply, io) = do
    inmsglen ← value (write_run (host_bytes s.rop.msglen) s.rop.position (reply_bytes reply))
    after_header (record s { io = io }) inmsglen remaining (reply_count reply)

  unfoldable pub read_header : Reading D R S → Cmd (Round D R S)
  read_header s =
      let remaining = sub64 4 s.rop.position in take_header s remaining (read_cb s.io remaining)

  -- An error response. The response is read for the log whatever the decoding returned.
  unfoldable pub deliver_error : Reading D R S → Option PbMessage → Cmd (Round D R S)
  deliver_error s pbresp = do
    d ← decode_server_error unpack_error s.rop pbresp
    elim (d.slot) [
      | null ↦ λ h. fault
      | freed ↦ λ h. fault
      | live response ↦ do
        server_error_response_free response
        pure (
            return eriak_server_error (record {
              rop = record (d.rop) { response = none };
              done = true;
              io = s.io;
              events = s.events ++ (d.events ++ notify d.rop.error_cb response d.rop.cb_data);
            }))
    ]

  -- What follows a decoder's return.
  unfoldable pub decoded : Reading D R S → DecodeResult R → Cmd (Round D R S)
  decoded s r =
      let s' : Reading D R S = record s {
        rop = record (s.rop) { response = r.response; msgbuf = none };
        done = r.done;
      } in
      if failed r.result
      then pure (return eriak_read s')
      else if r.done
      then pure (return eriak_ok (record s' { events = s.events ++ respond s'.rop }))
      else pure (again s')

  -- Any other message, by the operation's decoder.
  unfoldable pub deliver_decoded : Reading D R S → D → Option PbMessage → Cmd (Round D R S)
  deliver_decoded s decoder pbresp = do
    r ← decode decoder s.rop pbresp true
    free_if (is_some pbresp)
    free_if (is_some s.rop.msgbuf)
    decoded s r

  -- The tests between the reset of the operation and the decoding, on its decoder.
  unfoldable pub dispatch : Reading D R S → ℕ → Option PbMessage → Option D → Cmd (Round D R S)
  dispatch s msgid pbresp none = pure (return eriak_read s)
  dispatch s msgid pbresp (some decoder) =
      if msgid == msg_rpberrorresp then deliver_error s pbresp else deliver_decoded s decoder pbresp

  -- A whole message has been read into `msgbuf`.
  unfoldable pub deliver : Reading D R S → Cmd (Round D R S)
  deliver s = do
    msgbuf ← value s.rop.msgbuf
    msgid ← value (read_at msgbuf 0)
    pbresp ← Message.new (get_config s.rop) msgid s.rop.msglen (some msgbuf)
    dispatch (record s { rop = reset s.rop; done = true }) msgid pbresp s.rop.decoder

  -- The tests on the position after a read; the assertion is a fault.
  unfoldable pub after_body : Reading D R S → Cmd (Round D R S)
  after_body s =
      if ltb s.rop.position s.rop.msglen
      then pure (return eriak_ok s)
      else if s.rop.position == s.rop.msglen
      then deliver s
      else λ h. fault

  -- The read of the rest of the message.
  unfoldable pub read_body : Reading D R S → Cmd (Round D R S)
  read_body s =
      let (reply, io) = read_cb s.io (sub32 s.rop.msglen s.rop.position) in
      do
        msgbuf ← value (store_bytes s.rop.msgbuf s.rop.position (reply_bytes reply))
        after_body (record s {
          rop = record (s.rop) {
            position = add32 s.rop.position (reply_count reply);
            msgbuf = msgbuf;
          };
          io = io;
        })

  -- A round whose header is there, after the branch that read it or not.
  unfoldable pub then_body : Round D R S → Cmd (Round D R S)
  then_body (again s) = read_body s
  then_body (return err s) = pure (return err s)

  -- One round of `while(RIAK_TRUE)`.
  unfoldable pub round : Reading D R S → Cmd (Round D R S)
  round s = if s.rop.msglen_complete then read_body s else (do r ← read_header s; then_body r)

  -- The loop on fuel.
  unfoldable pub rounds : ℕ → Reading D R S → Cmd (RiakError × Reading D R S)
  rounds zero s = λ h. out_of_fuel
  rounds (suc fuel) s = do
    r ← round s
    elim r [ return err s' ↦ pure (err, s') | again s' ↦ rounds fuel s' ]

  -- `riak_read`: one call, with the rounds that `fuel` allows.
  unfoldable pub read : ℕ → Reading D R S → Cmd (RiakError × Reading D R S)
  read fuel s = rounds fuel (record s { done = false })
