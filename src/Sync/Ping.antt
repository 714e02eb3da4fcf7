-- ===== src/Sync/Ping.antt =====
-- riak_ping of src/riak.c.
use mathlib.Core.Path.{subst}
use riak_c_client.Base.{
  ℕ, suc, ◌≡◌, refl, sym, true, false, Option, none, some, List, [], ◌++◌, if◌then◌else◌, arith,
}
use riak_c_client.Error.{RiakError, eriak_ok, eriak_no_ping, failed}
use riak_c_client.Memory.{Heap, Run, Cmd, Config, fault, pure, value, ◌>>=◌, ◌>>◌, and_then}
use riak_c_client.Memory.Returns
use riak_c_client.Memory.Returns.{Returns, returns, free_if-Returns}
use riak_c_client.Memory.Rich.{IsRich, bind_known, cfg_malloc-Grants, config_clean_allocate-Grants}
use riak_c_client.Connection.{Connection}
use riak_c_client.Message
use riak_c_client.Message.{PbMessage, msg_rpbpingreq, sizeof_pb_message}
use riak_c_client.ServerError.{PbErrorResp}
use riak_c_client.Wire.Read.{Reply, Decode}
use riak_c_client.Wire.Send.{frame, IsSink}
use riak_c_client.Wire.Decode.{message}
use riak_c_client.Wire.Stream.{Answers}
use riak_c_client.Messages.Ping.{
  PingResponse, ping_request_encode, ping_response_decode, ping_response_free, sizeof_ping_response,
}
use riak_c_client.Messages.Request.{encode_empty}
use riak_c_client.Sync.{Synced, call}
use riak_c_client.Sync.Call.{Encodes, Replies, Silence, call-IsAnswered, call-silent}

-- The operation's decoder pointer is that of a ping.
abbrev pub by_ping : Decode (Unit {0}) PingResponse
by_ping decoder rop pbresp done = ping_response_decode rop pbresp done

module _ {S : Type 0} (read_cb : S → ℕ → Reply × S) (write_cb : S → List ℕ → ℕ × S)
    (unpack_error : List ℕ → Option PbErrorResp) (fuel self : ℕ) where
  -- What follows the call of riak_sync_request; a NULL response is read.
  unfoldable pub ping_end : Synced PingResponse S → Cmd (RiakError × S)
  ping_end r = elim (failed r.result) [
    | true ↦ pure (r.result, r.io)
    | false ↦ do
      response ← value r.response
      ping_response_free true
      pure ((if response.success then eriak_ok else eriak_no_ping), r.io)
  ]

  -- `riak_ping`
  unfoldable pub ping : Connection → S → Cmd (RiakError × S)
  ping cxn io = do
    r ← call read_cb write_cb by_ping unpack_error fuel self cxn (ping_request_encode tt) io none
    ping_end r

-- A run that goes on to a fault.
fault_after :
    {A B : Type 0} {Post : A → Heap → Type 0} {run : Run A} (next : A → Cmd B)
    → Returns Post run
    → ((a : A) (g : Heap) → Post a g → next a g ≡ fault)
    → and_then run next ≡ fault
fault_after next (returns holds) faults = faults _ _ holds

-- The message of a ping's request.
abbrev pub ping_request : PbMessage
ping_request = record { len = 0; msgid = msg_rpbpingreq; body = none }

new_ping-Rich :
    {cfg : Config}
    → IsRich cfg
    → (h : Heap) → Returns (λ r g. r ≡ some ping_request) (Message.new cfg msg_rpbpingreq 0 none h)
unfolding Message.new
new_ping-Rich rich h =
    bind_known _ (config_clean_allocate-Grants rich sizeof_pb_message h) λ g. returns refl

pub ping_request-Encodes :
    {cxn : Connection}
    → IsRich cxn.config
    → Encodes {R = PingResponse} cxn ping_request tt (ping_request_encode tt)
unfolding ping_request_encode encode_empty
ping_request-Encodes {cxn} rich h = bind_known _ (new_ping-Rich rich h) λ g. returns (
  refl,
  record {
    on = refl;
    sends = refl;
    decodes = refl;
    silent = refl;
    new = refl;
    incomplete = refl;
    at_start = refl;
  },
)

module _ {S : Type 0} (read_cb : S → ℕ → Reply × S) (write_cb : S → List ℕ → ℕ × S)
    (unpack_error : List ℕ → Option PbErrorResp) (fuel self : ℕ) (cxn : Connection)
    (rich : IsRich cxn.config) where
  pub ping-Answers :
      (id : ℕ) (rest : List ℕ)
      → Answers read_cb by_ping unpack_error cxn.config tt none
          (message id rest)
          (some (record { success = true }))
          true
  unfolding ping_response_decode
  ping-Answers id rest rop so_far same h =
      bind_known _ (cfg_malloc-Grants (subst IsRich (sym same) rich) sizeof_ping_response h)
        λ g. returns refl

  -- A ping on a connection whose allocator always has memory, with a socket that takes the whole
  -- request and a server that answers exactly the five bytes of a ping with a whole message that is
  -- no error: riak_ping returns success.
  pub ping-answered :
      {taken : S → List ℕ}
      → IsSink write_cb taken
      → (io : S) {id : ℕ} {rest : List ℕ}
      → Replies read_cb taken (taken io ++ frame msg_rpbpingreq []) id rest
      → (h : Heap)
      → Returns
          (λ r g. r.0 ≡ eriak_ok)
          (ping read_cb write_cb unpack_error (suc fuel) self cxn io h)
  unfolding ping ping_end
  ping-answered sink io {id} {rest} replies h =
      Returns.bind
        (call-IsAnswered read_cb write_cb by_ping unpack_error fuel self rich sink
          {msg = ping_request} (record { within = omega arith; small = omega arith }) io
          (ping_request_encode tt) (ping_request-Encodes rich) h replies (ping-Answers id rest))
        λ r g answered.
          rw (answered.result, answered.response)
            (Returns.bind (free_if-Returns true g) λ _ k m. returns refl)

  -- A ping on a connection whose allocator always has memory, with a socket that takes the whole request and a server
  -- that closes the connection without an answer once it has the five bytes of a ping: riak_ping reads through the
  -- NULL response.
  pub ping-silent :
      {taken : S → List ℕ}
      → IsSink write_cb taken
      → (io : S) → Silence read_cb taken (taken io ++ frame msg_rpbpingreq [])
      → (h : Heap) → ping read_cb write_cb unpack_error (suc fuel) self cxn io h ≡ fault
  unfolding ping ping_end
  ping-silent sink io silence h =
      fault_after _
        (call-silent read_cb write_cb by_ping unpack_error fuel self rich sink {msg = ping_request}
          (record { within = omega arith; small = omega arith }) io (ping_request_encode tt)
          (ping_request-Encodes rich) h silence)
        λ r g answered. rw (answered.result, answered.response)
