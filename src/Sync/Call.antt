-- ===== src/Sync/Call.antt =====
-- A whole synchronous call of src/riak.c, from its encoder to its response.
use mathlib.Core.Path.{subst}
use riak_c_client.Base.{
  ℕ, suc, ◌≡◌, refl, sym, ap, ◌∙◌, true, false, Option, none, some, List, [], ◌++◌, take,
}
use riak_c_client.Error.{RiakError, eriak_ok}
use riak_c_client.Memory.{Heap, Cmd}
use riak_c_client.Memory.Returns
use riak_c_client.Memory.Returns.{Returns, returns}
use riak_c_client.Memory.Rich.{IsRich, bind_known, config_clean_allocate-Grants}
use riak_c_client.Connection.{Connection}
use riak_c_client.Binary.{cells}
use riak_c_client.Message.{PbMessage}
use riak_c_client.Operation
use riak_c_client.Operation.{Operation, fresh, sizeof_operation, set_cb_data, get_config}
use riak_c_client.Operation.Lifetime.{free-owned}
use riak_c_client.ServerError.{PbErrorResp}
use riak_c_client.Wire.Read.{Reply, got, Reading, Decode, read, respond}
use riak_c_client.Wire.Write.{write}
use riak_c_client.Wire.Send.{frame, CanSend, IsSink, write-frame}
use riak_c_client.Wire.Decode.{message}
use riak_c_client.Wire.Stream.{Answers, quiet}
use riak_c_client.Sync.{Synced, receive, sync_request, after_encode, with_operation, call}
use riak_c_client.Sync.Answer.{ArrivesWhole, read-answered}

-- A new operation, with memory for it.
new-Rich :
    {D R : Type 0} {cxn : Connection}
    → IsRich cxn.config
    → (h : Heap)
    → Returns
        (λ r g. r ≡ (eriak_ok, some (fresh {D = D} {R = R} cxn none none 0)))
        (Operation.new cxn none none 0 h)
unfolding Operation.new
new-Rich rich h =
    bind_known _ (config_clean_allocate-Grants rich sizeof_operation h) λ g. returns refl

-- What an encoder leaves: an operation on the connection with the message and the decoder, with no
-- callback, and with nothing read yet.
pub record IsReady {D R : Type 0} (cxn : Connection) (msg : PbMessage) (decoder : D)
    (rop : Operation D R) : Type 0 where
  pub on : rop.connection ≡ cxn
  pub sends : rop.pb_request ≡ some msg
  pub decodes : rop.decoder ≡ some decoder
  pub silent : rop.response_cb ≡ none
  pub new : rop.response ≡ none
  pub incomplete : rop.msglen_complete ≡ false
  pub at_start : rop.position ≡ 0

-- The encoder succeeds.
abbrev pub Encodes :
    {D R : Type 0}
    → Connection
    → PbMessage
    → D
    → (Operation D R → Cmd (RiakError × Operation D R))
    → Type 0
Encodes cxn msg decoder encode =
    (h : Heap)
    → Returns (λ r g. (r.0 ≡ eriak_ok) × IsReady cxn msg decoder r.1)
        (encode (fresh cxn none none 0) h)

-- The operation as `riak_sync_request` changes it.
self-IsReady :
    {D R : Type 0} {cxn : Connection} {msg : PbMessage} {decoder : D} {rop : Operation D R}
    (self : ℕ)
    → IsReady cxn msg decoder rop
    → IsReady cxn msg decoder (set_cb_data rop self)
self-IsReady self ready = record {
  on = ready.on;
  sends = ready.sends;
  decodes = ready.decodes;
  silent = ready.silent;
  new = ready.new;
  incomplete = ready.incomplete;
  at_start = ready.at_start;
}

-- Once the request has been taken, the server's answer comes whole.
pub record Replies {S : Type 0} (read_cb : S → ℕ → Reply × S) (taken : S → List ℕ) (sent : List ℕ)
    (id : ℕ) (rest : List ℕ) : Type 0 where
  pub afterwards : S → S
  pub arrives : (io : S) → taken io ≡ sent → ArrivesWhole read_cb io (afterwards io) id rest

-- Once the request has been taken, the end of the input comes, as 0 bytes.
abbrev pub Silence : {S : Type 0} → (S → ℕ → Reply × S) → (S → List ℕ) → List ℕ → Type 0
Silence {S} read_cb taken sent =
    (io : S) → taken io ≡ sent → (io' : S) × (read_cb io 4 ≡ (got [], io'))

-- A call that has succeeded with this response, and called no callback.
pub record IsAnswered {R S : Type 0} (final : Option R) (r : Synced R S) : Type 0 where
  pub result : r.result ≡ eriak_ok
  pub response : r.response ≡ final
  pub no_calls : r.events ≡ []

module _ {D R S : Type 0} (read_cb : S → ℕ → Reply × S) (write_cb : S → List ℕ → ℕ × S)
    (decode : Decode D R) (unpack_error : List ℕ → Option PbErrorResp) (fuel self : ℕ)
    {cxn : Connection} (rich : IsRich cxn.config) {taken : S → List ℕ}
    (sink : IsSink write_cb taken) {msg : PbMessage} (can : CanSend msg) (io : S)
    {decoder : D} where
  -- All of the call but the reading: the request goes out.
  pub call-sent :
      {Post : Synced R S → Heap → Type 0} (encode : Operation D R → Cmd (RiakError × Operation D R))
      (h : Heap)
      → Encodes cxn msg decoder encode
      → ((rop : Operation D R) (io' : S) (g : Heap)
          → IsReady cxn msg decoder rop
          → taken io' ≡ taken io ++ frame msg.msgid (take msg.len (cells msg.body))
          → Returns Post (receive read_cb write_cb decode unpack_error fuel self rop io' g))
      → Returns Post (call read_cb write_cb decode unpack_error fuel self cxn encode io none h)
  unfolding call with_operation after_encode sync_request
  call-sent encode h encodes receives = bind_known _ (new-Rich rich h) λ g.
      Returns.bind (encodes g) λ (err, rop) k (fine, ready).
        let (io', run, took) = write-frame write_cb sink msg can io in
        rw (fine, after_encode, sync_request, ap (λ m. write write_cb m io) ready.sends ∙ run)
          (receives (set_cb_data rop self) io' k (self-IsReady self ready) took)

module _ {D R S : Type 0} (read_cb : S → ℕ → Reply × S) (write_cb : S → List ℕ → ℕ × S)
    (decode : Decode D R) (unpack_error : List ℕ → Option PbErrorResp) (fuel self : ℕ)
    {cxn : Connection} {msg : PbMessage} {decoder : D} (rop : Operation D R) (io' : S) (h : Heap)
    (ready : IsReady cxn msg decoder rop) where
  receive-IsAnswered :
      {io'' : S} {id : ℕ} {rest : List ℕ} {final : Option R}
      → IsRich cxn.config
      → ArrivesWhole read_cb io' io'' id rest
      → Answers read_cb decode unpack_error cxn.config decoder none (message id rest) final true
      → Returns
          (λ r g. IsAnswered final r)
          (receive read_cb write_cb decode unpack_error (suc fuel) self rop io' h)
  unfolding receive
  receive-IsAnswered {final} rich arrival answers =
      bind_known _
        (read-answered read_cb decode unpack_error fuel {s = waiting}
          (record { incomplete = ready.incomplete; at_start = ready.at_start }) ready.decodes
          (subst (λ c. IsRich c.config) (sym ready.on) rich) arrival
          (λ rop' so_far same.
            answers rop' (so_far ∙ ready.new) (same ∙ ap (λ c. c.config) ready.on))
          h)
        λ g. Returns.bind (free-owned _ g) λ _ k m. returns (record {
          result = refl;
          response = refl;
          no_calls =
              ap (λ cb. respond (record rop { response_cb = cb; response = final })) ready.silent;
        })
    where
      waiting : Reading D R S
      waiting = record { rop = rop; done = false; io = io'; events = [] }

  -- A server that closes the connection instead of answering.
  receive-silent :
      {io'' : S}
      → read_cb io' 4 ≡ (got [], io'')
      → Returns
          (λ r g. IsAnswered none r)
          (receive read_cb write_cb decode unpack_error (suc fuel) self rop io' h)
  unfolding receive read
  receive-silent silence =
      rw
        (quiet read_cb decode unpack_error fuel
          (record { rop = rop; done = false; io = io'; events = [] }) h
          (record { incomplete = ready.incomplete; at_start = ready.at_start }) silence)
        (Returns.bind (free-owned rop h)
          λ _ k m. returns (record { result = refl; response = ready.new; no_calls = refl }))

module _ {D R S : Type 0} (read_cb : S → ℕ → Reply × S) (write_cb : S → List ℕ → ℕ × S)
    (decode : Decode D R) (unpack_error : List ℕ → Option PbErrorResp) (fuel self : ℕ)
    {cxn : Connection} (rich : IsRich cxn.config) {taken : S → List ℕ}
    (sink : IsSink write_cb taken) {msg : PbMessage} (can : CanSend msg) (io : S) {decoder : D}
    (encode : Operation D R → Cmd (RiakError × Operation D R))
    (encodes : Encodes cxn msg decoder encode) (h : Heap) where
  -- A synchronous call on a connection whose allocator always has memory, with an encoder that
  -- succeeds, a socket that takes the whole request, a server whose answer to exactly this request
  -- comes whole, and a decoder that ends the response with it: the call returns success with the
  -- response that the decoder has built, and calls no callback.
  pub call-IsAnswered :
      {id : ℕ} {rest : List ℕ} {final : Option R}
      → Replies read_cb taken (taken io ++ frame msg.msgid (take msg.len (cells msg.body))) id rest
      → Answers read_cb decode unpack_error cxn.config decoder none (message id rest) final true
      → Returns
          (λ r g. IsAnswered final r)
          (call read_cb write_cb decode unpack_error (suc fuel) self cxn encode io none h)
  call-IsAnswered replies answers =
      call-sent read_cb write_cb decode unpack_error (suc fuel) self rich sink can io encode h
        encodes
        λ rop io' g ready took.
          receive-IsAnswered read_cb write_cb decode unpack_error fuel self rop io' g ready rich
            (replies.arrives io' took) answers

  -- A synchronous call on a connection whose allocator always has memory, with an encoder that succeeds, a socket
  -- that takes the whole request, and a server that closes the connection without an answer once it has exactly this
  -- request: the call returns success all the same, with no response, and calls no callback.
  pub call-silent :
      Silence read_cb taken (taken io ++ frame msg.msgid (take msg.len (cells msg.body)))
      → Returns
          (λ r g. IsAnswered none r)
          (call read_cb write_cb decode unpack_error (suc fuel) self cxn encode io none h)
  call-silent silence =
      call-sent read_cb write_cb decode unpack_error (suc fuel) self rich sink can io encode h
        encodes
        λ rop io' g ready took.
          receive-silent read_cb write_cb decode unpack_error fuel self rop io' g ready
            ((silence io' took).1)
