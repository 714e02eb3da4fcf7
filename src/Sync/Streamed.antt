-- ===== src/Sync/Streamed.antt =====
-- A synchronous call of src/riak.c whose response comes in several messages: one call of riak_read
-- takes them all.
use mathlib.Core.Path.{subst}
use riak_c_client.Base.{
  ℕ, suc, ◌≡◌, refl, sym, ap, ◌∙◌, true, false, Option, none, some, List, [], ◌++◌, take,
}
use riak_c_client.Error.{RiakError, eriak_ok}
use riak_c_client.Memory.{Heap, Cmd, Config}
use riak_c_client.Memory.Returns
use riak_c_client.Memory.Returns.{Returns, returns}
use riak_c_client.Memory.Rich.{IsRich}
use riak_c_client.Connection.{Connection}
use riak_c_client.Binary.{cells}
use riak_c_client.Message.{PbMessage}
use riak_c_client.Operation.{Operation, get_config}
use riak_c_client.Operation.Lifetime.{free-owned}
use riak_c_client.ServerError.{PbErrorResp}
use riak_c_client.Wire.Read.{Reply, Reading, Decode, rounds, read, respond}
use riak_c_client.Wire.Message.{IsIdle, restart}
use riak_c_client.Wire.Send.{frame, CanSend, IsSink}
use riak_c_client.Wire.Decode.{message, at_decoder}
use riak_c_client.Wire.Stream.{Answers, taken}
use riak_c_client.Wire.Stream.Respond.{IsResponded, operation-Answers}
use riak_c_client.Sync.{receive, call}
use riak_c_client.Sync.Answer.{ArrivesWhole, round-ended}
use riak_c_client.Sync.Call.{IsReady, Encodes, IsAnswered, call-sent}

-- From the transport `io` come the messages of one response, each whole, no more of them than `bound`. The
-- decoder turns the response so far into the next one, and ends it at the last message.
pub data Coming {D R S : Type 0} (read_cb : S → ℕ → Reply × S) (decode : Decode D R)
    (unpack_error : List ℕ → Option PbErrorResp) (cfg : Config) (decoder : D) (final : Option R)
    : S → ℕ → Option R → Type 0 where
  last :
      {io io' : S} {id bound : ℕ} {rest : List ℕ} {before : Option R}
      → ArrivesWhole read_cb io io' id rest
      → Answers read_cb decode unpack_error cfg decoder before (message id rest) final true
      → Coming read_cb decode unpack_error cfg decoder final io (suc bound) before
  more :
      {io io' : S} {id bound : ℕ} {rest : List ℕ} {before after : Option R}
      → ArrivesWhole read_cb io io' id rest
      → Answers read_cb decode unpack_error cfg decoder before (message id rest) after false
      → Coming read_cb decode unpack_error cfg decoder final io' bound after
      → Coming read_cb decode unpack_error cfg decoder final io (suc bound) before

module _ {D R S : Type 0} (read_cb : S → ℕ → Reply × S) (decode : Decode D R)
    (unpack_error : List ℕ → Option PbErrorResp) where
  -- The rounds of one call, with as much fuel as there are messages.
  pub rounds-IsResponded :
      {cfg : Config} {decoder : D} {final before : Option R} {io : S} {fuel : ℕ}
      → Coming read_cb decode unpack_error cfg decoder final io fuel before
      → IsRich cfg
      → (s : Reading D R S) (h : Heap) → IsIdle s
      → s.rop.decoder ≡ some decoder
      → get_config s.rop ≡ cfg
      → s.io ≡ io
      → s.rop.response ≡ before
      → Returns
          (λ r g.
            (r.0 ≡ eriak_ok)
            × IsResponded (s.events ++ respond (record (s.rop) { response = final })) final r.1)
          (rounds read_cb decode unpack_error fuel (restart s) h)
  unfolding rounds
  rounds-IsResponded {decoder} {final} {fuel} (last {io'} {id} {bound} {rest} arrival answers) rich
        s h idle set same at so_far =
      let (g, run) =
        round-ended read_cb decode unpack_error bound idle set (subst IsRich (sym same) rich)
          (subst (λ x. ArrivesWhole read_cb x io' id rest) (sym at) arrival)
          (operation-Answers read_cb decode unpack_error bound s decoder same so_far answers) h in
      rw run (
        returns (
          refl,
          record {
            done = refl;
            response = refl;
            called = refl;
            idle = record { incomplete = refl; at_start = refl };
          },
        ))
  rounds-IsResponded {decoder} {final} {fuel}
        (more {io'} {id} {bound} {rest} {after} arrival answers coming) rich s h idle set same at
        so_far =
      let arrival' = subst (λ x. ArrivesWhole read_cb x io' id rest) (sym at) arrival in
      let (g, run) =
        round-ended read_cb decode unpack_error bound idle set (subst IsRich (sym same) rich)
          arrival'
          (operation-Answers read_cb decode unpack_error bound s decoder same so_far answers) h in
      let s' : Reading D R S =
        record (taken read_cb decode unpack_error (at_decoder s id rest arrival'.body_at io')
          after) { done = false } in
      rw run (
        rounds-IsResponded coming rich s' g (record { incomplete = refl; at_start = refl }) set same
          refl refl)

module _ {D R S : Type 0} (read_cb : S → ℕ → Reply × S) (write_cb : S → List ℕ → ℕ × S)
    (decode : Decode D R) (unpack_error : List ℕ → Option PbErrorResp) (fuel self : ℕ)
    {cxn : Connection} (rich : IsRich cxn.config) {msg : PbMessage} {decoder : D} where
  receive-streamed :
      (rop : Operation D R) (io' : S) (h : Heap) {final : Option R}
      → IsReady cxn msg decoder rop
      → Coming read_cb decode unpack_error cxn.config decoder final io' fuel none
      → Returns
          (λ r g. IsAnswered final r)
          (receive read_cb write_cb decode unpack_error fuel self rop io' h)
  unfolding receive read
  receive-streamed rop io' h {final} ready coming =
      Returns.bind
        (rounds-IsResponded read_cb decode unpack_error coming rich
          (record { rop = rop; done = false; io = io'; events = [] }) h
          (record { incomplete = ready.incomplete; at_start = ready.at_start }) ready.decodes
          (ap (λ c. c.config) ready.on) refl ready.new)
        λ (err, s) g (fine, responded). Returns.bind (free-owned s.rop g) λ _ k m. returns (record {
          result = fine;
          response = responded.response;
          no_calls =
              responded.called
              ∙ ap (λ cb. respond (record rop { response_cb = cb; response = final })) ready.silent;
        })

  -- A synchronous call on a connection whose allocator always has memory, with an encoder that
  -- succeeds and a socket that takes the whole request, to a server whose answer to exactly this
  -- request is one response in any number of messages up to `fuel`, each of which comes whole, and
  -- which the decoder ends at the last message and no sooner: riak_read takes all of them in its one
  -- call, and the synchronous call returns success with the response that the decoder has built up.
  pub call-streamed :
      {taken : S → List ℕ}
      → IsSink write_cb taken
      → CanSend msg
      → (io : S)
      → (encode : Operation D R → Cmd (RiakError × Operation D R)) (h : Heap) {final : Option R}
      → Encodes cxn msg decoder encode
      → ((io' : S)
          → taken io' ≡ taken io ++ frame msg.msgid (take msg.len (cells msg.body))
          → Coming read_cb decode unpack_error cxn.config decoder final io' fuel none)
      → Returns
          (λ r g. IsAnswered final r)
          (call read_cb write_cb decode unpack_error fuel self cxn encode io none h)
  call-streamed sink can io encode h encodes coming =
      call-sent read_cb write_cb decode unpack_error fuel self rich sink can io encode h encodes
        λ rop io' g ready took. receive-streamed rop io' g ready (coming io' took)
