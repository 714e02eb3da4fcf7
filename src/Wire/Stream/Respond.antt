-- ===== src/Wire/Stream/Respond.antt =====
-- A response of any number of messages through riak_read of src/riak.c, up to the user's callback.
use mathlib.Core.Path.{subst}
use riak_c_client.Base.{
  ℕ, suc, ◌+◌, ◌≡◌, refl, sym, ap, ◌∙◌, Bool, true, false, Option, some, List, [], ◌++◌,
}
use riak_c_client.Memory.{Heap, Config, and_then}
use riak_c_client.Memory.Returns.{Returns, returns}
use riak_c_client.Memory.Rich.{IsRich}
use riak_c_client.Message.{PbMessage}
use riak_c_client.Operation.{get_config}
use riak_c_client.ServerError.{PbErrorResp, Event}
use riak_c_client.Wire.Read.{Reply, got, Reading, Decode, respond}
use riak_c_client.Wire.Frame.{settle}
use riak_c_client.Wire.Message.{IsIdle}
use riak_c_client.Wire.Decode.{message, at_decoder}
use riak_c_client.Wire.Stream.{Answers, Arrives, events-add, settled, message-ended, later, taken}
use riak_c_client.Libevent.{result_cbs}

-- From the transport `io`, in `events` read events, come the messages of one response. Each follows
-- the one before it in an event of its own. The decoder turns the response so far into the next one,
-- and ends it at the last message, and no sooner.
pub data Stream {D R S : Type 0} (read_cb : S → ℕ → Reply × S) (decode : Decode D R)
    (unpack_error : List ℕ → Option PbErrorResp) (cfg : Config) (decoder : D) (final : Option R)
    : S → ℕ → Option R → Type 0 where
  last :
      {io io' : S} {id events : ℕ} {rest : List ℕ} {before : Option R}
      → Arrives read_cb io io' id rest events
      → Answers read_cb decode unpack_error cfg decoder before (message id rest) final true
      → Stream read_cb decode unpack_error cfg decoder final io (suc events) before
  more :
      {io io1 io2 : S} {id events then_events all : ℕ} {rest : List ℕ} {before after : Option R}
      → Arrives read_cb io io1 id rest events
      → read_cb io1 4 ≡ (got [], io2)
      → Answers read_cb decode unpack_error cfg decoder before (message id rest) after false
      → Stream read_cb decode unpack_error cfg decoder final io2 then_events after
      → all ≡ suc events + then_events
      → Stream read_cb decode unpack_error cfg decoder final io all before

-- The operation has its whole response and is idle again, and these are the calls of callbacks.
pub record IsResponded {D R S : Type 0} (calls : List (Event R)) (final : Option R)
    (s : Reading D R S) : Type 0 where
  pub done : s.done ≡ true
  pub response : s.rop.response ≡ final
  pub called : s.events ≡ calls
  pub idle : IsIdle s

module _ {D R S : Type 0} (read_cb : S → ℕ → Reply × S) (decode : Decode D R)
    (unpack_error : List ℕ → Option PbErrorResp) (fuel : ℕ) where
  -- The operation between two messages.
  abbrev next : Reading D R S → ℕ → List ℕ → S → S → S → Option R → Reading D R S
  next s id rest body_at io1 io2 after =
      record (taken read_cb decode unpack_error (at_decoder s id rest body_at io1) after) {
        done = false;
        io = io2;
      }

  pub operation-Answers :
      (s : Reading D R S) {cfg : Config} (decoder : D) {before after : Option R} {msg : PbMessage}
      {done : Bool}
      → get_config s.rop ≡ cfg
      → s.rop.response ≡ before
      → Answers read_cb decode unpack_error cfg decoder before msg after done
      → Answers read_cb decode unpack_error (get_config s.rop) decoder s.rop.response msg after done
  operation-Answers s decoder {after} {msg} {done} same so_far answers rop e e' =
      answers rop (e ∙ so_far) (e' ∙ same)

  -- The same, with what the stream depends on apart from the operation.
  from-IsResponded :
      {cfg : Config} {decoder : D} {final before : Option R} {io : S} {events : ℕ}
      → Stream read_cb decode unpack_error cfg decoder final io events before
      → IsRich cfg
      → (s : Reading D R S) (h : Heap) → IsIdle s
      → s.rop.decoder ≡ some decoder
      → get_config s.rop ≡ cfg
      → s.io ≡ io
      → s.rop.response ≡ before
      → Returns
          (λ s' g. IsResponded (s.events ++ respond (record (s.rop) { response = final })) final s')
          (result_cbs read_cb decode unpack_error (suc (suc fuel)) events s h)
  unfolding settle
  from-IsResponded {decoder} {final} (last {io'} {id} {events} {rest} arrival answers) rich s h idle
        set same at so_far =
      let (g, run) =
        message-ended read_cb decode unpack_error (suc fuel) idle set (subst IsRich (sym same) rich)
          (subst (λ x. Arrives read_cb x io' id rest events) (sym at) arrival)
          (operation-Answers s decoder same so_far answers) h in
      rw run (
        returns (record {
          done = refl;
          response = refl;
          called = refl;
          idle = record { incomplete = refl; at_start = refl };
        }))
  from-IsResponded {decoder} {final}
        (more {io1} {io2} {id} {events} {then_events} {rest} {after} arrival quiet answers stream
          total)
        rich s h idle set same at so_far =
      let arrival' = subst (λ x. Arrives read_cb x io1 id rest events) (sym at) arrival in
      let (g, run) =
        message-ended read_cb decode unpack_error (suc fuel) idle set (subst IsRich (sym same) rich)
          arrival' (operation-Answers s decoder same so_far answers) h in
      let s' = next s id rest arrival'.body_at io1 io2 after in
      let between =
        settled read_cb decode unpack_error fuel (at_decoder s id rest arrival'.body_at io1) after g
          (record { incomplete = refl; at_start = refl }) quiet in
      let all_events =
        ap (λ n. result_cbs read_cb decode unpack_error (suc (suc fuel)) n s h) total
        ∙ events-add read_cb decode unpack_error (suc (suc fuel)) events then_events s h
        ∙ ap (λ r. and_then r (later read_cb decode unpack_error (suc (suc fuel)) then_events))
            (run ∙ between) in
      subst
        (Returns (λ s' k.
          IsResponded (s.events ++ respond (record (s.rop) { response = final })) final s'))
        (sym all_events)
        (from-IsResponded stream rich s' g (record { incomplete = refl; at_start = refl }) set same
          refl refl)

  -- A response of any number of messages to an idle operation whose decoder is set, with an allocator
  -- that always has memory: every message comes in read events of its own, its length at once and
  -- its body cut in any way, and the decoder ends the response at the last message and no sooner.
  -- Then the calls of riak_read on these events return: the flag is set, the response is the one
  -- that the decoder has built up, the operation is idle again, and the user's callback has been
  -- called for it exactly once, and nothing else has been.
  pub Stream-IsResponded :
      (s : Reading D R S) {decoder : D} {final : Option R} {events : ℕ} (h : Heap)
      → IsIdle s
      → s.rop.decoder ≡ some decoder
      → IsRich (get_config s.rop)
      → Stream read_cb decode unpack_error
          (get_config s.rop)
          decoder
          final
          s.io
          events
          s.rop.response
      → Returns
          (λ s' g. IsResponded (s.events ++ respond (record (s.rop) { response = final })) final s')
          (result_cbs read_cb decode unpack_error (suc (suc fuel)) events s h)
  Stream-IsResponded s h idle set rich stream =
      from-IsResponded stream rich s h idle set refl refl refl
