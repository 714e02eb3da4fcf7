-- ===== src/Wire/Stream.antt =====
-- A response of several messages through riak_read of src/riak.c and riak_libevent_result_cb of
-- src/adapters/riak_libevent.h.
pub mod Respond
mod Tests
use mathlib.Core.Path.{subst}
use riak_c_client.Base.{
  ℕ, zero, suc, ◌+◌, ◌-◌, ◌%◌, ◌^◌, ◌≤◌, ◌<◌, ◌≡◌, ◌≢◌, refl, sym, ap, ◌∙◌, Bool, true, false,
  Option, none, some, List, [], ◌∷◌, ◌++◌, arith, length, take, sub64, write_run, ◌==◌, ltb, not,
  is_some, if◌then◌else◌,
}
use riak_c_client.Error.{RiakError, eriak_ok, failed}
use riak_c_client.Memory.{
  Heap, Run, ok, fault, out_of_fuel, Cmd, and_then, pure, value, ◌>>=◌, Config, config_allocate,
  config_clean_allocate, free_if,
}
use riak_c_client.Memory.Returns
use riak_c_client.Memory.Returns.{Returns, returns, free_if-Returns}
use riak_c_client.Memory.Rich.{
  IsRich, Grants, bind_known, config_allocate-Grants, config_clean_allocate-Grants,
}
use riak_c_client.Message.{PbMessage, sizeof_pb_message}
use riak_c_client.Operation.{Operation, get_config}
use riak_c_client.ServerError.{PbErrorResp, Event}
use riak_c_client.Wire.Header.{net_bytes, host_bytes}
use riak_c_client.Wire.Read.{
  Reply, got, Reading, Round, again, return, Decode, DecodeResult, deliver_decoded, decoded,
  respond, reset, read, read_body, read_header, take_header, after_header, then_body, round, rounds,
}
use riak_c_client.Wire.Body.{arrived}
use riak_c_client.Wire.Frame.{Cut, settle, round_incomplete}
use riak_c_client.Wire.Message.{IsIdle, begun}
use riak_c_client.Wire.Decode.{message, at_decoder, message-decoded}
use riak_c_client.Libevent.{result_cbs}

-- A run that returns ends with some result and heap.
pub ends :
    {A : Type 0} {a : A} {run : Run A} → Returns (λ r g. r ≡ a) run → (g : Heap) × (run ≡ ok a g)
ends (returns {after = g} e) = (g, ap (λ r. ok r g) e)

module _ {D R S : Type 0} (read_cb : S → ℕ → Reply × S) (decode : Decode D R)
    (unpack_error : List ℕ → Option PbErrorResp) where
  -- What the events after the first ones do, by the flag.
  abbrev pub later_at : Bool → ℕ → ℕ → Reading D R S → Cmd (Reading D R S)
  later_at done fuel events s = elim done [
    | true ↦ pure s
    | false ↦ result_cbs read_cb decode unpack_error fuel events s
  ]

  abbrev pub later : ℕ → ℕ → Reading D R S → Cmd (Reading D R S)
  later fuel events s = later_at s.done fuel events s

  later_events :
      (fuel m n : ℕ) (r : Run (RiakError × Reading D R S))
      → ((s : Reading D R S) (h : Heap)
          → later fuel (m + n) s h ≡ and_then (later fuel m s h) (later fuel n))
      → and_then r (λ (err, s). later fuel (m + n) s)
        ≡ and_then (and_then r (λ (err, s). later fuel m s)) (later fuel n)
  later_events fuel m n (ok (err, s) h) step = step s h
  later_events fuel m n fault step = refl
  later_events fuel m n out_of_fuel step = refl

  later-add :
      (fuel m n : ℕ) (b : Bool) (s : Reading D R S) (h : Heap)
      → s.done ≡ b
      → later_at b fuel (m + n) s h ≡ and_then (later_at b fuel m s h) (later fuel n)
  unfolding result_cbs
  later-add fuel m n true s h e = sym (ap (λ b. later_at b fuel n s h) e)
  later-add fuel zero n false s h e =
      let count : 0 + n ≡ n = omega arith in
      ap (λ k. result_cbs read_cb decode unpack_error fuel k s h) count
      ∙ sym (ap (λ b. later_at b fuel n s h) e)
  later-add fuel (suc m) n false s h e =
      let count : suc m + n ≡ suc (m + n) = omega arith in
      ap (λ k. result_cbs read_cb decode unpack_error fuel k s h) count
      ∙ later_events fuel m n (read read_cb decode unpack_error fuel s h)
          (λ s' g. later-add fuel m n s'.done s' g refl)

  -- Events come one after the other.
  pub events-add :
      (fuel m n : ℕ) (s : Reading D R S) (h : Heap)
      → result_cbs read_cb decode unpack_error fuel (suc m + n) s h
        ≡ and_then (result_cbs read_cb decode unpack_error fuel (suc m) s h) (later fuel n)
  unfolding result_cbs
  events-add fuel m n s h =
      let count : suc m + n ≡ suc (m + n) = omega arith in
      ap (λ k. result_cbs read_cb decode unpack_error fuel k s h) count
      ∙ later_events fuel m n (read read_cb decode unpack_error fuel s h)
          (λ s' g. later-add fuel m n s'.done s' g refl)

  -- The decoder's answer to a message that comes after the response `before`.
  abbrev pub Answers : Config → D → Option R → PbMessage → Option R → Bool → Type 0
  Answers cfg decoder before msg after done =
      (rop : Operation D R)
      → rop.response ≡ before
      → get_config rop ≡ cfg
      → (h : Heap)
      → Returns (λ r g. r ≡ record { result = eriak_ok; response = after; done = done })
          (decode decoder rop (some msg) true h)

  -- What a round ends with after a message that the decoder has taken.
  abbrev pub taken : Reading D R S → Option R → Reading D R S
  taken s after = record s { rop = record (s.rop) { response = after; msgbuf = none } }

  -- The reading after the last message, the user's callback called.
  abbrev pub finished : Reading D R S → Option R → Reading D R S
  finished s after =
      let s' = record (taken s after) { done = true } in
      record s' { events = s.events ++ respond s'.rop }

  abbrev pub ended : Reading D R S → Option R → Bool → Round D R S
  ended s after true = return eriak_ok (finished s after)
  ended s after false = again (record (taken s after) { done = false })

  decoded-ended :
      (s : Reading D R S) (after : Option R) (done : Bool) (h : Heap)
      → decoded read_cb decode unpack_error s
          (record { result = eriak_ok; response = after; done = done })
          h
        ≡ ok (ended s after done) h
  unfolding decoded
  decoded-ended s after true h = refl
  decoded-ended s after false h = refl

  pub deliver-ended :
      (s : Reading D R S) (decoder : D) (msg : PbMessage) {after : Option R} {done : Bool}
      (h : Heap)
      → Answers (get_config s.rop) decoder s.rop.response msg after done
      → Returns
          (λ r g. r ≡ ended s after done)
          (deliver_decoded read_cb decode unpack_error s decoder (some msg) h)
  unfolding deliver_decoded
  deliver-ended s decoder msg {after} {done} h answers =
      bind_known _ (answers s.rop refl refl h) λ g. Returns.bind (free_if-Returns true g) λ _ k m.
        Returns.bind (free_if-Returns (is_some s.rop.msgbuf) k) λ _ l n.
          subst (Returns (λ r g. r ≡ ended s after done)) (sym (decoded-ended s after done l))
            (returns refl)

  -- A read for a length that brings nothing.
  pub nothing_read :
      (s : Reading D R S) {io' : S} (h : Heap)
      → IsIdle s
      → read_cb s.io 4 ≡ (got [], io')
      → read_header read_cb decode unpack_error s h ≡ ok (return eriak_ok (record s { io = io' })) h
  unfolding read_header take_header after_header host_bytes
  nothing_read s {io'} h idle nothing =
      let asked : sub64 4 s.rop.position ≡ 4 = omega (arith, idle.at_start) in
      ap (λ n. take_header read_cb decode unpack_error s n (read_cb s.io n) h) asked
      ∙ ap (λ r. take_header read_cb decode unpack_error s 4 r h) nothing
      ∙ ap
          (λ p. and_then (value (write_run (host_bytes s.rop.msglen) p []) h) (λ inmsglen.
            after_header read_cb decode unpack_error (record s { io = io' }) inmsglen 4 0))
          idle.at_start

  -- It ends the call.
  pub quiet :
      (fuel : ℕ) (s : Reading D R S) {io' : S} (h : Heap)
      → IsIdle s
      → read_cb s.io 4 ≡ (got [], io')
      → rounds read_cb decode unpack_error (suc fuel) s h ≡ ok (eriak_ok, record s { io = io' }) h
  unfolding rounds then_body
  quiet fuel s {io'} h idle nothing =
      let end : Run (Round D R S) → Run (RiakError × Reading D R S) = λ r. and_then r λ r'.
        elim r' [
          | return err s' ↦ pure (err, s')
          | again s' ↦ rounds read_cb decode unpack_error fuel s'
        ] in
      ap end (
        round_incomplete read_cb decode unpack_error s h idle.incomplete
        ∙ ap (λ r. and_then r (then_body read_cb decode unpack_error))
            (nothing_read s h idle nothing))

  -- What the call does with the end of a round.
  pub settled :
      (fuel : ℕ) (s : Reading D R S) {io' : S} (after : Option R) (h : Heap)
      → IsIdle s
      → read_cb s.io 4 ≡ (got [], io')
      → settle read_cb decode unpack_error (suc fuel) (ok (ended s after false) h)
        ≡ ok (record (taken s after) { done = false; io = io' }) h
  unfolding settle
  settled fuel s {io'} after h idle nothing =
      ap (λ r. and_then r λ (err, s'). pure s')
        (quiet fuel (record (taken s after) { done = false }) h
          (record { incomplete = idle.incomplete; at_start = idle.at_start }) nothing)

-- From the transport `io` to `io'` a message arrives: its length at once, then its body in `events`
-- short reads and one that completes it.
pub record Arrives {S : Type 0} (read_cb : S → ℕ → Reply × S) (io io' : S) (id : ℕ) (rest : List ℕ)
    (events : ℕ) : Type 0 where
  pub body_at : S
  pub byte : id < 256
  pub not_error : id ≢ 0
  pub small : suc (length rest) < 2 ^ 32
  pub length_read : read_cb io 4 ≡ (got (net_bytes (suc (length rest))), body_at)
  pub body_read : Cut read_cb io' body_at (suc (length rest)) events (id ∷ rest)

module _ {D R S : Type 0} (read_cb : S → ℕ → Reply × S) (decode : Decode D R)
    (unpack_error : List ℕ → Option PbErrorResp) (fuel : ℕ) {s : Reading D R S} {decoder : D}
    (idle : IsIdle s) (set : s.rop.decoder ≡ some decoder) (rich : IsRich (get_config s.rop))
    {id events : ℕ} {rest : List ℕ} {io' : S} (arrival : Arrives read_cb s.io io' id rest events)
    {after : Option R} {done : Bool}
    (answers : Answers read_cb decode unpack_error
      (get_config s.rop)
      decoder
      s.rop.response
      (message id rest)
      after
      done)
    (h : Heap) where
  -- The events of a message end with what its last round does.
  pub message-ended :
      (g : Heap) × (result_cbs read_cb decode unpack_error (suc fuel) (suc events) s h
        ≡ settle read_cb decode unpack_error fuel (
            ok
              (ended read_cb decode unpack_error
                (at_decoder s id rest arrival.body_at io')
                after
                done)
              g))
  message-ended =
      let (g, buffer_room) = ends (config_allocate-Grants rich (suc (length rest)) h) in
      let (k, record_room) = ends (config_clean_allocate-Grants rich sizeof_pb_message g) in
      let (l, delivered) = ends (
        deliver-ended read_cb decode unpack_error (at_decoder s id rest arrival.body_at io') decoder
          (message id rest) k answers) in
      (
        l,
        message-decoded read_cb decode unpack_error fuel s id rest h g k idle set arrival.byte
              arrival.not_error arrival.small arrival.length_read arrival.body_read buffer_room
              record_room
            ∙ ap (settle read_cb decode unpack_error fuel) delivered,
      )
