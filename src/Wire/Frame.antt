-- ===== src/Wire/Frame.antt =====
-- A message's body through riak_read of src/riak.c, cut into read events.
use riak_c_client.Base.{
  ℕ, zero, suc, ◌+◌, ◌-◌, ◌<◌, ◌≡◌, refl, sym, ap, ◌∙◌, Bool, true, false, Option, List, ◌++◌,
  arith, length, length-append, append_assoc, if◌then◌else◌,
}
use riak_c_client.Error.{RiakError, eriak_ok}
use riak_c_client.Memory.{Heap, Run, ok, fault, out_of_fuel, Cmd, and_then, pure, ◌>>=◌}
use riak_c_client.ServerError.{PbErrorResp}
use riak_c_client.Wire.Read.{
  Reply, got, Reading, Round, again, return, Decode, read_body, read_header, deliver, round, rounds,
  read, then_body,
}
use riak_c_client.Wire.Body.{IsMidBody, arrived, body_more, body_last}
use riak_c_client.Libevent.{result_cbs}

-- From the transport `io`, reads for the last `left` bytes of a body are answered by `events` short
-- reads and one that completes it; `bytes` is all that they hand out.
pub data Cut {S : Type 0} (read_cb : S → ℕ → Reply × S) (io' : S)
    : S → ℕ → ℕ → List ℕ → Type 0 where
  last :
      {io : S} {left : ℕ} {bytes : List ℕ}
      → read_cb io left ≡ (got bytes, io')
      → length bytes ≡ left
      → Cut read_cb io' io left zero bytes
  more :
      {io io1 : S} {left then_left events : ℕ} {bytes rest all : List ℕ}
      → read_cb io left ≡ (got bytes, io1)
      → then_left + length bytes ≡ left
      → 0 < then_left
      → all ≡ bytes ++ rest
      → Cut read_cb io' io1 then_left events rest
      → Cut read_cb io' io left (suc events) all

module _ {D R S : Type 0} (read_cb : S → ℕ → Reply × S) (decode : Decode D R)
    (unpack_error : List ℕ → Option PbErrorResp) where
  -- A round on an operation that has no length yet.
  pub round_incomplete :
      (s : Reading D R S) (h : Heap)
      → s.rop.msglen_complete ≡ false
      → round read_cb decode unpack_error s h
        ≡ and_then
            (read_header read_cb decode unpack_error s h)
            (then_body read_cb decode unpack_error)
  unfolding round
  round_incomplete s h incomplete =
      ap
        (λ (b : Bool).
          (if b then read_body read_cb decode unpack_error s else (do
            r ← read_header read_cb decode unpack_error s
            then_body read_cb decode unpack_error r))
            h)
        incomplete

module _ {D R S : Type 0} (read_cb : S → ℕ → Reply × S) (decode : Decode D R)
    (unpack_error : List ℕ → Option PbErrorResp) (fuel : ℕ) where
  -- What a call of riak_read does with the end of a round.
  unfoldable pub settle : Run (Round D R S) → Run (Reading D R S)
  settle r = and_then r λ end. elim end [
    | return err s ↦ pure s
    | again s ↦ λ h. and_then (rounds read_cb decode unpack_error fuel s h) λ (err, s'). pure s'
  ]

  -- With no event after it, a call's result is the same whether its flag ends the response or not.
  abbrev stop_or_go : RiakError × Reading D R S → Cmd (Reading D R S)
  stop_or_go (err, s) = elim (s.done) [ true ↦ pure s | false ↦ pure s ]

  stop_or_go-pure :
      (b : Bool) (s : Reading D R S) (h : Heap)
      → (elim b as (λ x. Cmd (Reading D R S)) [ true ↦ pure s | false ↦ pure s ]) h ≡ ok s h
  stop_or_go-pure true s h = refl
  stop_or_go-pure false s h = refl

  settle_call :
      (r : Run (RiakError × Reading D R S))
      → and_then r stop_or_go ≡ and_then r (λ (err, s). pure s)
  settle_call (ok (err, s) h) = stop_or_go-pure s.done s h
  settle_call fault = refl
  settle_call out_of_fuel = refl

  -- The rest of a call of riak_read after its first round.
  abbrev pub rest_of_call : Round D R S → Cmd (RiakError × Reading D R S)
  rest_of_call end = elim end [
    | return err s ↦ pure (err, s)
    | again s ↦ rounds read_cb decode unpack_error fuel s
  ]

  settle_round : (r : Run (Round D R S)) → and_then (and_then r rest_of_call) stop_or_go ≡ settle r
  unfolding settle
  settle_round (ok (return err s) h) = stop_or_go-pure s.done s h
  settle_round (ok (again s) h) = settle_call (rounds read_cb decode unpack_error fuel s h)
  settle_round fault = refl
  settle_round out_of_fuel = refl

  pub round_complete :
      (s : Reading D R S) (h : Heap)
      → s.rop.msglen_complete ≡ true
      → round read_cb decode unpack_error s h ≡ read_body read_cb decode unpack_error s h
  unfolding round
  round_complete s h complete =
      ap (λ (b : Bool). (if b then read_body read_cb decode unpack_error s else header_first s) h)
        complete
    where
      header_first : Reading D R S → Cmd (Round D R S)
      header_first s = do
        r ← read_header read_cb decode unpack_error s
        then_body read_cb decode unpack_error r

  -- One event on an operation in the middle of a body.
  event_settle :
      (s : Reading D R S) (h : Heap)
      → s.rop.msglen_complete ≡ true
      → result_cbs read_cb decode unpack_error (suc fuel) 1 s h
        ≡ settle (read_body read_cb decode unpack_error (record s { done = false }) h)
  unfolding result_cbs read rounds
  event_settle s h complete =
      settle_round (round read_cb decode unpack_error (record s { done = false }) h)
      ∙ ap settle (round_complete (record s { done = false }) h complete)

  -- What follows a call of riak_read when more events may come.
  abbrev pub next_event : ℕ → RiakError × Reading D R S → Cmd (Reading D R S)
  next_event events (err, s) = elim (s.done) [
    | true ↦ pure s
    | false ↦ result_cbs read_cb decode unpack_error (suc fuel) events s
  ]

  -- The same, where the read leaves bytes to come.
  event_more :
      (s s' : Reading D R S) (events : ℕ) (h : Heap)
      → s.rop.msglen_complete ≡ true
      → s'.done ≡ false
      → read_body read_cb decode unpack_error (record s { done = false }) h
        ≡ ok (return eriak_ok s') h
      → result_cbs read_cb decode unpack_error (suc fuel) (suc events) s h
        ≡ result_cbs read_cb decode unpack_error (suc fuel) events s' h
  unfolding result_cbs read rounds
  event_more s s' events h complete going run =
      ap (λ r. and_then (and_then r rest_of_call) (next_event events))
        (round_complete (record s { done = false }) h complete ∙ run)
      ∙ ap
          (λ (b : Bool).
            (elim b as (λ x. Cmd (Reading D R S)) [
              | true ↦ pure s'
              | false ↦ result_cbs read_cb decode unpack_error (suc fuel) events s'
            ])
              h)
          going

  restarted :
      {s : Reading D R S} {buf part : List ℕ}
      → IsMidBody s buf part
      → IsMidBody (record s { done = false }) buf part
  restarted mid = record {
    buffer = mid.buffer;
    complete = mid.complete;
    whole = mid.whole;
    small = mid.small;
    at_part = mid.at_part;
    partial_len = mid.partial_len;
    read_so_far = mid.read_so_far;
  }

  -- However the transport cuts the rest of a body into events, the call of riak_read for the last
  -- of them goes on with the whole body in the buffer, as if it had come at once.
  pub Cut-arrived :
      {io' : S} {s : Reading D R S} {buf part : List ℕ} {left events : ℕ} {bytes : List ℕ}
      (h : Heap)
      → IsMidBody s buf part
      → left + length part ≡ s.rop.msglen
      → Cut read_cb io' s.io left events bytes
      → result_cbs read_cb decode unpack_error (suc fuel) (suc events) s h
        ≡ settle (deliver read_cb decode unpack_error (arrived s (part ++ bytes) io') h)
  Cut-arrived {s} {part} h mid e (last {left} {bytes} answer fits) =
      let want : left ≡ s.rop.msglen - length part = omega arith in
      event_settle s h mid.complete
      ∙ ap settle (
          body_last read_cb decode unpack_error (restarted mid) bytes
            (ap (read_cb s.io) (sym want) ∙ answer) h (omega arith))
  Cut-arrived {io'} {s} {buf} {part} h mid e
        (more {left} {then_left} {bytes} {rest} answer fits pos all cut) =
      let want : left ≡ s.rop.msglen - length part = omega arith in
      let (run, mid') =
        body_more read_cb decode unpack_error (restarted mid) bytes
          (ap (read_cb s.io) (sym want) ∙ answer) h (omega arith) in
      event_more s _ _ h mid.complete refl run
      ∙ Cut-arrived h mid' (omega (arith, length-append part bytes)) cut
      ∙ ap (λ b. settle (deliver read_cb decode unpack_error (arrived s b io') h))
          (append_assoc part bytes rest ∙ ap (λ r. part ++ r) (sym all))
