-- ===== src/Wire/Message.antt =====
-- A whole response through riak_read of src/riak.c, from an idle operation to its decoder.
use riak_c_client.Base.{
  ℕ, suc, ◌^◌, ◌<◌, ◌≡◌, refl, ap, ◌∙◌, true, false, Option, some, List, [], arith, length, take,
  sub64, replicate, length-replicate,
}
use riak_c_client.Memory.{Heap, ok, and_then, value, config_allocate}
use riak_c_client.Operation.{get_config}
use riak_c_client.ServerError.{PbErrorResp}
use riak_c_client.Wire.Header.{
  net_bytes, ntohl-host_u32-net_bytes, length-net_bytes, write_run-host_bytes,
}
use riak_c_client.Wire.Read.{
  Reply, got, Reading, again, Decode, read_header, after_header, start_body, take_header, deliver,
  round, rounds, read, header_done, then_body,
}
use riak_c_client.Wire.Body.{IsMidBody, arrived}
use riak_c_client.Wire.Frame.{Cut, settle, Cut-arrived, rest_of_call, next_event, round_incomplete}
use riak_c_client.Libevent.{result_cbs}

-- The operation waits for a new message, of which it has read nothing.
pub record IsIdle {D R S : Type 0} (s : Reading D R S) : Type 0 where
  pub incomplete : s.rop.msglen_complete ≡ false
  pub at_start : s.rop.position ≡ 0

module _ {D R S : Type 0} where
  -- The operation with the length of its message and an empty buffer.
  abbrev pub begun : Reading D R S → ℕ → S → Reading D R S
  begun s len io = record s { rop = header_done s.rop len (some (replicate len 0)); io = io }

  pub begun-IsMidBody :
      (s : Reading D R S) (len : ℕ) (io : S)
      → IsIdle s
      → 0 < len
      → len < 2 ^ 32
      → IsMidBody (begun s len io) (replicate len 0) []
  begun-IsMidBody s len io idle pos small = record {
    buffer = refl;
    complete = refl;
    whole = length-replicate {A = ℕ} len 0;
    small = small;
    at_part = idle.at_start;
    partial_len = pos;
    read_so_far = ap (λ n. take n (replicate len 0)) idle.at_start;
  }

module _ {D R S : Type 0} (read_cb : S → ℕ → Reply × S) (decode : Decode D R)
    (unpack_error : List ℕ → Option PbErrorResp) (s : Reading D R S) (idle : IsIdle s) (len : ℕ)
    (small : len < 2 ^ 32) {io1 : S} (answer : read_cb s.io 4 ≡ (got (net_bytes len), io1))
    (h g : Heap) (room : config_allocate (some (get_config s.rop)) len h ≡ ok true g) where
  stored :
      take_header read_cb decode unpack_error s 4 (got (net_bytes len), io1) h
      ≡ after_header read_cb decode unpack_error (record s { io = io1 }) (net_bytes len) 4 4 h
  unfolding take_header
  stored =
      ap
        (λ o. and_then (value o h) λ inmsglen.
          after_header read_cb decode unpack_error (record s { io = io1 }) inmsglen 4
            (length (net_bytes len)))
        (write_run-host_bytes s.rop.msglen s.rop.position len idle.at_start)
      ∙ ap
          (λ n.
            after_header read_cb decode unpack_error (record s { io = io1 }) (net_bytes len) 4 n h)
          (length-net_bytes len)

  -- The four bytes of the length, read at once.
  header_whole : read_header read_cb decode unpack_error s h ≡ ok (again (begun s len io1)) g
  unfolding read_header after_header start_body
  header_whole =
      let asked : sub64 4 s.rop.position ≡ 4 = omega (arith, idle.at_start) in
      ap (λ n. take_header read_cb decode unpack_error s n (read_cb s.io n) h) asked
      ∙ ap (λ r. take_header read_cb decode unpack_error s 4 r h) answer
      ∙ stored
      ∙ ap (λ n. start_body read_cb decode unpack_error (record s { io = io1 }) n h)
          (ntohl-host_u32-net_bytes len small)
      ∙ rw room

  -- A round on an idle operation goes on as one on an operation with its header.
  pub round-begun :
      round read_cb decode unpack_error s h ≡ round read_cb decode unpack_error (begun s len io1) g
  unfolding then_body
  round-begun =
      round_incomplete read_cb decode unpack_error s h idle.incomplete
      ∙ ap (λ r. and_then r (then_body read_cb decode unpack_error)) header_whole
      ∙ (unfold round in refl)

-- A call of riak_read has just begun.
abbrev pub restart : {D R S : Type 0} → Reading D R S → Reading D R S
restart s = record s { done = false }

module _ {D R S : Type 0} (read_cb : S → ℕ → Reply × S) (decode : Decode D R)
    (unpack_error : List ℕ → Option PbErrorResp) (s : Reading D R S) (idle : IsIdle s) (len : ℕ)
    (small : len < 2 ^ 32) {io1 : S} (answer : read_cb s.io 4 ≡ (got (net_bytes len), io1))
    (h g : Heap) (room : config_allocate (some (get_config s.rop)) len h ≡ ok true g)
    (fuel : ℕ) where
  restarted : IsIdle (restart s)
  restarted = record { incomplete = idle.incomplete; at_start = idle.at_start }

  -- The first event brings the length and the first bytes of the body.
  events-begun :
      (events : ℕ)
      → result_cbs read_cb decode unpack_error (suc fuel) (suc events) s h
        ≡ result_cbs read_cb decode unpack_error (suc fuel) (suc events) (begun s len io1) g
  unfolding result_cbs read rounds
  events-begun events =
      ap
        (λ r.
          and_then (and_then r (rest_of_call read_cb decode unpack_error fuel))
            (next_event read_cb decode unpack_error fuel events))
        (round-begun read_cb decode unpack_error (restart s) restarted len small answer h g room)

  -- A message of `len` bytes, its length read at once and its body cut into events in any way, is
  -- handed on whole by the last of these events.
  pub message-arrived :
      {events : ℕ} {body : List ℕ} {io2 : S}
      → 0 < len
      → Cut read_cb io2 io1 len events body
      → result_cbs read_cb decode unpack_error (suc fuel) (suc events) s h
        ≡ settle read_cb decode unpack_error fuel
            (deliver read_cb decode unpack_error (arrived (begun s len io1) body io2) g)
  message-arrived {events} pos cut =
      events-begun events
      ∙ Cut-arrived read_cb decode unpack_error fuel g (begun-IsMidBody s len io1 idle pos small)
          (omega arith) cut
