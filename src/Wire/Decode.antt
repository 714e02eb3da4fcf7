-- ===== src/Wire/Decode.antt =====
-- riak_read of src/riak.c, from a whole message to the operation's decoder.
use riak_c_client.Base.{
  ℕ, suc, ◌%◌, ◌^◌, ◌<◌, ◌≡◌, ◌≢◌, ap, ◌∙◌, Bool, true, false, Option, some, List, ◌∷◌, arith,
  length, u32_mod, u8_mod, ◌==◌, if◌then◌else◌,
}
use riak_c_client.Memory.{Heap, ok, and_then, config_allocate, config_clean_allocate}
use riak_c_client.Message
use riak_c_client.Message.{PbMessage, sizeof_pb_message}
use riak_c_client.Operation.{get_config}
use riak_c_client.ServerError.{PbErrorResp}
use riak_c_client.Wire.Header.{net_bytes}
use riak_c_client.Wire.Read.{
  Reply, got, Reading, Decode, deliver, deliver_decoded, deliver_error, dispatch, reset,
}
use riak_c_client.Wire.Body.{arrived}
use riak_c_client.Wire.Frame.{Cut, settle}
use riak_c_client.Wire.Message.{IsIdle, begun, message-arrived}
use riak_c_client.Libevent.{result_cbs}

-- The message with the code `id` and what follows it.
abbrev pub message : ℕ → List ℕ → PbMessage
message id rest = record { len = suc (length rest); msgid = id; body = some (id ∷ rest) }

-- The reading as the decoder finds it: idle again, the flag set, the buffer still there.
abbrev pub at_decoder : {D R S : Type 0} → Reading D R S → ℕ → List ℕ → S → S → Reading D R S
at_decoder s id rest io1 io2 =
    let a = arrived (begun s (suc (length rest)) io1) (id ∷ rest) io2 in
    record a { rop = reset a.rop; done = true }

module _ {D R S : Type 0} (read_cb : S → ℕ → Reply × S) (decode : Decode D R)
    (unpack_error : List ℕ → Option PbErrorResp) (s : Reading D R S) {decoder : D}
    (set : s.rop.decoder ≡ some decoder) (id : ℕ) (rest : List ℕ) (byte : id < 256) (other : id ≢ 0)
    (small : suc (length rest) < 2 ^ 32) (io1 io2 : S) (h g : Heap)
    (room : config_clean_allocate (some (get_config s.rop)) sizeof_pb_message h ≡ ok true g) where
  new-message :
      Message.new (get_config s.rop) id (suc (length rest)) (some (id ∷ rest)) h
      ≡ ok (some (message id rest)) g
  unfolding Message.new
  new-message =
      let a : suc (length rest) % u32_mod ≡ suc (length rest) = omega arith in
      let b : id % u8_mod ≡ id = omega arith in rw (room, a, b)

  not_error : (id == 0) ≡ false
  not_error = ground arith

  pub delivered :
      deliver read_cb decode unpack_error
        (arrived (begun s (suc (length rest)) io1) (id ∷ rest) io2)
        h
      ≡ deliver_decoded read_cb decode unpack_error
          (at_decoder s id rest io1 io2)
          decoder
          (some (message id rest))
          g
  unfolding deliver dispatch
  delivered =
      ap
        (λ r. and_then r λ pb.
          dispatch read_cb decode unpack_error (at_decoder s id rest io1 io2) id pb s.rop.decoder)
        new-message
      ∙ ap
          (λ o.
            dispatch read_cb decode unpack_error (at_decoder s id rest io1 io2) id
              (some (message id rest)) o g)
          set
      ∙ ap
          (λ (b : Bool).
            (if b
                then deliver_error read_cb decode unpack_error (at_decoder s id rest io1 io2)
                    (some (message id rest))
                else deliver_decoded read_cb decode unpack_error (at_decoder s id rest io1 io2)
                    decoder (some (message id rest)))
              g)
          not_error

-- A message whose code is not that of an error, of fewer than 2 ^ 32 bytes, for an idle operation whose
-- decoder is set: the four bytes of its length come at once, its body is cut into read events in any
-- way, and there is memory for its buffer and for its record. Then riak_read, called on each event,
-- at the last of them hands the operation's decoder exactly that message, with the operation
-- idle again, and goes on with what the decoder returns.
pub message-decoded :
    {D R S : Type 0} (read_cb : S → ℕ → Reply × S) (decode : Decode D R)
    (unpack_error : List ℕ → Option PbErrorResp) (fuel : ℕ) (s : Reading D R S) {decoder : D}
    (id : ℕ) (rest : List ℕ) {events : ℕ} {io1 io2 : S} (h g k : Heap)
    → IsIdle s
    → s.rop.decoder ≡ some decoder
    → id < 256
    → id ≢ 0
    → suc (length rest) < 2 ^ 32
    → read_cb s.io 4 ≡ (got (net_bytes (suc (length rest))), io1)
    → Cut read_cb io2 io1 (suc (length rest)) events (id ∷ rest)
    → config_allocate (some (get_config s.rop)) (suc (length rest)) h ≡ ok true g
    → config_clean_allocate (some (get_config s.rop)) sizeof_pb_message g ≡ ok true k
    → result_cbs read_cb decode unpack_error (suc fuel) (suc events) s h
      ≡ settle read_cb decode unpack_error fuel (
          deliver_decoded read_cb decode unpack_error
            (at_decoder s id rest io1 io2)
            decoder
            (some (message id rest))
            k)
message-decoded read_cb decode unpack_error fuel s id rest {io1} {io2} h g k idle set byte other
      small answer cut room room' =
    message-arrived read_cb decode unpack_error s idle (suc (length rest)) small answer h g room
      fuel (omega arith) cut
    ∙ ap (settle read_cb decode unpack_error fuel)
        (delivered read_cb decode unpack_error s set id rest byte other small io1 io2 g k room')
