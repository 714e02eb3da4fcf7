-- ===== src/Sync/Answer.antt =====
-- A synchronous call of src/riak.c whose request is taken and whose answer comes whole.
use mathlib.Core.Path.{subst}
use riak_c_client.Base.{
  ℕ, suc, ◌-◌, ◌<◌, ◌^◌, ◌≡◌, ◌≢◌, refl, sym, ap, ◌∙◌, Bool, true, Option, some, List, [], ◌∷◌,
  arith, length,
}
use riak_c_client.Error.{eriak_ok}
use riak_c_client.Memory.{Heap, ok, and_then}
use riak_c_client.Memory.Returns.{Returns, returns}
use riak_c_client.Memory.Rich.{IsRich, config_allocate-Grants, config_clean_allocate-Grants}
use riak_c_client.Message.{sizeof_pb_message}
use riak_c_client.Operation.{get_config}
use riak_c_client.ServerError.{PbErrorResp}
use riak_c_client.Wire.Header.{net_bytes}
use riak_c_client.Wire.Read.{Reply, got, Reading, Decode, round, rounds, read}
use riak_c_client.Wire.Body.{body_last}
use riak_c_client.Wire.Frame.{round_complete, rest_of_call}
use riak_c_client.Wire.Message.{IsIdle, begun, round-begun, restart, begun-IsMidBody}
use riak_c_client.Wire.Decode.{message, at_decoder, delivered}
use riak_c_client.Wire.Stream.{Answers, finished, ended, deliver-ended, ends}

-- From the transport `io` to `io'` a message comes in two reads: its length, then its whole body.
pub record ArrivesWhole {S : Type 0} (read_cb : S → ℕ → Reply × S) (io io' : S) (id : ℕ)
    (rest : List ℕ) : Type 0 where
  pub body_at : S
  pub byte : id < 256
  pub not_error : id ≢ 0
  pub small : suc (length rest) < 2 ^ 32
  pub length_read : read_cb io 4 ≡ (got (net_bytes (suc (length rest))), body_at)
  pub body_read : read_cb body_at (suc (length rest)) ≡ (got (id ∷ rest), io')

module _ {D R S : Type 0} (read_cb : S → ℕ → Reply × S) (decode : Decode D R)
    (unpack_error : List ℕ → Option PbErrorResp) (fuel : ℕ) {s : Reading D R S} {decoder : D}
    (idle : IsIdle s) (set : s.rop.decoder ≡ some decoder) (rich : IsRich (get_config s.rop))
    {id : ℕ} {rest : List ℕ} {io' : S} (arrival : ArrivesWhole read_cb s.io io' id rest)
    {after : Option R} {done : Bool}
    (answers : Answers read_cb decode unpack_error
      (get_config s.rop)
      decoder
      s.rop.response
      (message id rest)
      after
      done)
    (h : Heap) where
  -- A round of the call.
  pub round-ended :
      (g : Heap) × (round read_cb decode unpack_error (restart s) h
        ≡ ok
            (ended read_cb decode unpack_error
              (at_decoder s id rest arrival.body_at io')
              after
              done)
            g)
  round-ended =
      let len = suc (length rest) in
      let quiet : IsIdle (restart s) = record {
        incomplete = idle.incomplete;
        at_start = idle.at_start;
      } in
      let b = begun (restart s) len arrival.body_at in
      let (g, buffer_room) = ends (config_allocate-Grants rich len h) in
      let (k, record_room) = ends (config_clean_allocate-Grants rich sizeof_pb_message g) in
      let (l, run) = ends (
        deliver-ended read_cb decode unpack_error (at_decoder s id rest arrival.body_at io') decoder
          (message id rest) k answers) in
      let asked : b.rop.msglen - length {A = ℕ} [] ≡ len = omega arith in
      (
        l,
        round-begun read_cb decode unpack_error (restart s) quiet len arrival.small
              arrival.length_read h g buffer_room
            ∙ round_complete read_cb decode unpack_error fuel b g refl
            ∙ body_last read_cb decode unpack_error
                (begun-IsMidBody (restart s) len arrival.body_at quiet (omega arith) arrival.small)
                (id ∷ rest) (ap (read_cb arrival.body_at) asked ∙ arrival.body_read) g (omega arith)
            ∙ delivered read_cb decode unpack_error (restart s) set id rest arrival.byte
                arrival.not_error arrival.small arrival.body_at io' g k record_room
            ∙ run,
      )

module _ {D R S : Type 0} (read_cb : S → ℕ → Reply × S) (decode : Decode D R)
    (unpack_error : List ℕ → Option PbErrorResp) (fuel : ℕ) {s : Reading D R S} {decoder : D}
    (idle : IsIdle s) (set : s.rop.decoder ≡ some decoder) (rich : IsRich (get_config s.rop))
    {id : ℕ} {rest : List ℕ} {io' : S} (arrival : ArrivesWhole read_cb s.io io' id rest)
    {after : Option R}
    (answers : Answers read_cb decode unpack_error
      (get_config s.rop)
      decoder
      s.rop.response
      (message id rest)
      after
      true)
    (h : Heap) where
  -- One call of riak_read takes the whole answer.
  pub read-answered :
      Returns
        (λ r g. r ≡ (
          eriak_ok,
          finished read_cb decode unpack_error (at_decoder s id rest arrival.body_at io') after,
        ))
        (read read_cb decode unpack_error (suc fuel) s h)
  unfolding read rounds
  read-answered =
      let (g, run) = round-ended read_cb decode unpack_error fuel idle set rich arrival answers h in
      subst
        (Returns (λ r k. r ≡ (
          eriak_ok,
          finished read_cb decode unpack_error (at_decoder s id rest arrival.body_at io') after,
        )))
        (sym (ap (λ r. and_then r (rest_of_call read_cb decode unpack_error fuel)) run))
        (returns refl)
