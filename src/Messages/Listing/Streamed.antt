-- ===== src/Messages/Listing/Streamed.antt =====
-- A streamed listing through riak_read of src/riak.c: the keys or buckets of all its messages.
use mathlib.Core.Path.{subst}
use riak_c_client.Base.{
  ℕ, suc, ◌<◌, ◌^◌, length, ltb, take-length, sub32, Bool, arith, ◌+◌, ◌≡◌, refl, sym, ap₂, true,
  false, Option, none, some, List, [], ◌∷◌, ◌++◌,
}
use riak_c_client.Error.{eriak_ok}
use riak_c_client.Memory.{Heap, Config}
use riak_c_client.Memory.Returns.{Returns}
use riak_c_client.Memory.Rich.{IsRich}
use riak_c_client.Operation.{get_config}
use riak_c_client.ServerError.{PbErrorResp, payload}
use riak_c_client.Wire.Read.{Reply, got, Reading, Decode, respond}
use riak_c_client.Wire.Message.{IsIdle}
use riak_c_client.Wire.Decode.{message}
use riak_c_client.Wire.Stream.{Answers, Arrives}
use riak_c_client.Wire.Stream.Respond
use riak_c_client.Wire.Stream.Respond.{Stream, IsResponded, Stream-IsResponded}
use riak_c_client.Libevent.{result_cbs}
use riak_c_client.Messages.Listing.{PbListing, Listing, done_of, result, decode}
use riak_c_client.Messages.Listing.Items.{IsWhole}
use riak_c_client.Messages.Listing.Valid.{IsCountable, decode-listed}
use riak_c_client.Messages.Listing.Listed.{listed}

-- The operation's decoder pointer is that of a listing.
abbrev pub by_listing : {D : Type 0} → (List ℕ → Option PbListing) → Decode D Listing
by_listing unpack decoder rop pbresp done = decode unpack rop pbresp done

-- One message of a listing, after the messages `pbs`: what follows its code unpacks to `pb`.
pub record IsPart (unpack : List ℕ → Option PbListing) (pbs : List PbListing) (rest : List ℕ)
    (pb : PbListing) : Type 0 where
  pub unpacks : unpack rest ≡ some pb
  pub whole : IsWhole pb.items
  pub countable : IsCountable pbs pb

-- In `events` read events from the transport `io`, the rest of a listing arrives, after the messages
-- `pbs` and up to `all`; its last message, and no other, has the flag `done`.
pub data Parts {S : Type 0} (read_cb : S → ℕ → Reply × S) (unpack : List ℕ → Option PbListing)
    (all : List PbListing) : S → ℕ → List PbListing → Type 0 where
  last_part :
      {io io' : S} {id events : ℕ} {rest : List ℕ} {pbs : List PbListing} {pb : PbListing}
      → Arrives read_cb io io' id rest events
      → IsPart unpack pbs rest pb
      → done_of pb ≡ true
      → all ≡ pbs ++ (pb ∷ [])
      → Parts read_cb unpack all io (suc events) pbs
  more_parts :
      {io io1 io2 : S} {id events then_events total : ℕ} {rest : List ℕ} {pbs : List PbListing}
      {pb : PbListing}
      → Arrives read_cb io io1 id rest events
      → read_cb io1 4 ≡ (got [], io2)
      → IsPart unpack pbs rest pb
      → done_of pb ≡ false
      → Parts read_cb unpack all io2 then_events (pbs ++ (pb ∷ []))
      → total ≡ suc events + then_events
      → Parts read_cb unpack all io total pbs

-- What is handed to the unpacker of a message is what follows its code.
pub payload-message :
    (id : ℕ) (rest : List ℕ) → suc (length rest) < 2 ^ 32 → payload (message id rest) ≡ some rest
unfolding payload
payload-message id rest small =
    let count : sub32 (suc (length rest)) 1 ≡ length rest = omega arith in
    let fits : ltb (length rest) (length rest) ≡ false = ground arith in
    rw (count, fits, take-length rest)

module _ {D S : Type 0} (read_cb : S → ℕ → Reply × S) (unpack : List ℕ → Option PbListing)
    (unpack_error : List ℕ → Option PbErrorResp) {cfg : Config} (rich : IsRich cfg)
    (decoder : D) where
  part-Answers :
      (id : ℕ) {rest : List ℕ} {pbs : List PbListing} {pb : PbListing}
      → suc (length rest) < 2 ^ 32
      → IsPart unpack pbs rest pb
      → Answers read_cb
          (by_listing unpack)
          unpack_error
          cfg
          decoder
          (listed pbs)
          (message id rest)
          (listed (pbs ++ (pb ∷ [])))
          (done_of pb)
  part-Answers id {rest} small part rop so_far same h =
      decode-listed unpack rop (message id rest) true h (subst IsRich (sym same) rich) so_far
        (payload-message id rest small) part.unpacks part.whole part.countable

  -- The same, with the flag and the messages by their values.
  pub part-Answers_by :
      (id : ℕ) {rest : List ℕ} {pbs then_pbs : List PbListing} {pb : PbListing} {done : Bool}
      → suc (length rest) < 2 ^ 32
      → IsPart unpack pbs rest pb
      → done_of pb ≡ done
      → then_pbs ≡ pbs ++ (pb ∷ [])
      → Answers read_cb
          (by_listing unpack)
          unpack_error
          cfg
          decoder
          (listed pbs)
          (message id rest)
          (listed then_pbs)
          done
  part-Answers_by id {rest} {pbs} small part flag whole rop so_far same h =
      subst (λ r. Returns (λ r' g. r' ≡ r) (decode unpack rop (some (message id rest)) true h))
        (ap₂ (λ qs b. result eriak_ok (listed qs) b) (sym whole) flag)
        (part-Answers id small part rop so_far same h)

  Parts-Stream :
      {all : List PbListing} {io : S} {events : ℕ} {pbs : List PbListing}
      → Parts read_cb unpack all io events pbs
      → Stream read_cb
          (by_listing unpack)
          unpack_error
          cfg
          decoder
          (listed all)
          io
          events
          (listed pbs)
  Parts-Stream (last_part {id} arrival part flag whole) =
      Respond.last arrival (part-Answers_by id arrival.small part flag whole)
  Parts-Stream (more_parts {id} arrival quiet part flag parts total) =
      Respond.more arrival quiet (part-Answers_by id arrival.small part flag refl)
        (Parts-Stream parts) total

  module _ (fuel : ℕ) where
    -- A listing in any number of messages to an idle operation with no response yet, whose decoder
    -- pointer is that of the listing, with an allocator that always has memory: each message unpacks,
    -- with all counts below 2 ^ 32, comes in read events of its own, cut in any way, and the last
    -- one, and no other, has the flag `done`. Then the calls of riak_read on these events return, and
    -- the user's callback has been called exactly once, for the response with the items of all
    -- messages, in order, each a copy; the operation is idle again.
    pub listing-streamed :
        (s : Reading D Listing S) {events : ℕ} {all : List PbListing} (h : Heap)
        → IsIdle s
        → s.rop.decoder ≡ some decoder
        → get_config s.rop ≡ cfg
        → s.rop.response ≡ none
        → Parts read_cb unpack all s.io events []
        → Returns
            (λ s' g.
              IsResponded
                (s.events ++ respond (record (s.rop) { response = listed all }))
                (listed all)
                s')
            (result_cbs read_cb (by_listing unpack) unpack_error (suc (suc fuel)) events s h)
    listing-streamed s {events} {all} h idle set same fresh parts =
        Stream-IsResponded read_cb (by_listing unpack) unpack_error fuel s h idle set
          (subst IsRich (sym same) rich)
          (subst
            (λ c.
              Stream read_cb (by_listing unpack) unpack_error c decoder (listed all) s.io events
                s.rop.response)
            (sym same)
            (subst
              (λ r.
                Stream read_cb (by_listing unpack) unpack_error cfg decoder (listed all) s.io events
                  r)
              (sym fresh) (Parts-Stream parts)))
