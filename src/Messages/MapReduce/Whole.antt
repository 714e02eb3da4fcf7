-- ===== src/Messages/MapReduce/Whole.antt =====
-- A whole map/reduce response of src/messages/riak_mapreduce.c, message by message.
use mathlib.Core.Path.{subst}
use riak_c_client.Base.{
  ℕ, ◌+◌, ◌^◌, ◌<◌, ◌≡◌, refl, true, false, Option, none, some, List, [], ◌∷◌, ◌++◌, length, arith,
  length-append, append_assoc, ◌||◌, if◌then◌else◌,
}
use riak_c_client.Error.{eriak_ok, failed}
use riak_c_client.Memory.{Heap, Cmd, pure, ◌>>=◌}
use riak_c_client.Memory.Returns.{Returns, returns}
use riak_c_client.Memory.Rich.{IsRich, bind_known}
use riak_c_client.Message.{PbMessage}
use riak_c_client.Operation.{Operation, get_config}
use riak_c_client.ServerError.{payload}
use riak_c_client.Wire.Read.{DecodeResult}
use riak_c_client.Messages.MapReduce.{
  PbMapRedResp, MapReduceResponse, mapreduce_done, reduced, mapreduce_response_decode,
}
use riak_c_client.Messages.MapReduce.Gathered.{gathered, whole, reduce_onto-more, reduce_onto-last}

-- A message that comes to the decoder, and what it unpacks to.
pub data Comes (unpack : List ℕ → Option PbMapRedResp) : PbMessage → PbMapRedResp → Type 0 where
  comes :
      {pbresp : PbMessage} {pb : PbMapRedResp} {bytes : List ℕ}
      → payload pbresp ≡ some bytes
      → unpack bytes ≡ some pb
      → Comes unpack pbresp pb

-- The messages of one response, of which the last, and no other, has the flag `done`.
pub data Response (unpack : List ℕ → Option PbMapRedResp)
    : List PbMessage → List PbMapRedResp → Type 0 where
  ends_with :
      {pbresp : PbMessage} {pb : PbMapRedResp}
      → Comes unpack pbresp pb
      → mapreduce_done pb ≡ true
      → Response unpack (pbresp ∷ []) (pb ∷ [])
  goes_on :
      {pbresp : PbMessage} {pb : PbMapRedResp} {pbresps : List PbMessage} {pbs : List PbMapRedResp}
      → Comes unpack pbresp pb
      → mapreduce_done pb ≡ false
      → Response unpack pbresps pbs
      → Response unpack (pbresp ∷ pbresps) (pb ∷ pbs)

-- The decoder on one message after the other, each with the response so far, as long as it returns ERIAK_OK and
-- does not set the flag.
pub decode_each :
    {D : Type 0}
    → (List ℕ → Option PbMapRedResp)
    → Operation D MapReduceResponse
    → List PbMessage
    → Cmd (DecodeResult MapReduceResponse)
decode_each unpack rop [] = pure (reduced eriak_ok rop.response false)
decode_each unpack rop (pbresp ∷ pbresps) = do
  r ← mapreduce_response_decode unpack rop (some pbresp) true
  (let rest = decode_each unpack (record rop { response = r.response }) pbresps in
      if failed r.result || r.done then pure r else rest)

module _ {D : Type 0} (unpack : List ℕ → Option PbMapRedResp) where
  decode-more :
      (rop : Operation D MapReduceResponse) {pbresp : PbMessage} (pbs : List PbMapRedResp)
      (pb : PbMapRedResp) (h : Heap)
      → IsRich (get_config rop)
      → rop.streaming ≡ false
      → rop.response ≡ gathered pbs
      → length pbs + 1 < 2 ^ 31
      → Comes unpack pbresp pb
      → mapreduce_done pb ≡ false
      → Returns
          (λ r g. r ≡ reduced eriak_ok (gathered (pbs ++ (pb ∷ []))) false)
          (mapreduce_response_decode unpack rop (some pbresp) true h)
  unfolding mapreduce_response_decode
  decode-more rop pbs pb h rich quiet so_far few (comes read unpacks) going =
      rw (read, unpacks, mapreduce_response_decode, so_far, quiet)
        (reduce_onto-more rich pbs pb true h few going)

  decode-last :
      (rop : Operation D MapReduceResponse) {pbresp : PbMessage} (pbs : List PbMapRedResp)
      (pb : PbMapRedResp) (h : Heap)
      → IsRich (get_config rop)
      → rop.streaming ≡ false
      → rop.response ≡ gathered pbs
      → length pbs + 1 < 2 ^ 31
      → Comes unpack pbresp pb
      → mapreduce_done pb ≡ true
      → Returns
          (λ r g. r ≡ reduced eriak_ok (some (whole (pbs ++ (pb ∷ [])))) true)
          (mapreduce_response_decode unpack rop (some pbresp) true h)
  unfolding mapreduce_response_decode
  decode-last rop pbs pb h rich quiet so_far few (comes read unpacks) ends =
      rw (read, unpacks, mapreduce_response_decode, so_far, quiet)
        (reduce_onto-last rich pbs pb true h few ends)

  decode_each-after :
      (rop : Operation D MapReduceResponse) {pbresps : List PbMessage} {pbs : List PbMapRedResp}
      (before : List PbMapRedResp) (h : Heap)
      → IsRich (get_config rop)
      → rop.streaming ≡ false
      → rop.response ≡ gathered before
      → length before + length pbs < 2 ^ 31
      → Response unpack pbresps pbs
      → Returns
          (λ r g. r ≡ reduced eriak_ok (some (whole (before ++ pbs))) true)
          (decode_each unpack rop pbresps h)
  unfolding decode_each
  decode_each-after rop before h rich quiet so_far few (ends_with {pb} came ends) =
      bind_known _ (decode-last rop before pb h rich quiet so_far (omega arith) came ends)
        λ g. returns refl
  decode_each-after rop before h rich quiet so_far few
        (goes_on {pb} {pbresps} {pbs} came going later) =
      bind_known _ (decode-more rop before pb h rich quiet so_far (omega arith) came going) λ g.
        subst
          (λ all.
            Returns (λ r k. r ≡ reduced eriak_ok (some (whole all)) true)
              (decode_each unpack (record rop { response = gathered (before ++ (pb ∷ [])) }) pbresps
                g))
          (append_assoc before (pb ∷ []) pbs)
          (decode_each-after (record rop { response = gathered (before ++ (pb ∷ [])) })
            (before ++ (pb ∷ [])) g rich quiet refl (omega (arith, length-append before (pb ∷ [])))
            later)

  -- A map/reduce response of any number of messages, fewer than 2 ^ 31, that all unpack and of which the last, and no
  -- other, has the flag `done`, to an operation without a response that does not stream, with an allocator that always
  -- has memory: riak_mapreduce_response_decode on one message after the other returns success, sets the flag at the last,
  -- and has then made a response with a message for the user for each message, in order, with its phase, its response
  -- and its flags.
  pub mapreduce_response_decode-whole :
      (rop : Operation D MapReduceResponse) {pbresps : List PbMessage} {pbs : List PbMapRedResp}
      (h : Heap)
      → IsRich (get_config rop)
      → rop.streaming ≡ false
      → rop.response ≡ none
      → length pbs < 2 ^ 31
      → Response unpack pbresps pbs
      → Returns
          (λ r g. r ≡ reduced eriak_ok (some (whole pbs)) true)
          (decode_each unpack rop pbresps h)
  mapreduce_response_decode-whole rop h rich quiet fresh few response =
      decode_each-after rop [] h rich quiet fresh (omega arith) response
