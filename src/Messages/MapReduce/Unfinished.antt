-- ===== src/Messages/MapReduce/Unfinished.antt =====
-- A map/reduce response of src/messages/riak_mapreduce.c that has not come to its end.
use riak_c_client.Base.{ℕ, ◌≡◌, refl, Bool, false, Option, none, some, List, [], ◌∷◌}
use riak_c_client.Error.{eriak_ok}
use riak_c_client.Memory.{Heap, Config, fault}
use riak_c_client.Memory.Returns
use riak_c_client.Memory.Returns.{Returns, returns}
use riak_c_client.Memory.Rich.{
  IsRich, bind_known, config_allocate-Grants, config_clean_allocate-Grants,
}
use riak_c_client.Message.{PbMessage}
use riak_c_client.Operation.{Operation, get_config}
use riak_c_client.ServerError.{payload}
use riak_c_client.Messages.MapReduce.{
  PbMapRedResp, MapReduceResponse, sizeof_mapreduce_response, mapreduce_done, no_mapreduce,
  more_room, reduce, reduce_onto, reduced, mapreduce_response_decode, mapreduce_response_free,
  free_messages,
}

-- The response after a first message, none of its messages assembled for the user.
abbrev pub unassembled : PbMapRedResp → MapReduceResponse
unassembled pb = record { msg = none; n_responses = 1; internal = some (some pb ∷ []) }

module _ {cfg : Config} (rich : IsRich cfg) where
  more_room-first :
      (h : Heap) → Returns (λ r g. r ≡ some (none ∷ [])) (more_room cfg no_mapreduce h)
  unfolding more_room
  more_room-first h = bind_known _ (config_allocate-Grants rich 8 h) λ g. returns refl

  first-unassembled :
      (pb : PbMapRedResp) (done : Bool) (h : Heap)
      → mapreduce_done pb ≡ false
      → Returns
          (λ r g. r ≡ reduced eriak_ok (some (unassembled pb)) false)
          (reduce_onto cfg false none pb done h)
  unfolding reduce_onto reduce
  first-unassembled pb done h going =
      bind_known _ (config_clean_allocate-Grants rich sizeof_mapreduce_response h)
        λ g. bind_known _ (more_room-first g) λ k. rw going (returns refl)

-- With an allocator that always has memory, the first message of a map/reduce response that is not its
-- last, to an operation that does not stream: the decoder returns success with a response, and
-- riak_mapreduce_response_free of this response reads through a NULL pointer.
pub mapreduce-unfinished :
    {D : Type 0} (unpack : List ℕ → Option PbMapRedResp) (rop : Operation D MapReduceResponse)
    {pb : PbMapRedResp} (pbresp : PbMessage) {bytes : List ℕ} (done : Bool) (h : Heap)
    → IsRich (get_config rop)
    → rop.response ≡ none
    → rop.streaming ≡ false
    → payload pbresp ≡ some bytes
    → unpack bytes ≡ some pb
    → mapreduce_done pb ≡ false
    → Returns
        (λ r g. (r.result ≡ eriak_ok) × ((k : Heap) → mapreduce_response_free r.response k ≡ fault))
        (mapreduce_response_decode unpack rop (some pbresp) done h)
unfolding mapreduce_response_decode mapreduce_response_free free_messages
mapreduce-unfinished unpack rop {pb} pbresp done h rich fresh quiet read unpacked going =
    rw (read, unpacked, mapreduce_response_decode, fresh, quiet)
      (Returns.mono (first-unassembled rich pb done h going) λ r g e. (rw e, λ k. rw e))
