-- ===== src/Messages/MapReduce/Gathered.antt =====
-- The response to a map/reduce of src/messages/riak_mapreduce.c after the messages decoded so far.
use mathlib.Core.Path.{subst}
use riak_c_client.Base.{
  ◌+◌, ◌^◌, ◌<◌, ◌≡◌, refl, ap, sym, ◌∙◌, Bool, true, false, Option, none, some, List, [], ◌∷◌,
  ◌++◌, map, length, arith, add32, write_at, length-append, length-map, ltb, mul64,
}
use riak_c_client.Error.{eriak_ok}
use riak_c_client.Memory.{Heap, Config}
use riak_c_client.Memory.Returns.{Returns, returns}
use riak_c_client.Memory.Rich.{
  IsRich, bind_known, config_allocate-Grants, config_clean_allocate-Grants,
}
use riak_c_client.Binary.{shallow}
use riak_c_client.Messages.Listing.Items.{write_at-append, realloc-Rich}
use riak_c_client.Base.{map-append, ℕ, suc, next_int-small}
use riak_c_client.Messages.Get.Fetched.{from_pb-Rich}
use riak_c_client.Messages.MapReduce.{
  PbMapRedResp, MapReduceMessage, MapReduceResponse, sizeof_mapreduce_response,
  sizeof_mapreduce_message, mapreduce_done, more_room, user_message, user_messages, assemble,
  reduce, reduce_onto, reduced,
}

abbrev pub present : List PbMapRedResp → List (Option PbMapRedResp)
present pbs = map (λ pb. some pb) pbs

-- What the user gets of a message: its response shares the bytes of the message.
abbrev pub message_of : PbMapRedResp → MapReduceMessage
message_of pb = record {
  phase = pb.phase;
  response = record {
    has = pb.response.has;
    content = some (shallow pb.response.content.len pb.response.content.data_block);
  };
  done = pb.done;
}

abbrev pub vector : List PbMapRedResp → Option (List (Option PbMapRedResp))
vector [] = none
vector (pb ∷ pbs) = some (present (pb ∷ pbs))

-- The response that keeps these messages, before the last one.
abbrev pub keeping : List PbMapRedResp → MapReduceResponse
keeping pbs = record { msg = none; n_responses = length pbs; internal = vector pbs }

-- What the operation's pointer to it is worth: NULL before the first message.
abbrev pub gathered : List PbMapRedResp → Option MapReduceResponse
gathered [] = none
gathered (pb ∷ pbs) = some (keeping (pb ∷ pbs))

-- The response with these messages for the user.
abbrev pub whole : List PbMapRedResp → MapReduceResponse
whole pbs = record {
  msg = some (map message_of pbs);
  n_responses = length pbs;
  internal = some (present pbs);
}

gathered_one :
    (pbs : List PbMapRedResp) (pb : PbMapRedResp)
    → reduced eriak_ok
        (some (record {
          msg = none;
          n_responses = length (pbs ++ (pb ∷ []));
          internal = some (present (pbs ++ (pb ∷ [])));
        }))
        false
      ≡ reduced eriak_ok (gathered (pbs ++ (pb ∷ []))) false
gathered_one [] pb = refl
gathered_one (p ∷ pbs) pb = refl

module _ {cfg : Config} (rich : IsRich cfg) where
  room-Rich :
      (pbs : List PbMapRedResp) (h : Heap)
      → length pbs + 1 < 2 ^ 32
      → Returns (λ r g. r ≡ some (present pbs ++ (none ∷ []))) (more_room cfg (keeping pbs) h)
  unfolding more_room
  room-Rich [] h small = bind_known _ (config_allocate-Grants rich 8 h) λ g. returns refl
  room-Rich (pb ∷ pbs) h small =
      let cells : List (Option PbMapRedResp) = present (pb ∷ pbs) in
      let held : ltb 0 (length (pb ∷ pbs)) ≡ true = ground arith in
      let same : length (pb ∷ pbs) ≡ length cells = sym (length-map (λ p. some p) (pb ∷ pbs)) in
      let more : add32 (length cells) 1 ≡ length cells + 1 = omega (arith, same) in
      rw (more_room, held, same, more) (realloc-Rich rich cells 1 h (omega (arith, same)))

  stored :
      (pbs : List PbMapRedResp) (pb : PbMapRedResp)
      → write_at (present pbs ++ (none ∷ [])) (length pbs) (some pb)
        ≡ some (present (pbs ++ (pb ∷ [])))
  stored pbs pb =
      subst
        (λ n. write_at (present pbs ++ (none ∷ [])) n (some pb) ≡ some (present (pbs ++ (pb ∷ []))))
        (length-map (λ p. some p) pbs)
        (write_at-append (present pbs) [] none (some pb)
          ∙ ap some (sym (map-append (λ p. some p) pbs (pb ∷ []))))

  user_messages-Rich :
      (pbs : List PbMapRedResp) (i : ℕ) (h : Heap)
      → i + length pbs < 2 ^ 31
      → Returns (λ r g. r ≡ some (map message_of pbs)) (user_messages cfg i (present pbs) h)
  unfolding user_messages user_message
  user_messages-Rich [] i h small = returns refl
  user_messages-Rich (pb ∷ pbs) i h small =
      bind_known _
        (bind_known _ (config_clean_allocate-Grants rich sizeof_mapreduce_message h)
          λ g. bind_known _ (from_pb-Rich rich pb.response.content g) λ k. returns refl)
        λ l.
          rw (next_int-small i (omega (arith, small))) (
            bind_known _ (user_messages-Rich pbs (suc i) l (omega (arith, small)))
              λ m. returns refl)

  module _ (old : Option MapReduceResponse) (pbs : List PbMapRedResp) (pb : PbMapRedResp) (h : Heap)
      (few : length pbs + 1 < 2 ^ 31) where
    more_count : add32 (length pbs) 1 ≡ length (pbs ++ (pb ∷ []))
    more_count = omega (arith, length-append pbs (pb ∷ []))

    reduce-more :
        mapreduce_done pb ≡ false
        → Returns
            (λ r g. r ≡ reduced eriak_ok (gathered (pbs ++ (pb ∷ []))) false)
            (reduce cfg false old (keeping pbs) pb h)
    unfolding reduce
    reduce-more going =
        bind_known _ (room-Rich pbs h (omega arith))
          λ g. rw (stored pbs pb, going, more_count) (returns (gathered_one pbs pb))

    reduce-last :
        mapreduce_done pb ≡ true
        → Returns
            (λ r g. r ≡ reduced eriak_ok (some (whole (pbs ++ (pb ∷ [])))) true)
            (reduce cfg false old (keeping pbs) pb h)
    unfolding reduce assemble
    reduce-last ends = bind_known _ (room-Rich pbs h (omega arith)) λ g.
        rw (stored pbs pb, ends, more_count)
          (bind_known _ (config_clean_allocate-Grants rich (mul64 8 (length (pbs ++ (pb ∷ [])))) g)
            λ k.
              bind_known _
                (user_messages-Rich (pbs ++ (pb ∷ [])) 0 k
                  (omega (arith, few, length-append pbs (pb ∷ []))))
                λ l. rw (more_count, ends) (returns refl))

  -- The same, from the pointer to the response so far.
  pub reduce_onto-more :
      (pbs : List PbMapRedResp) (pb : PbMapRedResp) (done : Bool) (h : Heap)
      → length pbs + 1 < 2 ^ 31
      → mapreduce_done pb ≡ false
      → Returns
          (λ r g. r ≡ reduced eriak_ok (gathered (pbs ++ (pb ∷ []))) false)
          (reduce_onto cfg false (gathered pbs) pb done h)
  unfolding reduce_onto
  reduce_onto-more [] pb done h few going =
      bind_known _ (config_clean_allocate-Grants rich sizeof_mapreduce_response h)
        λ g. reduce-more none [] pb g few going
  reduce_onto-more (p ∷ pbs) pb done h few going =
      reduce-more (some (keeping (p ∷ pbs))) (p ∷ pbs) pb h few going

  pub reduce_onto-last :
      (pbs : List PbMapRedResp) (pb : PbMapRedResp) (done : Bool) (h : Heap)
      → length pbs + 1 < 2 ^ 31
      → mapreduce_done pb ≡ true
      → Returns
          (λ r g. r ≡ reduced eriak_ok (some (whole (pbs ++ (pb ∷ [])))) true)
          (reduce_onto cfg false (gathered pbs) pb done h)
  unfolding reduce_onto
  reduce_onto-last [] pb done h few ends =
      bind_known _ (config_clean_allocate-Grants rich sizeof_mapreduce_response h)
        λ g. reduce-last none [] pb g few ends
  reduce_onto-last (p ∷ pbs) pb done h few ends =
      reduce-last (some (keeping (p ∷ pbs))) (p ∷ pbs) pb h few ends
