-- ===== src/Messages/Index/Gathered.antt =====
-- The response to an index query after the messages decoded so far.
use mathlib.Core.Path.{subst}
use riak_c_client.Base.{
  ◌+◌, ◌^◌, ◌<◌, ◌≡◌, refl, ap, sym, ◌∙◌, Bool, true, false, Option, none, some, List, [], ◌∷◌,
  ◌++◌, length, arith, total, add32, write_at, length-append, length-map, ltb, ◌||◌, ◌⊎◌,
}
use riak_c_client.Error.{eriak_ok, eriak_out_of_memory, failed}
use riak_c_client.Memory.{Heap, Config}
use riak_c_client.Memory.Returns
use riak_c_client.Memory.Returns.{Returns, returns}
use riak_c_client.Memory.Rich.{IsRich, bind_known, config_allocate-Grants}
use riak_c_client.Binary.{shallow}
use riak_c_client.Object.Types.{PbPair}
use riak_c_client.Messages.Listing.Items.{write_at-append, realloc-Rich}
use riak_c_client.Base.{map-append}
use riak_c_client.Messages.Get.Fetched.{from_pb-Rich}
use riak_c_client.Messages.Index.Reply.{
  PbIndexResp, IndexResponse, index_done, index_room, index_result, result_count, assemble_index,
}
use riak_c_client.Messages.Index.Decode.{last_fields, add_message}
use riak_c_client.Messages.Index.Keys.{present, HaveKeys}
use riak_c_client.Messages.Index.Assembled.{
  AreCountable, with_keys, assemble-keys, assemble-results,
}

-- The response keeps these messages.
pub record IsKeeping (pbs : List PbIndexResp) (response : IndexResponse) : Type 0 where
  pub count : response.n_responses ≡ length pbs
  pub cells : ltb 0 (length pbs) ≡ true → response.internal ≡ some (present pbs)

-- What the operation's pointer to the response is worth after these messages: NULL before the first.
abbrev pub HasKept : List PbIndexResp → Option IndexResponse → Type 0
HasKept pbs old =
    ((pbs ≡ []) × (old ≡ none))
    ⊎ ((response : IndexResponse) × (old ≡ some response) × IsKeeping pbs response)

-- The response with one more message.
abbrev pub keep_one : IndexResponse → List PbIndexResp → PbIndexResp → IndexResponse
keep_one response pbs pb = record response {
  internal = some (present (pbs ++ (pb ∷ [])));
  n_responses = length (pbs ++ (pb ∷ []));
}

-- The fields that come from the last message.
abbrev pub end_with : IndexResponse → PbIndexResp → IndexResponse
end_with response pb = record response {
  continuation = record {
    has = pb.continuation.has;
    content = some (shallow pb.continuation.content.len pb.continuation.content.data_block);
  };
  done = pb.done;
}

module _ {cfg : Config} (rich : IsRich cfg) where
  room-Rich :
      (pbs : List PbIndexResp) {response : IndexResponse} (h : Heap)
      → IsKeeping pbs response
      → length pbs + 1 < 2 ^ 32
      → Returns
          (λ r g. r ≡ some (present pbs ++ (none ∷ [])))
          (index_room cfg response.n_responses response.internal h)
  unfolding index_room
  room-Rich [] {response} h keeping small =
      rw (keeping.count, index_room)
        (bind_known _ (config_allocate-Grants rich 8 h) λ g. returns refl)
  room-Rich (pb ∷ pbs) {response} h keeping small =
      let held : ltb 0 (length (pb ∷ pbs)) ≡ true = ground arith in
      let cells : List (Option PbIndexResp) = present (pb ∷ pbs) in
      let same : length (pb ∷ pbs) ≡ length cells = sym (length-map (λ p. some p) (pb ∷ pbs)) in
      let more : add32 (length cells) 1 ≡ length cells + 1 = omega (arith, same) in
      rw (keeping.count, keeping.cells held, index_room, held, same, more)
        (realloc-Rich rich cells 1 h (omega (arith, same)))

  stored :
      (pbs : List PbIndexResp) (pb : PbIndexResp)
      → write_at (present pbs ++ (none ∷ [])) (length pbs) (some pb)
        ≡ some (present (pbs ++ (pb ∷ [])))
  stored pbs pb =
      subst
        (λ n. write_at (present pbs ++ (none ∷ [])) n (some pb) ≡ some (present (pbs ++ (pb ∷ []))))
        (length-map (λ p. some p) pbs)
        (write_at-append (present pbs) [] none (some pb)
          ∙ ap some (sym (map-append (λ p. some p) pbs (pb ∷ []))))

  last_fields-Rich :
      (response : IndexResponse) (pb : PbIndexResp) (h : Heap)
      → Returns (λ r g. r ≡ end_with response pb) (last_fields cfg response pb h)
  unfolding last_fields
  last_fields-Rich response pb h =
      bind_known _ (from_pb-Rich rich pb.continuation.content h) λ g. returns refl

  module _ (old : Option IndexResponse) (pbs : List PbIndexResp) (pb : PbIndexResp)
      {response : IndexResponse} (h : Heap) (keeping : IsKeeping pbs response)
      (few : length pbs + 1 < 2 ^ 32) where
    more_count : add32 (length pbs) 1 ≡ length (pbs ++ (pb ∷ []))
    more_count = omega (arith, length-append pbs (pb ∷ []))

    -- A message that does not end the response.
    pub add-more :
        index_done pb ≡ false
        → Returns
            (λ r g. r ≡ index_result eriak_ok (some (end_with (keep_one response pbs pb) pb)) false)
            (add_message cfg false old response pb h)
    unfolding add_message
    add-more going = bind_known _ (room-Rich pbs h keeping few) λ g.
        rw (keeping.count, stored pbs pb, going, more_count)
          (bind_known _ (last_fields-Rich (keep_one response pbs pb) pb g) λ k. returns refl)

    -- The last message, or any when streaming.
    pub add-last :
        (streaming : Bool)
        → (streaming || index_done pb) ≡ true
        → HaveKeys (pbs ++ (pb ∷ []))
        → AreCountable (pbs ++ (pb ∷ []))
        → total result_count (pbs ++ (pb ∷ [])) ≡ 0
        → Returns
            (λ r g.
              r
              ≡ index_result eriak_ok
                  (some (end_with (with_keys (keep_one response pbs pb) (pbs ++ (pb ∷ []))) pb))
                  (index_done pb))
            (add_message cfg streaming old response pb h)
    unfolding add_message
    add-last streaming ends keys small none_found = bind_known _ (room-Rich pbs h keeping few) λ g.
        rw (keeping.count, stored pbs pb, ends, more_count)
          (bind_known _
            (assemble-keys rich (keep_one response pbs pb) (pbs ++ (pb ∷ [])) g keys small
              none_found)
            λ k.
              bind_known _
                (last_fields-Rich (with_keys (keep_one response pbs pb) (pbs ++ (pb ∷ []))) pb k)
                λ l. returns refl)

    -- The same, where the first message of all has a result.
    pub add-results :
        (first : PbIndexResp) (others : List PbIndexResp) {x : PbPair} {xs : List PbPair}
        (streaming : Bool)
        → pbs ++ (pb ∷ []) ≡ first ∷ others
        → (streaming || index_done pb) ≡ true
        → HaveKeys (first ∷ others)
        → AreCountable (first ∷ others)
        → first.results ≡ x ∷ xs
        → Returns
            (λ r g. r.result ≡ eriak_out_of_memory)
            (add_message cfg streaming old response pb h)
    unfolding add_message
    add-results first others streaming split ends keys small found =
        bind_known _ (room-Rich pbs h keeping few) λ g.
          rw (keeping.count, stored pbs pb, ends, more_count)
            (Returns.bind
              (subst
                (λ ms.
                  Returns (λ r k. r.0 ≡ eriak_out_of_memory)
                    (assemble_index cfg (keep_one response pbs pb) (present ms) g))
                (sym split)
                (assemble-results rich (keep_one response pbs pb) first others g keys small found))
              λ (err, response') k bad. rw (bad, failed) (returns refl))
