-- ===== src/Messages/Index/Assembled.antt =====
-- The arrays for the user that src/messages/riak_2i.c makes of the messages of a response.
use riak_c_client.Base.{
  ℕ, suc, ◌+◌, ◌^◌, ◌<◌, ◌≡◌, refl, ap, ◌∙◌, true, none, some, List, [], ◌∷◌, map, length, arith,
  total, mul64,
}
use riak_c_client.Error.{eriak_ok, eriak_out_of_memory}
use riak_c_client.Memory.{Heap, Config}
use riak_c_client.Memory.Returns
use riak_c_client.Memory.Returns.{Returns, returns, free_if-Returns}
use riak_c_client.Memory.Rich.{IsRich, bind_known, config_clean_allocate-Grants}
use riak_c_client.Object.Types.{Pair, PbPair, sizeof_pair}
use riak_c_client.Object.Pairs.{pairs_copy_from_pb}
use riak_c_client.Messages.Get.Fetched.{from_pb-Rich, field-Rich}
use riak_c_client.Messages.Index.Reply.{
  PbIndexResp, IndexResponse, key_count, result_count, sum_of, copy_results, fill_results, fill,
  assemble_index,
}
use riak_c_client.Messages.Index.Keys.{
  all_keys, shared_key, present, HaveKeys, sum_of-total, length-all_keys, copy_keys-Rich,
}

-- The loops over the messages and over the keys stay within an `int`, and the count of the results below 2 ^ 32.
pub record AreCountable (pbs : List PbIndexResp) : Type 0 where
  pub messages : length pbs < 2 ^ 31
  pub keys : length (all_keys pbs) < 2 ^ 31
  pub results : total result_count pbs < 2 ^ 32

key_sum :
    {pbs : List PbIndexResp}
    → AreCountable pbs
    → sum_of key_count 0 (present pbs) 0 ≡ some (length (all_keys pbs))
key_sum {pbs} small =
    sum_of-total key_count 0 pbs 0 (omega (arith, small.messages))
      (omega (arith, small.keys, length-all_keys pbs))
    ∙ ap some (omega (arith, length-all_keys pbs))

result_sum :
    {pbs : List PbIndexResp} {n : ℕ}
    → AreCountable pbs
    → total result_count pbs ≡ n
    → sum_of result_count 0 (present pbs) 0 ≡ some n
result_sum {pbs} small count =
    sum_of-total result_count 0 pbs 0 (omega (arith, small.messages)) (omega (arith, small.results))
    ∙ ap some (omega (arith, count))

-- The response with the keys of these messages.
abbrev pub with_keys : IndexResponse → List PbIndexResp → IndexResponse
with_keys kept pbs = record kept {
  keys = some (map shared_key (all_keys pbs));
  n_keys = length (all_keys pbs);
  results = some [];
  n_results = 0;
}

module _ {cfg : Config} (rich : IsRich cfg) (kept : IndexResponse) where
  pub assemble-keys :
      (pbs : List PbIndexResp) (h : Heap)
      → HaveKeys pbs
      → AreCountable pbs
      → total result_count pbs ≡ 0
      → Returns
          (λ r g. r ≡ (eriak_ok, with_keys kept pbs))
          (assemble_index cfg kept (present pbs) h)
  unfolding assemble_index fill fill_results copy_results
  assemble-keys pbs h keys small none_found =
      rw (key_sum small, result_sum small none_found)
        (bind_known _ (config_clean_allocate-Grants rich (mul64 8 (length (all_keys pbs))) h) λ g.
          bind_known _ (config_clean_allocate-Grants rich (mul64 8 0) g)
            λ k. bind_known _ (copy_keys-Rich rich pbs k keys small.keys) λ l. returns refl)

  pair-Rich :
      (pb : PbPair) (h : Heap)
      → Returns (λ r g. (x : Pair) × (r ≡ some x)) (pairs_copy_from_pb cfg pb h)
  unfolding pairs_copy_from_pb
  pair-Rich pb h = bind_known _ (config_clean_allocate-Grants rich sizeof_pair h) λ g.
      bind_known _ (from_pb-Rich rich pb.key g)
        λ k. bind_known _ (field-Rich rich pb.val.has pb.val.content k) λ l. returns (_, refl)

  first_result :
      (pb : PbIndexResp) (pbs : List PbIndexResp) {x : PbPair} {xs : List PbPair} (n : ℕ) (h : Heap)
      → pb.results ≡ x ∷ xs
      → Returns (λ r g. r ≡ none) (copy_results cfg (suc n) 0 0 (present (pb ∷ pbs)) h)
  unfolding copy_results
  first_result pb pbs {x} n h found =
      rw (found, copy_results)
        (Returns.bind (pair-Rich x h) λ r g (y, copied). rw copied (returns refl))

  -- A first message with a result.
  pub assemble-results :
      (pb : PbIndexResp) (pbs : List PbIndexResp) {x : PbPair} {xs : List PbPair} (h : Heap)
      → HaveKeys (pb ∷ pbs)
      → AreCountable (pb ∷ pbs)
      → pb.results ≡ x ∷ xs
      → Returns (λ r g. r.0 ≡ eriak_out_of_memory) (assemble_index cfg kept (present (pb ∷ pbs)) h)
  unfolding assemble_index fill fill_results
  assemble-results pb pbs {x} {xs} h keys small found =
      let n = length xs + total result_count pbs in
      let count : total result_count (pb ∷ pbs) ≡ suc n = omega (arith, ap length found) in
      rw (key_sum small, result_sum small count)
        (bind_known _ (config_clean_allocate-Grants rich (mul64 8 (length (all_keys (pb ∷ pbs)))) h)
          λ g. bind_known _ (config_clean_allocate-Grants rich (mul64 8 (suc n)) g) λ k.
            bind_known _ (copy_keys-Rich rich (pb ∷ pbs) k keys small.keys) λ l.
              bind_known _ (first_result pb pbs n l found)
                λ m. Returns.bind (free_if-Returns true m) λ _ o e. returns refl)
