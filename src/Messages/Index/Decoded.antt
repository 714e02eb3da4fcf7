-- ===== src/Messages/Index/Decoded.antt =====
-- riak_2i_response_decode of src/messages/riak_2i.c, message by message.
use mathlib.Core.Path.{subst}
use riak_c_client.Base.{
  ℕ, ◌+◌, ◌^◌, ◌<◌, ◌≡◌, refl, ap, sym, Bool, true, false, Option, none, some, List, [], ◌∷◌, ◌++◌,
  map, length, arith, total, length-append, ◌||◌, inl, inr,
}
use riak_c_client.Error.{eriak_ok, eriak_out_of_memory}
use riak_c_client.Memory.{Heap}
use riak_c_client.Memory.Returns
use riak_c_client.Memory.Returns.{Returns, returns}
use riak_c_client.Memory.Rich.{IsRich, bind_known, config_clean_allocate-Grants}
use riak_c_client.Message.{PbMessage}
use riak_c_client.Operation.{Operation, get_config}
use riak_c_client.ServerError.{payload}
use riak_c_client.Object.Types.{PbPair}
use riak_c_client.Wire.Read.{DecodeResult}
use riak_c_client.Messages.Index.Reply.{
  PbIndexResp, IndexResponse, sizeof_index_response, no_index_response, index_done, result_count,
}
use riak_c_client.Messages.Index.Decode.{add_message, add_onto, index_response_decode}
use riak_c_client.Messages.Index.Keys.{all_keys, shared_key, present, HaveKeys}
use riak_c_client.Messages.Index.Assembled.{AreCountable, with_keys}
use riak_c_client.Messages.Index.Gathered.{
  IsKeeping, HasKept, keep_one, end_with, add-more, add-last, add-results,
}

none-some : {A : Type 0} {a : A} → (none ≡ some a) → ⊥
none-some e = cc

pub some-inj : {A : Type 0} {a b : A} → some a ≡ some b → a ≡ b
some-inj e = cc

-- A message that is decoded: it is there, and unpacks.
pub record IsUnpacked (unpack : List ℕ → Option PbIndexResp) (pbresp : PbMessage) (pb : PbIndexResp)
    : Type 0 where
  pub bytes : List ℕ
  pub carried : payload pbresp ≡ some bytes
  pub unpacks : unpack bytes ≡ some pb

module _ {D : Type 0} (unpack : List ℕ → Option PbIndexResp) (rop : Operation D IndexResponse)
    (pbresp : PbMessage) {pb : PbIndexResp} (pbs : List PbIndexResp) (done : Bool) (h : Heap)
    (rich : IsRich (get_config rop)) (unpacked : IsUnpacked unpack pbresp pb)
    (kept : HasKept pbs rop.response) where
  -- What the decoder does with the message.
  decoded :
      {Post : DecodeResult IndexResponse → Heap → Type 0}
      → ((old : Option IndexResponse) (response : IndexResponse) (g : Heap)
          → IsKeeping pbs response
          → Returns Post (add_message (get_config rop) rop.streaming old response pb g))
      → Returns Post (index_response_decode unpack rop (some pbresp) done h)
  unfolding index_response_decode add_onto
  decoded {Post} adds =
      rw (unpacked.carried, unpacked.unpacks, index_response_decode) (onto rop.response kept)
    where
      onto :
          (old : Option IndexResponse)
          → HasKept pbs old
          → Returns Post (add_onto (get_config rop) rop.streaming old pb done h)
      onto none (inl (empty, _)) =
          bind_known _ (config_clean_allocate-Grants rich sizeof_index_response h) λ g.
            adds none no_index_response g (record {
              count = ap length (sym empty);
              cells = λ held. ground (arith, held, ap length empty);
            })
      onto none (inr (response, e, keeping)) = absurd (none-some e)
      onto (some old) (inl (_, e)) = absurd (none-some (sym e))
      onto (some old) (inr (response, e, keeping)) =
          adds (some old) old h (subst (IsKeeping pbs) (sym (some-inj e)) keeping)

  kept_more :
      (response : IndexResponse)
      → response.n_responses ≡ length (pbs ++ (pb ∷ []))
      → response.internal ≡ some (present (pbs ++ (pb ∷ [])))
      → HasKept (pbs ++ (pb ∷ [])) (some response)
  kept_more response count cells =
      inr (response, refl, record { count = count; cells = λ held. cells })

  few : AreCountable (pbs ++ (pb ∷ [])) → length pbs + 1 < 2 ^ 32
  few small = omega (arith, small.messages, length-append pbs (pb ∷ []))

  -- An operation that does not stream, on an allocator that always has memory, that has kept the messages so
  -- far, fewer than 2 ^ 32 - 1, and one more message, which unpacks and is not the last:
  -- riak_2i_response_decode returns success, with the flag not set and the message kept behind the others.
  pub index_response_decode-HasKept :
      length pbs + 1 < 2 ^ 32
      → rop.streaming ≡ false
      → index_done pb ≡ false
      → Returns
          (λ r g. (r.result ≡ eriak_ok) × (r.done ≡ false) × HasKept (pbs ++ (pb ∷ [])) r.response)
          (index_response_decode unpack rop (some pbresp) done h)
  index_response_decode-HasKept few quiet going = decoded λ old response g keeping. rw quiet (
      Returns.mono (add-more rich old pbs pb g keeping few going)
        λ r k e. rw e (refl, refl, kept_more (end_with (keep_one response pbs pb) pb) refl refl))

  -- An operation on an allocator that always has memory that has kept the messages so far and
  -- gets one more, which unpacks and is the last, or any when the operation streams; every message so far has a
  -- key, none has a result, and the messages as well as the keys are fewer than 2 ^ 31: riak_2i_response_decode
  -- returns success, with the flag of the message and the message kept behind the others, and the response has
  -- the keys of all messages so far, in order, and no result.
  pub index_response_decode-keys :
      (rop.streaming || index_done pb) ≡ true
      → HaveKeys (pbs ++ (pb ∷ []))
      → AreCountable (pbs ++ (pb ∷ []))
      → total result_count (pbs ++ (pb ∷ [])) ≡ 0
      → Returns
          (λ r g.
            (r.result ≡ eriak_ok)
            × (r.done ≡ index_done pb)
            × HasKept (pbs ++ (pb ∷ [])) r.response
            × ((response : IndexResponse) × (r.response ≡ some response)
                × (response.keys ≡ some (map shared_key (all_keys (pbs ++ (pb ∷ [])))))
                × (response.n_keys ≡ length (all_keys (pbs ++ (pb ∷ []))))
                × (response.n_results ≡ 0)))
          (index_response_decode unpack rop (some pbresp) done h)
  index_response_decode-keys ends keys small none_found = decoded λ old response g keeping.
      Returns.mono
        (add-last rich old pbs pb g keeping (few small) rop.streaming ends keys small none_found)
        λ r k e.
          let all = pbs ++ (pb ∷ []) in
          let made = end_with (with_keys (keep_one response pbs pb) all) pb in
          rw e (refl, refl, kept_more made refl refl, (made, refl, refl, refl, refl))

  -- An operation on an allocator that always has memory that has kept the messages so far and
  -- gets one more, which unpacks and is the last, or any when the operation streams; every message so far has a
  -- key, the first has a result, the messages as well as the keys are fewer than 2 ^ 31, and the results fewer
  -- than 2 ^ 32: riak_2i_response_decode
  -- returns ERIAK_OUT_OF_MEMORY.
  pub index_response_decode-results :
      (first : PbIndexResp) (others : List PbIndexResp) {x : PbPair} {xs : List PbPair}
      → (rop.streaming || index_done pb) ≡ true
      → pbs ++ (pb ∷ []) ≡ first ∷ others
      → HaveKeys (first ∷ others)
      → AreCountable (first ∷ others)
      → first.results ≡ x ∷ xs
      → Returns
          (λ r g. r.result ≡ eriak_out_of_memory)
          (index_response_decode unpack rop (some pbresp) done h)
  index_response_decode-results first others ends split keys small found =
      decoded λ old response g keeping.
        add-results rich old pbs pb g keeping (few (subst AreCountable (sym split) small)) first
          others rop.streaming split ends keys small found
