-- ===== src/Messages/Search/Decoded.antt =====
-- The response that src/messages/riak_search.c makes of a message, and its blocks.
use riak_c_client.Base.{
  ℕ, suc, ◌≡◌, Bool, true, false, Option, none, some, List, [], ◌∷◌, length, arith, mul64, ltb,
}
use riak_c_client.Error.{eriak_ok}
use riak_c_client.Memory.{Heap, Config, ◌>>=◌}
use riak_c_client.Memory.Exact.{
  Gives, pure-Gives, recount, bind-Gives, config_clean_allocate-Gives, free_if-Gives,
}
use riak_c_client.Memory.Rich.{IsRich}
use riak_c_client.Message.{PbMessage}
use riak_c_client.Operation.{Operation, get_config}
use riak_c_client.ServerError.{payload}
use riak_c_client.Object.Types.{Flagged, PbPair}
use riak_c_client.Object.Copy.{free_each}
use riak_c_client.Object.Pairs.{pairs_free}
use riak_c_client.Wire.Read.{DecodeResult}
use riak_c_client.Messages.Search.Reply.{
  PbSearchResp, SearchResponse, sizeof_search_doc, sizeof_search_response, doc_from_pb, with_docs,
  search_response, search_response_decode, search_response_free,
}
use riak_c_client.Object.Loops.{free_each-Gives}
use riak_c_client.Messages.Search.Copied.{
  each-Gives, shared_doc, shared_response, doc_blocks, docs_blocks, response_blocks, doc-Gives,
  free_doc-Gives,
}

abbrev decoded_to : {F : Type 0} → PbSearchResp F → DecodeResult (SearchResponse F)
decoded_to pb = record { result = eriak_ok; response = some (shared_response pb); done = true }

module _ {F : Type 0} where
  with_docs-Gives :
      {cfg : Config}
      → IsRich cfg
      → (docs : List (List PbPair)) (max_score : Flagged F) (num_found : Flagged ℕ) (h : Heap)
      → let pb : PbSearchResp F = record {
        docs = docs;
        max_score = max_score;
        num_found = num_found;
      } in
        Gives h (decoded_to pb) (docs_blocks docs) 0 (with_docs cfg none pb h)
  unfolding with_docs
  with_docs-Gives rich [] max_score num_found h = pure-Gives _ h
  with_docs-Gives {cfg} rich (d ∷ ds) max_score num_found h =
      let some_doc : ltb 0 (suc (length ds)) ≡ true = ground arith in
      rw some_doc (
        recount
          (bind-Gives _
            (config_clean_allocate-Gives rich (mul64 sizeof_search_doc (suc (length ds))) h)
            λ g.
              bind-Gives _
                (each-Gives shared_doc doc_blocks (doc_from_pb cfg) (doc-Gives rich) (d ∷ ds) g)
                λ k. pure-Gives _ k)
          (omega arith) (omega arith))

  response-Gives :
      {cfg : Config}
      → IsRich cfg
      → (pb : PbSearchResp F) (done : Bool) (h : Heap)
      → Gives h (decoded_to pb) (response_blocks pb) 0 (search_response cfg none pb done h)
  unfolding search_response
  response-Gives rich pb done h =
      bind-Gives _ (config_clean_allocate-Gives rich sizeof_search_response h)
        λ g. with_docs-Gives rich pb.docs pb.max_score pb.num_found g

  free_response-Gives :
      (docs : List (List PbPair)) (max_score : Flagged F) (num_found : Flagged ℕ) (h : Heap)
      → let pb : PbSearchResp F = record {
        docs = docs;
        max_score = max_score;
        num_found = num_found;
      } in
        Gives h tt 0 (response_blocks pb) (search_response_free (some (shared_response pb)) h)
  unfolding search_response_free free_each
  free_response-Gives [] max_score num_found h =
      bind-Gives _ (free_if-Gives false h) λ g. free_if-Gives true g
  free_response-Gives (d ∷ ds) max_score num_found h =
      recount
        (bind-Gives _
          (free_each-Gives shared_doc doc_blocks (λ doc. pairs_free doc.fields doc.n_fields)
            free_doc-Gives (d ∷ ds) h)
          λ g. bind-Gives _ (free_if-Gives true g) λ k. free_if-Gives true k)
        (omega arith) (omega arith)

  module _ {D : Type 0} (unpack : List ℕ → Option (PbSearchResp F))
      (rop : Operation D (SearchResponse F)) (pbresp : PbMessage) (bytes : List ℕ)
      (pb : PbSearchResp F) (done : Bool) (h : Heap) (rich : IsRich (get_config rop))
      (fresh : rop.response ≡ none) (read : payload pbresp ≡ some bytes)
      (unpacks : unpack bytes ≡ some pb) where
    -- On an allocator that always has memory, an operation without a response so far and a message that unpacks:
    -- riak_search_response_decode returns success with the flag set and a new response of as many documents as
    -- the message has, in the same order, each with copies of its fields in order, which share their bytes with
    -- the message, and with the two scores and their flags; it takes one block for the response, one for a
    -- non-empty array of documents, one for the fields of each document, and two for each field, or three with
    -- a value, and gives none back.
    pub search_response_decode-shared :
        Gives h
          (record { result = eriak_ok; response = some (shared_response pb); done = true })
          (response_blocks pb)
          0
          (search_response_decode unpack rop (some pbresp) done h)
    unfolding search_response_decode
    search_response_decode-shared =
        rw (read, unpacks, fresh, search_response_decode) (response-Gives rich pb done h)

    -- On an allocator that always has memory, an operation without a response so far and a message that unpacks:
    -- riak_search_response_decode and then riak_search_response_free of its response do not fault, and give back
    -- as many blocks as they take.
    pub search_response_decode-free : Gives h tt (response_blocks pb) (response_blocks pb) (
        (do
          r ← search_response_decode unpack rop (some pbresp) done
          search_response_free r.response)
          h)
    search_response_decode-free =
        recount
          (bind-Gives _ search_response_decode-shared
            λ g. free_response-Gives pb.docs pb.max_score pb.num_found g)
          (omega arith) (omega arith)
