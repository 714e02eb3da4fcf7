-- ===== src/Messages/Index/Tests.antt =====
-- Index queries at concrete messages, with a concrete unpacker.
use riak_c_client.Base.{
  ℕ, ◌≡◌, ◌≢◌, refl, inl, inr, Bool, true, false, Option, none, some, List, [], ◌∷◌, arith,
}
use riak_c_client.Error.{eriak_ok, eriak_out_of_memory}
use riak_c_client.Memory.Returns.{Returns}
use riak_c_client.Binary.{Binary, PbBinary}
use riak_c_client.Operation.{Operation, fresh}
use riak_c_client.ServerError.{payload}
use riak_c_client.Object.Types.{PbPair}
use riak_c_client.Object.Pairs.{unset_pb}
use riak_c_client.Wire.Decode.{message}
use riak_c_client.Wire.Tests.{rich-IsRich, cxn, start}
use riak_c_client.Messages.Request.{set_to}
use riak_c_client.Messages.Index.{IndexOptions, PbIndexReq, index_request_encode}
use riak_c_client.Messages.Index.Options.{no_index_options}
use riak_c_client.Messages.Index.Reply.{PbIndexResp, IndexResponse, no_index_response}
use riak_c_client.Messages.Index.Decode.{index_response_decode}
use riak_c_client.Messages.Index.Keys.{shared_key}
use riak_c_client.Messages.Index.Gathered.{IsKeeping, HasKept}
use riak_c_client.Messages.Index.Decoded.{
  IsUnpacked, index_response_decode-HasKept, index_response_decode-keys,
  index_response_decode-results, some-inj,
}
use riak_c_client.Messages.Carried.{HasPacked}
use riak_c_client.Binary.Print.{HasBytes}
use riak_c_client.Messages.Index.Sent.{CarriesQuery, AreFilled, index_request_encode-CarriesQuery}

abbrev letter : ℕ → PbBinary
letter c = record { len = 1; data_block = some (c ∷ []) }

-- A message with one key, and one that has a result as well.
abbrev page : ℕ → Bool → PbIndexResp
page c done = record {
  keys = letter c ∷ [];
  results = [];
  continuation = unset_pb;
  done = set_to done;
}

abbrev term : PbPair
term = record { key = letter 1; val = unset_pb }

abbrev with_term : PbIndexResp
with_term = record (page 7 true) { results = term ∷ [] }

abbrev unpack_page : PbIndexResp → List ℕ → Option PbIndexResp
unpack_page pb bytes = some pb

arrived : (pb : PbIndexResp) → IsUnpacked (unpack_page pb) (message 26 (1 ∷ [])) pb
unfolding payload
arrived pb = record { bytes = 1 ∷ []; carried = refl; unpacks = refl }

abbrev asking : Operation (Unit {0}) IndexResponse
asking = fresh cxn none none 0

-- The first message of two has come.
abbrev half : IndexResponse
half = record no_index_response { n_responses = 1; internal = some (some (page 7 false) ∷ []) }

abbrev halfway : Operation (Unit {0}) IndexResponse
halfway = record asking { response = some half }

half-IsKeeping : IsKeeping (page 7 false ∷ []) half
half-IsKeeping = record { count = refl; cells = λ held. refl }

index_response_decode-HasKept_example :
    Returns
      (λ r g. (r.result ≡ eriak_ok) × (r.done ≡ false) × HasKept (page 7 false ∷ []) r.response)
      (index_response_decode
        (unpack_page (page 7 false))
        asking
        (some (message 26 (1 ∷ [])))
        true
        start)
index_response_decode-HasKept_example =
    index_response_decode-HasKept (unpack_page (page 7 false)) asking (message 26 (1 ∷ [])) [] true
      start rich-IsRich (arrived (page 7 false)) (inl (refl, refl)) (omega arith) refl refl

abbrev both : List PbIndexResp
both = page 7 false ∷ page 8 true ∷ []

has_keys : (c : ℕ) → (letter c ∷ []) ≢ []
has_keys c e = ground (arith, e)

index_response_decode-keys_example :
    Returns
      (λ r g.
        (r.result ≡ eriak_ok)
        × (r.done ≡ true)
        × HasKept both r.response
        × ((response : IndexResponse) × (r.response ≡ some response)
            × (response.keys ≡ some (shared_key (letter 7) ∷ shared_key (letter 8) ∷ []))
            × (response.n_keys ≡ 2)
            × (response.n_results ≡ 0)))
      (index_response_decode
        (unpack_page (page 8 true))
        halfway
        (some (message 26 (1 ∷ [])))
        true
        start)
index_response_decode-keys_example =
    index_response_decode-keys (unpack_page (page 8 true)) halfway (message 26 (1 ∷ []))
      (page 7 false ∷ []) true start rich-IsRich (arrived (page 8 true))
      (inr (half, refl, half-IsKeeping)) refl (has_keys 7, (has_keys 8, tt))
      (record { messages = omega arith; keys = omega arith; results = omega arith }) refl

index_response_decode-results_example :
    Returns
      (λ r g. r.result ≡ eriak_out_of_memory)
      (index_response_decode (unpack_page with_term) asking (some (message 26 (1 ∷ []))) true start)
index_response_decode-results_example =
    index_response_decode-results (unpack_page with_term) asking (message 26 (1 ∷ [])) [] true start
      rich-IsRich (arrived with_term) (inl (refl, refl)) with_term [] refl refl (has_keys 7, tt)
      (record { messages = omega arith; keys = omega arith; results = omega arith }) refl

-- A query for one key, with a bucket type beside its options.
abbrev of_byte : ℕ → Binary
of_byte c = record { len = 1; data_block = some (c ∷ []); managed = true }

abbrev options : IndexOptions
options = record no_index_options { key = set_to (some (of_byte 5)); max_results = set_to 10 }

options-AreFilled : AreFilled options
options-AreFilled = record {
  key = λ on. (of_byte 5, refl);
  range_min = λ on. ground (arith, on);
  range_max = λ on. ground (arith, on);
  continuation = λ on. ground (arith, on);
  bucket_type = λ on. ground (arith, on);
  term_regex = λ on. ground (arith, on);
}

-- A packer that writes the number of results asked for.
abbrev pack_query : PbIndexReq → List ℕ
pack_query req = req.max_results.content ∷ []

of_byte-HasBytes : (c : ℕ) → HasBytes (of_byte c)
of_byte-HasBytes c = record { within = omega arith }

index_request_encode-CarriesQuery_example :
    Returns
      (λ r g. HasPacked (CarriesQuery (of_byte 2) (of_byte 3) options) pack_query 25 tt r)
      (index_request_encode pack_query tt asking
        (some (of_byte 1))
        (some (of_byte 2))
        (some (of_byte 3))
        (some options)
        start)
index_request_encode-CarriesQuery_example =
    index_request_encode-CarriesQuery pack_query tt asking (some (of_byte 1)) options start
      rich-IsRich (λ a e. rw (← some-inj e) (of_byte-HasBytes 1)) (of_byte-HasBytes 2)
      (of_byte-HasBytes 3) options-AreFilled (λ req carries. omega arith)
