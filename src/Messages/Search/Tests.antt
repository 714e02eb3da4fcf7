-- ===== src/Messages/Search/Tests.antt =====
-- A search at concrete messages, with a concrete unpacker.
use riak_c_client.Base.{ℕ, ◌≡◌, refl, true, false, Option, none, some, List, [], ◌∷◌, arith}
use riak_c_client.Error.{eriak_ok}
use riak_c_client.Memory.{◌>>=◌}
use riak_c_client.Memory.Returns.{Returns}
use riak_c_client.Memory.Exact.{Gives}
use riak_c_client.Binary.{Binary, PbBinary}
use riak_c_client.Operation.{Operation, fresh}
use riak_c_client.ServerError.{payload}
use riak_c_client.Object.Pairs.{unset_pb}
use riak_c_client.Wire.Decode.{message}
use riak_c_client.Wire.Tests.{rich-IsRich, cxn, start}
use riak_c_client.Messages.Request.{set_to}
use riak_c_client.Messages.Search.{SearchOptions, PbSearchReq, search_request_encode}
use riak_c_client.Messages.Search.Options.{no_search_options}
use riak_c_client.Messages.Search.Reply.{
  PbSearchResp, SearchResponse, search_response_decode, search_response_free,
}
use riak_c_client.Messages.Search.Copied.{shared_response}
use riak_c_client.Messages.Search.Decoded.{
  search_response_decode-shared, search_response_decode-free,
}
use riak_c_client.Messages.Carried.{HasPacked}
use riak_c_client.Messages.Search.Sent.{
  CarriesSearch, AreFilled, search_request_encode-CarriesSearch,
}

abbrev letter : ℕ → PbBinary
letter c = record { len = 1; data_block = some (c ∷ []) }

-- Two documents: one of two fields, of which the second has no value, and one without fields. The score is a
-- parameter; here it is a number.
abbrev found : PbSearchResp ℕ
found = record {
  docs =
      (record { key = letter 1; val = set_to (letter 2) }
        ∷ record { key = letter 3; val = unset_pb }
        ∷ [])
      ∷ []
      ∷ [];
  max_score = set_to 5;
  num_found = set_to 2;
}

abbrev unpack_found : List ℕ → Option (PbSearchResp ℕ)
unpack_found bytes = some found

abbrev asking : Operation (Unit {0}) (SearchResponse ℕ)
asking = fresh cxn none none 0

arrived : payload (message 28 (1 ∷ [])) ≡ some (1 ∷ [])
unfolding payload
arrived = refl

search_response_decode-shared_example :
    Gives start
      (record { result = eriak_ok; response = some (shared_response found); done = true })
      9
      0
      (search_response_decode unpack_found asking (some (message 28 (1 ∷ []))) false start)
search_response_decode-shared_example =
    search_response_decode-shared unpack_found asking (message 28 (1 ∷ [])) (1 ∷ []) found false
      start rich-IsRich refl arrived refl

search_response_decode-free_example : Gives start tt 9 9 (
    (do
      r ← search_response_decode unpack_found asking (some (message 28 (1 ∷ []))) false
      search_response_free r.response)
      start)
search_response_decode-free_example =
    search_response_decode-free unpack_found asking (message 28 (1 ∷ [])) (1 ∷ []) found false start
      rich-IsRich refl arrived refl

-- A search with a filter and two fields to return, for which the array has a spare cell.
abbrev of_byte : ℕ → Binary
of_byte c = record { len = 1; data_block = some (c ∷ []); managed = true }

abbrev options : SearchOptions
options = record no_search_options {
  rows = set_to 10;
  filter = set_to (some (of_byte 5));
  fl = record { count = 2; cells = some (some (of_byte 6) ∷ some (of_byte 7) ∷ none ∷ []) };
}

options-AreFilled : AreFilled options (of_byte 6 ∷ of_byte 7 ∷ [])
options-AreFilled = record {
  sort = λ on. ground (arith, on);
  filter = λ on. (of_byte 5, refl);
  df = λ on. ground (arith, on);
  op = λ on. ground (arith, on);
  presort = λ on. ground (arith, on);
  fl = record { spare = none ∷ []; count = refl; cells = refl };
}

-- A packer that writes the number of rows asked for.
abbrev pack_search : PbSearchReq → List ℕ
pack_search req = req.rows.content ∷ []

search_request_encode-CarriesSearch_example :
    Returns
      (λ r g.
        HasPacked
          (CarriesSearch (of_byte 2) (of_byte 3) options (of_byte 6 ∷ of_byte 7 ∷ []))
          pack_search
          27
          tt
          r)
      (search_request_encode pack_search tt asking
        (some (of_byte 2))
        (some (of_byte 3))
        (some options)
        start)
search_request_encode-CarriesSearch_example =
    search_request_encode-CarriesSearch pack_search tt asking (of_byte 3) options
      (of_byte 6 ∷ of_byte 7 ∷ []) start rich-IsRich (record { within = omega arith })
      options-AreFilled (λ req carries. omega arith)
