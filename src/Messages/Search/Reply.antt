-- ===== src/Messages/Search/Reply.antt =====
-- The decoding of the response to a search, in src/messages/riak_search.c, and what it gives to the user.
use riak_c_client.Base.{
  ℕ, Bool, true, false, Option, none, some, List, is_some, length, ltb, mul64, get_elem?,
  if◌then◌else◌,
}
use riak_c_client.Error.{eriak_ok, eriak_out_of_memory, eriak_message_format}
use riak_c_client.Memory.{
  Cmd, fault, pure, value, ◌>>=◌, ◌>>◌, Config, config_clean_allocate, free_if,
}
use riak_c_client.Message.{PbMessage}
use riak_c_client.Operation.{Operation, get_config}
use riak_c_client.ServerError.{payload}
use riak_c_client.Object.Types.{Flagged, Pair, PbPair}
use riak_c_client.Object.Copy.{each, entries, free_each}
use riak_c_client.Object.Pairs.{pairs_copy_array_from_pb, pairs_free}
use riak_c_client.Wire.Read.{DecodeResult}

-- `RpbSearchQueryResp`; a document is the list of its fields.
pub record PbSearchResp (F : Type 0) : Type 0 where
  pub docs : List (List PbPair)
  pub max_score : Flagged F
  pub num_found : Flagged ℕ

-- `_riak_search_doc`
pub record SearchDoc : Type 0 where
  pub n_fields : ℕ
  pub fields : Option (List Pair)

-- `_riak_search_response`
pub record SearchResponse (F : Type 0) : Type 0 where
  pub n_docs : ℕ
  pub docs : Option (List SearchDoc)
  pub max_score : Flagged F
  pub num_found : Flagged ℕ
  pub internal : Option (PbSearchResp F)

abbrev pub sizeof_search_doc : ℕ
sizeof_search_doc = 16

abbrev pub sizeof_search_response : ℕ
sizeof_search_response = 40

-- A round of the loop over the documents; `none` without memory.
unfoldable pub doc_from_pb : Config → List PbPair → Cmd (Option SearchDoc)
doc_from_pb cfg fields = do
  copied ← pairs_copy_array_from_pb cfg fields (length fields)
  elim copied [
    | none ↦ pure none
    | some ps ↦ pure (some (record { n_fields = length fields; fields = some ps }))
  ]

module _ {F : Type 0} where
  -- A new response with what is copied of the message, before the documents.
  abbrev pub scores_of : PbSearchResp F → Option (List SearchDoc) → SearchResponse F
  scores_of pb old = record {
    n_docs = length pb.docs;
    docs = old;
    max_score = pb.max_score;
    num_found = pb.num_found;
    internal = some pb;
  }

  -- What the pointer to the response is worth after an error without memory for a document: a new response is
  -- lost. An old one has been given back, and the pointer to it stays, which is a fault here.
  abbrev pub search_remains : Option (SearchResponse F) → Cmd (DecodeResult (SearchResponse F))
  search_remains none = pure (record { result = eriak_out_of_memory; response = none; done = true })
  search_remains (some _) = λ h. fault

  -- The documents of a message. Those copied before a failure stay allocated; the array and the response are
  -- given back. A message without documents leaves the array of an old response as it is.
  unfoldable pub with_docs :
      Config → Option (SearchResponse F) → PbSearchResp F → Cmd (DecodeResult (SearchResponse F))
  with_docs cfg old pb =
      if ltb 0 (length pb.docs)
      then (do
        got ← config_clean_allocate (some cfg) (mul64 sizeof_search_doc (length pb.docs))
        elim got [
          | false ↦ do free_if true; search_remains old
          | true ↦ do
            docs ← each (doc_from_pb cfg) (length pb.docs) pb.docs
            elim docs [
              | none ↦ do free_if true; free_if true; search_remains old
              | some ds ↦ pure (record {
                result = eriak_ok;
                response = some (scores_of pb (some ds));
                done = true;
              })
            ]
        ])
      else pure (record {
        result = eriak_ok;
        response = some (scores_of pb (elim old [ none ↦ none | some r ↦ r.docs ]));
        done = true;
      })

  -- The response so far, or a new one.
  unfoldable pub search_response :
      Config
      → Option (SearchResponse F)
      → PbSearchResp F
      → Bool
      → Cmd (DecodeResult (SearchResponse F))
  search_response cfg (some response) pb done = with_docs cfg (some response) pb
  search_response cfg none pb done = do
    got ← config_clean_allocate (some cfg) sizeof_search_response
    elim got [
      | false ↦ pure (record { result = eriak_out_of_memory; response = none; done = done })
      | true ↦ with_docs cfg none pb
    ]

  -- `riak_search_response_decode`; a NULL message faults.
  unfoldable pub search_response_decode :
      {D : Type 0}
      → (List ℕ → Option (PbSearchResp F))
      → Operation D (SearchResponse F)
      → Option PbMessage
      → Bool
      → Cmd (DecodeResult (SearchResponse F))
  search_response_decode unpack rop none done = λ h. fault
  search_response_decode unpack rop (some pbresp) done = do
    bytes ← value (payload pbresp)
    elim (unpack bytes) [
      | none ↦ pure (record { result = eriak_message_format; response = rop.response; done = done })
      | some pb ↦ search_response (get_config rop) rop.response pb done
    ]

  -- `riak_search_response_free`; the unpacked message goes by protobuf-c's allocator.
  unfoldable pub search_response_free : Option (SearchResponse F) → Cmd (Unit {0})
  search_response_free none = pure tt
  search_response_free (some response) = do
    free_each (λ doc. pairs_free doc.fields doc.n_fields) response.n_docs (entries response.docs)
    free_if (is_some response.docs)
    free_if true

  -- `riak_search_get_doc`; `none` for NULL.
  abbrev pub search_get_doc : SearchResponse F → ℕ → Option SearchDoc
  search_get_doc response n =
      if ltb n response.n_docs then get_elem? (entries response.docs) n else none

-- `riak_search_doc_get_field`; `none` for NULL.
abbrev pub search_doc_get_field : SearchDoc → ℕ → Option Pair
search_doc_get_field doc n = if ltb n doc.n_fields then get_elem? (entries doc.fields) n else none
