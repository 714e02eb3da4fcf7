-- ===== src/Messages/Search/Copied.antt =====
-- The pairs and documents of a response in src/messages/riak_search.c: their copies, their blocks, their frees.
use riak_c_client.Base.{
  ℕ, ◌+◌, true, false, Option, none, some, List, [], ◌∷◌, map, length, total, arith, mul64,
  if◌then◌else◌, Bool-cases, inl, inr,
}
use riak_c_client.Memory.{Heap, Cmd, Config}
use riak_c_client.Memory.Returns.{one_if}
use riak_c_client.Memory.Exact.{
  Gives, pure-Gives, recount, bind-Gives, config_allocate-Gives, config_clean_allocate-Gives,
  free_if-Gives,
}
use riak_c_client.Memory.Rich.{IsRich}
use riak_c_client.Binary
use riak_c_client.Binary.{PbBinary, copy_from_pb, sizeof_binary}
use riak_c_client.Object.Types.{Flagged, Pair, PbPair, sizeof_pair}
use riak_c_client.Object.Loops.{free_each-Gives}
use riak_c_client.Object.Copy.{each, free_array, copy_array, flagged_from_pb}
use riak_c_client.Object.Links.{unset}
use riak_c_client.Object.Pairs.{pairs_copy_from_pb, pairs_copy_array_from_pb, pair_free, pairs_free}
use riak_c_client.Messages.Index.Keys.{shared_key}
use riak_c_client.Messages.Search.Reply.{PbSearchResp, SearchDoc, SearchResponse, doc_from_pb}

-- Loops whose rounds succeed.
module _ {A B : Type 0} (to : A → B) (cost : A → ℕ) where
  pub each-Gives :
      (one : A → Cmd (Option B))
      → ((x : A) (h : Heap) → Gives h (some (to x)) (cost x) 0 (one x h))
      → (xs : List A) (h : Heap)
      → Gives h (some (map to xs)) (total cost xs) 0 (each one (length xs) xs h)
  unfolding each
  each-Gives one one-Gives [] h = pure-Gives (some []) h
  each-Gives one one-Gives (x ∷ xs) h =
      recount
        (bind-Gives _ (one-Gives x h)
          λ g. bind-Gives _ (each-Gives one one-Gives xs g) λ k. pure-Gives _ k)
        (omega arith) (omega arith)

-- A pair of a message, whose copy shares its bytes.
abbrev pub shared_value : Flagged PbBinary → Flagged (Option Binary.Binary)
shared_value v = if v.has then record { has = true; content = shared_key v.content } else unset

abbrev pub shared_pair : PbPair → Pair
shared_pair pb = record { key = shared_key pb.key; val = shared_value pb.val }

abbrev pub shared_doc : List PbPair → SearchDoc
shared_doc fields = record { n_fields = length fields; fields = some (map shared_pair fields) }

-- The documents in order; NULL for none.
abbrev pub shared_docs : List (List PbPair) → Option (List SearchDoc)
shared_docs [] = none
shared_docs (d ∷ ds) = some (map shared_doc (d ∷ ds))

abbrev pub shared_response : {F : Type 0} → PbSearchResp F → SearchResponse F
shared_response pb = record {
  n_docs = length pb.docs;
  docs = shared_docs pb.docs;
  max_score = pb.max_score;
  num_found = pb.num_found;
  internal = some pb;
}

-- The blocks of a pair, of a document, of the documents and of the response.
abbrev pub pair_blocks : PbPair → ℕ
pair_blocks pb = 2 + one_if pb.val.has

abbrev pub doc_blocks : List PbPair → ℕ
doc_blocks fields = 1 + total pair_blocks fields

abbrev pub docs_blocks : List (List PbPair) → ℕ
docs_blocks [] = 0
docs_blocks (d ∷ ds) = 1 + total doc_blocks (d ∷ ds)

abbrev pub response_blocks : {F : Type 0} → PbSearchResp F → ℕ
response_blocks pb = 1 + docs_blocks pb.docs

module _ {cfg : Config} (rich : IsRich cfg) where
  from_pb-Gives : (pb : PbBinary) (h : Heap) → Gives h (shared_key pb) 1 0 (copy_from_pb cfg pb h)
  unfolding copy_from_pb
  from_pb-Gives pb h = bind-Gives _ (config_allocate-Gives rich sizeof_binary h) λ g. pure-Gives _ g

  value-Gives :
      (v : Flagged PbBinary) (h : Heap)
      → Gives h (some (shared_value v)) (one_if v.has) 0 (flagged_from_pb cfg v h)
  unfolding flagged_from_pb
  value-Gives v h = elim (Bool-cases (v.has)) [
    | inl e ↦ rw e (bind-Gives _ (from_pb-Gives v.content h) λ g. pure-Gives _ g)
    | inr e ↦ rw e (pure-Gives _ h)
  ]

  pair-Gives :
      (pb : PbPair) (h : Heap)
      → Gives h (some (shared_pair pb)) (pair_blocks pb) 0 (pairs_copy_from_pb cfg pb h)
  unfolding pairs_copy_from_pb
  pair-Gives pb h =
      recount
        (bind-Gives _ (config_clean_allocate-Gives rich sizeof_pair h) λ g.
          bind-Gives _ (from_pb-Gives pb.key g)
            λ k. bind-Gives _ (value-Gives pb.val k) λ l. pure-Gives _ l)
        (omega arith) (omega arith)

  pub doc-Gives :
      (fields : List PbPair) (h : Heap)
      → Gives h (some (shared_doc fields)) (doc_blocks fields) 0 (doc_from_pb cfg fields h)
  unfolding doc_from_pb pairs_copy_array_from_pb copy_array
  doc-Gives fields h =
      recount
        (bind-Gives _
          (bind-Gives _ (config_clean_allocate-Gives rich (mul64 8 (length fields)) h)
            λ g. each-Gives shared_pair pair_blocks _ pair-Gives fields g)
          λ k. pure-Gives _ k)
        (omega arith) (omega arith)

free_shared-Gives : (key : PbBinary) (h : Heap) → Gives h tt 0 1 (Binary.free (shared_key key) h)
unfolding Binary.free
free_shared-Gives key h = bind-Gives _ (free_if-Gives false h) λ g. free_if-Gives true g

free_value-Gives :
    (v : Flagged PbBinary) (h : Heap)
    → Gives h tt 0 (one_if v.has) (Binary.free (shared_value v).content h)
unfolding Binary.free
free_value-Gives v h = elim (Bool-cases (v.has)) [
  | inl e ↦ rw e (free_shared-Gives v.content h)
  | inr e ↦ rw e (pure-Gives _ h)
]

free_pair-Gives :
    (pb : PbPair) (h : Heap) → Gives h tt 0 (pair_blocks pb) (pair_free (shared_pair pb) h)
unfolding pair_free
free_pair-Gives pb h =
    recount
      (bind-Gives _ (free_shared-Gives pb.key h)
        λ g. bind-Gives _ (free_value-Gives pb.val g) λ k. free_if-Gives true k)
      (omega arith) (omega arith)

pub free_doc-Gives :
    (fields : List PbPair) (h : Heap)
    → Gives h tt 0
        (doc_blocks fields)
        (pairs_free (some (map shared_pair fields)) (length fields) h)
unfolding pairs_free free_array
free_doc-Gives fields h =
    recount
      (bind-Gives _ (free_each-Gives shared_pair pair_blocks _ free_pair-Gives fields h)
        λ g. free_if-Gives true g)
      (omega arith) (omega arith)
