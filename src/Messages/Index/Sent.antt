-- ===== src/Messages/Index/Sent.antt =====
-- What the request for an index query of src/messages/riak_2i.c carries.
use riak_c_client.Base.{
  ◌≡◌, refl, Option, some, Bool-cases, ℕ, ◌+◌, ◌^◌, ◌<◌, List, length, inl, inr, arith,
}
use riak_c_client.Memory.{Heap}
use riak_c_client.Memory.Returns
use riak_c_client.Memory.Returns.{Returns, returns}
use riak_c_client.Binary.{Binary, PbBinary, copy_to_pb}
use riak_c_client.Binary.Print.{HasBytes}
use riak_c_client.Operation.{Operation, get_config}
use riak_c_client.Error.{eriak_ok}
use riak_c_client.Memory.{Config}
use riak_c_client.Memory.Rich.{IsRich, bind_known, config_clean_allocate-Grants}
use riak_c_client.Sync.Packed.{request, new-request}
use riak_c_client.Object.Types.{Flagged}
use riak_c_client.Object.Copy.{bin_to_pb, flagged_to_pb}
use riak_c_client.Messages.Carried.{
  CarriesBytes, HasContent, HasPacked, set_bucket-Keeps, set_index-Keeps, set_bucket_type-Keeps,
}
use riak_c_client.Messages.Index.{
  IndexOptions, PbIndexReq, replace_to_pb, with_index_options, index_request, msg_rpbindexreq,
  index_message, index_request_encode,
}

-- The request has the bucket, the index and every option; its bucket type is the one of the options.
pub record CarriesQuery (from_bucket from_index : Binary) (options : IndexOptions)
    (req : PbIndexReq) : Type 0 where
  pub bucket : req.bucket ≡ copy_to_pb from_bucket
  pub index : req.index ≡ copy_to_pb from_index
  pub qtype : req.qtype ≡ options.qtype
  pub key : CarriesBytes options.key req.key
  pub range_min : CarriesBytes options.range_min req.range_min
  pub range_max : CarriesBytes options.range_max req.range_max
  pub return_terms : req.return_terms ≡ options.return_terms
  pub stream : req.stream ≡ options.stream
  pub max_results : req.max_results ≡ options.max_results
  pub continuation : CarriesBytes options.continuation req.continuation
  pub timeout : req.timeout ≡ options.timeout
  pub bucket_type : CarriesBytes options.bucket_type req.bucket_type
  pub term_regex : CarriesBytes options.term_regex req.term_regex
  pub pagination_sort : req.pagination_sort ≡ options.pagination_sort

-- The options with a flag have their binaries.
pub record AreFilled (options : IndexOptions) : Type 0 where
  pub key : HasContent options.key
  pub range_min : HasContent options.range_min
  pub range_max : HasContent options.range_max
  pub continuation : HasContent options.continuation
  pub bucket_type : HasContent options.bucket_type
  pub term_regex : HasContent options.term_regex

replace_to_pb-CarriesBytes :
    (from : Flagged (Option Binary)) (to : Flagged PbBinary) (h : Heap)
    → HasContent from
    → Returns (λ r g. CarriesBytes from r) (replace_to_pb from to h)
unfolding replace_to_pb flagged_to_pb bin_to_pb
replace_to_pb-CarriesBytes from to h full = elim (Bool-cases (from.has)) [
  | inl e ↦
      let (b, held) = full e in
      rw (e, held) (returns (record { flag = refl; content = λ on. (b, refl, refl) }))
  | inr e ↦ rw e (returns (record { flag = refl; content = λ on. ground (arith, on, e) }))
]

index_request-CarriesQuery :
    (bucket_type : Option Binary) (bucket index : Binary) (options : IndexOptions) (h : Heap)
    → AreFilled options
    → Returns
        (λ req g. CarriesQuery bucket index options req)
        (index_request bucket_type (some bucket) (some index) (some options) h)
unfolding index_request with_index_options bin_to_pb
index_request-CarriesQuery bucket_type bucket index options h full =
    Returns.bind (replace_to_pb-CarriesBytes options.key _ h full.key) λ key g k1.
      Returns.bind (replace_to_pb-CarriesBytes options.range_min _ g full.range_min) λ low g2 k2.
        Returns.bind (replace_to_pb-CarriesBytes options.range_max _ g2 full.range_max)
          λ high g3 k3.
            Returns.bind (replace_to_pb-CarriesBytes options.continuation _ g3 full.continuation)
              λ more g4 k4.
                Returns.bind (replace_to_pb-CarriesBytes options.bucket_type _ g4 full.bucket_type)
                  λ t g5 k5.
                    Returns.bind
                      (replace_to_pb-CarriesBytes options.term_regex _ g5 full.term_regex)
                      λ regex g6 k6. returns (record {
                        bucket = refl;
                        index = refl;
                        qtype = refl;
                        key = k1;
                        range_min = k2;
                        range_max = k3;
                        return_terms = refl;
                        stream = refl;
                        max_results = refl;
                        continuation = k4;
                        timeout = refl;
                        bucket_type = k5;
                        term_regex = k6;
                        pagination_sort = refl;
                      })

index_message-Rich :
    {cfg : Config} (bytes : List ℕ) (h : Heap)
    → IsRich cfg
    → length bytes + 1 < 2 ^ 32
    → Returns
        (λ r g. r ≡ (eriak_ok, some (request msg_rpbindexreq bytes)))
        (index_message cfg bytes h)
unfolding index_message
index_message-Rich bytes h rich small =
    bind_known _ (config_clean_allocate-Grants rich (length bytes) h) λ g.
      bind_known _ (new-request rich msg_rpbindexreq (omega arith) bytes small g) λ k. returns refl

-- riak_2i_request_encode on an operation whose allocator always has memory, for a bucket, an index and a bucket
-- type or none whose bytes lie in their blocks, with options whose flagged binaries are set: if every request
-- that carries this query packs into fewer than 2 ^ 32 - 1 bytes, the encoder returns success, the operation has
-- the message of such a request and the decoder. The request has the bucket, the index and every option; it has
-- a bucket type exactly where the options have one, and then that one, whatever bucket type the encoder is
-- called with.
pub index_request_encode-CarriesQuery :
    {D R : Type 0} (pack : PbIndexReq → List ℕ) (decoder : D) (rop : Operation D R)
    (bucket_type : Option Binary) {bucket index : Binary} (options : IndexOptions) (h : Heap)
    → IsRich (get_config rop)
    → ((a : Binary) → bucket_type ≡ some a → HasBytes a)
    → HasBytes bucket
    → HasBytes index
    → AreFilled options
    → ((req : PbIndexReq) → CarriesQuery bucket index options req → length (pack req) + 1 < 2 ^ 32)
    → Returns
        (λ r g. HasPacked (CarriesQuery bucket index options) pack msg_rpbindexreq decoder r)
        (index_request_encode pack decoder rop bucket_type
          (some bucket)
          (some index)
          (some options)
          h)
unfolding index_request_encode
index_request_encode-CarriesQuery pack decoder rop bucket_type {bucket} {index} options h rich typed
      has_bucket has_index filled small =
    Returns.bind (set_bucket_type-Keeps rop bucket_type h typed) λ rop1 g e1.
      Returns.bind (set_bucket-Keeps rop1 g has_bucket) λ rop2 g2 e2.
        Returns.bind (set_index-Keeps rop2 g2 has_index) λ rop3 g3 e3.
          Returns.bind (index_request-CarriesQuery bucket_type bucket index options g3 filled)
            λ req g4 carries.
              bind_known _ (index_message-Rich (pack req) g4 rich (small req carries)) λ g5.
                returns (record {
                  succeeds = refl;
                  req = req;
                  carries = carries;
                  sends = refl;
                  decodes = refl;
                })
