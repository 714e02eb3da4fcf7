-- ===== src/Messages/Search/Sent.antt =====
-- What the request for a search of src/messages/riak_search.c carries.
use riak_c_client.Base.{
  ◌≡◌, refl, ℕ, Bool, ◌+◌, ◌^◌, ◌<◌, true, false, Option, some, List, [], ◌∷◌, ◌++◌, map, length,
  ltb, mul64, arith,
}
use riak_c_client.Memory.{Heap, Config}
use riak_c_client.Memory.Returns
use riak_c_client.Error.{eriak_ok}
use riak_c_client.Operation.{Operation, get_config}
use riak_c_client.Binary.Print.{HasBytes}
use riak_c_client.Sync.Packed.{request, new-request}
use riak_c_client.Memory.Returns.{Returns, returns, free_if-Returns}
use riak_c_client.Memory.Rich.{IsRich, bind_known, config_clean_allocate-Grants}
use riak_c_client.Binary.{Binary, copy_to_pb}
use riak_c_client.Object.Copy.{bin_to_pb}
use riak_c_client.Object.Grow.{Slots}
use riak_c_client.Messages.Carried.{
  CarriesBytes, HasContent, flagged_to_pb-Carries, HasPacked, set_bucket-Keeps,
}
use riak_c_client.Messages.Listing.{cells_of}
use riak_c_client.Messages.Search.{
  SearchOptions, PbSearchReq, fields_to_pb, fields_request, with_search_options, search_request,
  search_message, search_request_encode, msg_rpbsearchqueryreq, sizeof_pb_binary,
}

-- The fields in use are these, which are not NULL; spare cells may stand behind.
pub record HasFields (fl : Slots Binary) (fields : List Binary) : Type 0 where
  pub spare : List (Option Binary)
  pub count : fl.count ≡ length fields
  pub cells : cells_of fl.cells ≡ map (λ b. some b) fields ++ spare

-- The options with a flag have their binaries, and the fields to return are these.
pub record AreFilled (options : SearchOptions) (fields : List Binary) : Type 0 where
  pub sort : HasContent options.sort
  pub filter : HasContent options.filter
  pub df : HasContent options.df
  pub op : HasContent options.op
  pub presort : HasContent options.presort
  pub fl : HasFields options.fl fields

-- The request has the query, the bucket as its index, every option, and the fields in order.
pub record CarriesSearch (bucket query : Binary) (options : SearchOptions) (fields : List Binary)
    (req : PbSearchReq) : Type 0 where
  pub q : req.q ≡ copy_to_pb query
  pub index : req.index ≡ copy_to_pb bucket
  pub rows : req.rows ≡ options.rows
  pub begin : req.begin ≡ options.begin
  pub sort : CarriesBytes options.sort req.sort
  pub filter : CarriesBytes options.filter req.filter
  pub df : CarriesBytes options.df req.df
  pub op : CarriesBytes options.op req.op
  pub presort : CarriesBytes options.presort req.presort
  pub fl : req.fl ≡ map copy_to_pb fields

fields_to_pb-all :
    (fields : List Binary) (spare : List (Option Binary)) (h : Heap)
    → Returns
        (λ r g. r ≡ map copy_to_pb fields)
        (fields_to_pb (length fields) (map (λ b. some b) fields ++ spare) h)
unfolding fields_to_pb bin_to_pb
fields_to_pb-all [] spare h = returns refl
fields_to_pb-all (b ∷ fields) spare h =
    bind_known _ (fields_to_pb-all fields spare h) λ g. returns refl

module _ {cfg : Config} (rich : IsRich cfg) where
  fields_request-all :
      (fl : Slots Binary) (fields : List Binary) (h : Heap)
      → HasFields fl fields
      → Returns (λ r g. r ≡ some (map copy_to_pb fields)) (fields_request cfg fl h)
  unfolding fields_request
  fields_request-all fl [] h held =
      let empty : ltb 0 fl.count ≡ false = ground (arith, held.count) in rw empty (returns refl)
  fields_request-all fl (b ∷ fields) h held =
      let some_field : ltb 0 fl.count ≡ true = ground (arith, held.count) in
      rw some_field (
        bind_known _ (config_clean_allocate-Grants rich (mul64 sizeof_pb_binary fl.count) h) λ g.
          rw (held.count, held.cells)
            (bind_known _ (fields_to_pb-all (b ∷ fields) held.spare g) λ k. returns refl))

  search_request-CarriesSearch :
      (bucket query : Binary) (options : SearchOptions) (fields : List Binary) (h : Heap)
      → AreFilled options fields
      → Returns
          (λ r g.
            (req : PbSearchReq) × (r ≡ some req) × CarriesSearch bucket query options fields req)
          (search_request cfg (some bucket) (some query) (some options) h)
  unfolding search_request with_search_options bin_to_pb
  search_request-CarriesSearch bucket query options fields h full =
      Returns.bind (flagged_to_pb-Carries options.sort _ h refl full.sort) λ sort g k1.
        Returns.bind (flagged_to_pb-Carries options.filter _ g refl full.filter) λ filter g2 k2.
          Returns.bind (flagged_to_pb-Carries options.df _ g2 refl full.df) λ df g3 k3.
            Returns.bind (flagged_to_pb-Carries options.op _ g3 refl full.op) λ op g4 k4.
              Returns.bind (flagged_to_pb-Carries options.presort _ g4 refl full.presort)
                λ presort g5 k5.
                  bind_known _ (fields_request-all options.fl fields g5 full.fl) λ g6. returns (
                    _,
                    refl,
                    record {
                      q = refl;
                      index = refl;
                      rows = refl;
                      begin = refl;
                      sort = k1;
                      filter = k2;
                      df = k3;
                      op = k4;
                      presort = k5;
                      fl = refl;
                    },
                  )

  search_message-Rich :
      (has_fields : Bool) (bytes : List ℕ) (h : Heap)
      → length bytes + 1 < 2 ^ 32
      → Returns
          (λ r g. r ≡ (eriak_ok, some (request msg_rpbsearchqueryreq bytes)))
          (search_message cfg has_fields bytes h)
  unfolding search_message
  search_message-Rich has_fields bytes h small =
      bind_known _ (config_clean_allocate-Grants rich (length bytes) h) λ g.
        Returns.bind (free_if-Returns has_fields g) λ _ k m.
          bind_known _ (new-request rich msg_rpbsearchqueryreq (omega arith) bytes small k)
            λ l. returns refl

-- riak_search_request_encode on an operation whose allocator always has memory, for a bucket whose bytes lie in
-- their block and a query, with options whose flagged binaries and whose fields to return are set: if every
-- request that carries this search packs into fewer than 2 ^ 32 - 1 bytes, the encoder returns success, and the
-- operation has the decoder and the message of such a request, which carries the query, the bucket as the index,
-- every option, and the fields to return in their order.
pub search_request_encode-CarriesSearch :
    {D R : Type 0} (pack : PbSearchReq → List ℕ) (decoder : D) (rop : Operation D R)
    {bucket : Binary} (query : Binary) (options : SearchOptions) (fields : List Binary) (h : Heap)
    → IsRich (get_config rop)
    → HasBytes bucket
    → AreFilled options fields
    → ((req : PbSearchReq)
        → CarriesSearch bucket query options fields req
        → length (pack req) + 1 < 2 ^ 32)
    → Returns
        (λ r g.
          HasPacked
            (CarriesSearch bucket query options fields)
            pack
            msg_rpbsearchqueryreq
            decoder
            r)
        (search_request_encode pack decoder rop (some bucket) (some query) (some options) h)
unfolding search_request_encode
search_request_encode-CarriesSearch pack decoder rop {bucket} query options fields h rich has_bucket
      filled small =
    Returns.bind (set_bucket-Keeps rop h has_bucket) λ rop' g same.
      Returns.bind (search_request-CarriesSearch rich bucket query options fields g filled)
        λ made k (req, e, carries). rw e (
          bind_known _
            (search_message-Rich rich (ltb 0 (length req.fl)) (pack req) k (small req carries))
            λ l. returns (record {
              succeeds = refl;
              req = req;
              carries = carries;
              sends = refl;
              decodes = refl;
            }))
