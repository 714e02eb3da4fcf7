-- ===== src/Sync/ListKeys.antt =====
-- riak_listkeys of src/riak.c, with the keys of all messages of its response.
use riak_c_client.Base.{
  ℕ, suc, ◌+◌, ◌^◌, ◌<◌, ◌≡◌, refl, ap, ◌∙◌, true, false, Option, none, some, List, [], ◌∷◌, ◌++◌,
  arith, length, take-length,
}
use riak_c_client.Memory.{Heap}
use riak_c_client.Memory.Returns.{Returns}
use riak_c_client.Memory.Rich.{IsRich}
use riak_c_client.Connection.{Connection}
use riak_c_client.Binary.{Binary, copy_to_pb}
use riak_c_client.Object.Copy.{bin_to_pb}
use riak_c_client.ServerError.{PbErrorResp}
use riak_c_client.Wire.Read.{Reply}
use riak_c_client.Wire.Send.{frame, IsSink}
use riak_c_client.Messages.Request.{optional_to_pb, if_positive}
use riak_c_client.Messages.Listing.{PbListing, done_of}
use riak_c_client.Messages.Listing.Listed.{listed}
use riak_c_client.Messages.Listing.Streamed.{by_listing, IsPart, part-Answers_by}
use riak_c_client.Messages.ListKeys.{PbListKeysReq, msg_rpblistkeysreq, listkeys_request_encode}
use riak_c_client.Sync.Answer.{ArrivesWhole}
use riak_c_client.Sync.Call.{IsAnswered}
use riak_c_client.Sync.Packed.{encode_packed-Encodes, request-CanSend}
use riak_c_client.Sync.Streamed
use riak_c_client.Sync.Streamed.{Coming, call-streamed}
use riak_c_client.Sync.Calls.{listkeys}

-- From the transport `io`, the rest of a listing comes, after the messages `pbs` and up to `all`, in no more
-- messages than `bound`, each of them whole; its last message, and no other, has the flag `done`.
pub data Pages {S : Type 0} (read_cb : S → ℕ → Reply × S) (unpack : List ℕ → Option PbListing)
    (all : List PbListing) : S → ℕ → List PbListing → Type 0 where
  last_page :
      {io io' : S} {id bound : ℕ} {rest : List ℕ} {pbs : List PbListing} {pb : PbListing}
      → ArrivesWhole read_cb io io' id rest
      → IsPart unpack pbs rest pb
      → done_of pb ≡ true
      → all ≡ pbs ++ (pb ∷ [])
      → Pages read_cb unpack all io (suc bound) pbs
  more_pages :
      {io io' : S} {id bound : ℕ} {rest : List ℕ} {pbs : List PbListing} {pb : PbListing}
      → ArrivesWhole read_cb io io' id rest
      → IsPart unpack pbs rest pb
      → done_of pb ≡ false
      → Pages read_cb unpack all io' bound (pbs ++ (pb ∷ []))
      → Pages read_cb unpack all io (suc bound) pbs

-- The request for the keys of a bucket.
abbrev pub keys_request : Option Binary → Binary → ℕ → PbListKeysReq
keys_request bucket_type bucket timeout = record {
  bucket_type = optional_to_pb bucket_type;
  bucket = copy_to_pb bucket;
  timeout = if_positive timeout;
}

module _ {S : Type 0} (read_cb : S → ℕ → Reply × S) (write_cb : S → List ℕ → ℕ × S)
    (unpack : List ℕ → Option PbListing) (unpack_error : List ℕ → Option PbErrorResp)
    (fuel self : ℕ) (cxn : Connection) (rich : IsRich cxn.config) where
  Pages-Coming :
      {all : List PbListing} {io : S} {bound : ℕ} {pbs : List PbListing}
      → Pages read_cb unpack all io bound pbs
      → Coming read_cb
          (by_listing {D = Unit {0}} unpack)
          unpack_error
          cxn.config
          tt
          (listed all)
          io
          bound
          (listed pbs)
  Pages-Coming (last_page {id} arrival part flag whole) =
      Streamed.last arrival
        (part-Answers_by read_cb unpack unpack_error rich tt id arrival.small part flag whole)
  Pages-Coming (more_pages {id} arrival part flag pages) =
      Streamed.more arrival
        (part-Answers_by read_cb unpack unpack_error rich tt id arrival.small part flag refl)
        (Pages-Coming pages)

  -- riak_listkeys for a bucket, with a type or not and with a timeout, which 0 leaves out, on a
  -- connection whose allocator always has memory and a socket that takes the whole request: if the
  -- server answers exactly the message of this request with a listing of any number of messages up
  -- to `fuel`, each of which comes whole and unpacks, with all counts below 2 ^ 32 and the flag `done`
  -- in the last and no other, then the call returns success with the keys of all messages, in order,
  -- each a copy.
  pub listkeys-IsAnswered :
      {taken : S → List ℕ}
      → IsSink write_cb taken
      → (io : S) (h : Heap) (pack : PbListKeysReq → List ℕ) (bucket_type : Option Binary)
        (bucket : Binary) (timeout : ℕ) {all : List PbListing}
      → length (pack (keys_request bucket_type bucket timeout)) + 1 < 2 ^ 32
      → ((io' : S)
          → taken io'
            ≡ taken io ++ frame msg_rpblistkeysreq (pack (keys_request bucket_type bucket timeout))
          → Pages read_cb unpack all io' fuel [])
      → Returns
          (λ r g. IsAnswered (listed all) r)
          (listkeys read_cb write_cb
            (by_listing {D = Unit {0}} unpack)
            unpack_error
            fuel
            self
            tt
            cxn
            io
            none
            pack
            bucket_type
            (some bucket)
            timeout
            h)
  unfolding listkeys listkeys_request_encode bin_to_pb
  listkeys-IsAnswered {taken} sink io h pack bucket_type bucket timeout small pages =
      let sent = pack (keys_request bucket_type bucket timeout) in
      call-streamed read_cb write_cb (by_listing {D = Unit {0}} unpack) unpack_error fuel self rich
        sink (request-CanSend msg_rpblistkeysreq sent small) io _ h
        (encode_packed-Encodes rich tt msg_rpblistkeysreq (omega arith) sent small _ _)
        λ io' took.
          Pages-Coming (
            pages io'
              (took ∙ ap (λ xs. taken io ++ frame msg_rpblistkeysreq xs) (take-length sent)))
