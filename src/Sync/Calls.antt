-- ===== src/Sync/Calls.antt =====
-- The synchronous calls of src/riak.c. `decoder` is the number of the response decoder that the encoder installs.
use riak_c_client.Base.{ℕ, Option, none, List, is_some}
use riak_c_client.Memory.{Cmd, pure, ◌>>=◌, ◌>>◌, free_if}
use riak_c_client.Connection.{Connection}
use riak_c_client.Binary.{Binary}
use riak_c_client.ServerError.{PbErrorResp}
use riak_c_client.Object.Types.{RiakObject}
use riak_c_client.Wire.Read.{Reply, Decode}
use riak_c_client.Messages.Acknowledgement.{Acknowledged}
use riak_c_client.Messages.ServerInfo.{serverinfo_request_encode}
use riak_c_client.Messages.ClientId.{
  PbSetClientIdReq, get_clientid_request_encode, set_clientid_request_encode,
}
use riak_c_client.Messages.Get.{GetOptions, PbGetReq, get_request_encode}
use riak_c_client.Messages.Put.{PutOptions, PbPutReq, put_request_encode}
use riak_c_client.Messages.Delete.{DeleteOptions, PbDelReq, delete_request_encode}
use riak_c_client.Messages.ListKeys.{PbListKeysReq, listkeys_request_encode}
use riak_c_client.Messages.ListBuckets.{PbListBucketsReq, listbuckets_request_encode}
use riak_c_client.Messages.ResetBucket.{PbResetBucketReq, reset_bucketprops_request_encode}
use riak_c_client.BucketProps.Types.{BucketProps}
use riak_c_client.Messages.GetBucket.{PbGetBucketReq, get_bucketprops_request_encode}
use riak_c_client.Messages.SetBucket.{PbSetBucketReq, set_bucketprops_request_encode}
use riak_c_client.Messages.MapReduce.{PbMapRedReq, mapreduce_request_encode}
use riak_c_client.Messages.Index.{PbIndexReq, IndexOptions, index_request_encode}
use riak_c_client.Messages.Index.Reply.{IndexResponse}
use riak_c_client.Messages.Search.{PbSearchReq, SearchOptions, search_request_encode}
use riak_c_client.Messages.Search.Reply.{SearchResponse}
use riak_c_client.Sync.{Synced, call}

module _ {D R S : Type 0} (read_cb : S → ℕ → Reply × S) (write_cb : S → List ℕ → ℕ × S)
    (decode : Decode D R) (unpack_error : List ℕ → Option PbErrorResp) (fuel self : ℕ) (decoder : D)
    (cxn : Connection) (io : S) (old : Option R) where
  -- `riak_serverinfo`
  unfoldable pub serverinfo : Cmd (Synced R S)
  serverinfo =
      call read_cb write_cb decode unpack_error fuel self cxn (serverinfo_request_encode decoder) io
        old

  -- `riak_get_clientid`
  unfoldable pub get_clientid : Cmd (Synced R S)
  get_clientid =
      call read_cb write_cb decode unpack_error fuel self cxn (get_clientid_request_encode decoder)
        io old

  -- `riak_get`
  unfoldable pub get :
      (PbGetReq → List ℕ)
      → Option Binary
      → Option Binary
      → Option Binary
      → Option GetOptions
      → Cmd (Synced R S)
  get pack bucket_type bucket key opts =
      call read_cb write_cb decode unpack_error fuel self cxn
        (λ rop. get_request_encode pack decoder rop bucket_type bucket key opts) io old

  -- `riak_put`
  unfoldable pub put : (PbPutReq → List ℕ) → RiakObject → Option PutOptions → Cmd (Synced R S)
  put pack object opts =
      call read_cb write_cb decode unpack_error fuel self cxn
        (λ rop. put_request_encode pack decoder rop object opts) io old

  -- `riak_listbuckets`
  unfoldable pub listbuckets : (PbListBucketsReq → List ℕ) → Option Binary → ℕ → Cmd (Synced R S)
  listbuckets pack bucket_type timeout =
      call read_cb write_cb decode unpack_error fuel self cxn
        (λ rop. listbuckets_request_encode pack decoder rop bucket_type timeout) io old

  -- `riak_listkeys`
  unfoldable pub listkeys :
      (PbListKeysReq → List ℕ) → Option Binary → Option Binary → ℕ → Cmd (Synced R S)
  listkeys pack bucket_type bucket timeout =
      call read_cb write_cb decode unpack_error fuel self cxn
        (λ rop. listkeys_request_encode pack decoder rop bucket_type bucket timeout) io old

  -- `riak_reset_bucketprops`: the encoder gets the type where it takes the bucket.
  unfoldable pub reset_bucketprops :
      (PbResetBucketReq → List ℕ) → Option Binary → Option Binary → Cmd (Synced R S)
  reset_bucketprops pack bucket_type bucket =
      call read_cb write_cb decode unpack_error fuel self cxn
        (λ rop. reset_bucketprops_request_encode pack decoder rop bucket_type bucket) io old

  -- `riak_get_bucketprops`
  unfoldable pub get_bucketprops :
      (PbGetBucketReq → List ℕ) → Option Binary → Option Binary → Cmd (Synced R S)
  get_bucketprops pack bucket_type bucket =
      call read_cb write_cb decode unpack_error fuel self cxn
        (λ rop. get_bucketprops_request_encode pack decoder rop bucket_type bucket) io old

  -- `riak_set_bucketprops`
  unfoldable pub set_bucketprops :
      (PbSetBucketReq → Option (List ℕ))
      → Option Binary
      → Option Binary
      → Option BucketProps
      → Cmd (Synced R S)
  set_bucketprops pack bucket_type bucket props =
      call read_cb write_cb decode unpack_error fuel self cxn
        (λ rop. set_bucketprops_request_encode pack decoder rop bucket_type bucket props) io old

  -- `riak_mapreduce`
  unfoldable pub mapreduce :
      (PbMapRedReq → List ℕ) → Option Binary → Option Binary → Cmd (Synced R S)
  mapreduce pack content_type map_request =
      call read_cb write_cb decode unpack_error fuel self cxn
        (λ rop. mapreduce_request_encode pack decoder rop content_type map_request) io old

module _ {D S : Type 0} (read_cb : S → ℕ → Reply × S) (write_cb : S → List ℕ → ℕ × S)
    (decode : Decode D IndexResponse) (unpack_error : List ℕ → Option PbErrorResp) (fuel self : ℕ)
    (decoder : D) (cxn : Connection) (io : S) (old : Option IndexResponse) where
  -- `riak_2i`
  unfoldable pub query_index :
      (PbIndexReq → List ℕ)
      → Option Binary
      → Option Binary
      → Option Binary
      → Option IndexOptions
      → Cmd (Synced IndexResponse S)
  query_index pack bucket_type bucket index opts =
      call read_cb write_cb decode unpack_error fuel self cxn
        (λ rop. index_request_encode pack decoder rop bucket_type bucket index opts) io old

module _ {D S F : Type 0} (read_cb : S → ℕ → Reply × S) (write_cb : S → List ℕ → ℕ × S)
    (decode : Decode D (SearchResponse F)) (unpack_error : List ℕ → Option PbErrorResp)
    (fuel self : ℕ) (decoder : D) (cxn : Connection) (io : S)
    (old : Option (SearchResponse F)) where
  -- `riak_search`
  unfoldable pub search_documents :
      (PbSearchReq → List ℕ)
      → Option Binary
      → Option Binary
      → Option SearchOptions
      → Cmd (Synced (SearchResponse F) S)
  search_documents pack bucket query opts =
      call read_cb write_cb decode unpack_error fuel self cxn
        (λ rop. search_request_encode pack decoder rop bucket query opts) io old

-- What two of the calls do last: the response, which carries nothing, is freed.
abbrev pub dropped : {R S : Type 0} → Synced R S → Cmd (Synced R S)
dropped r = do free_if (is_some r.response); pure (record r { response = none })

module _ {D S : Type 0} (read_cb : S → ℕ → Reply × S) (write_cb : S → List ℕ → ℕ × S)
    (decode : Decode D Acknowledged) (unpack_error : List ℕ → Option PbErrorResp) (fuel self : ℕ)
    (decoder : D) (cxn : Connection) (io : S) where
  -- The response is freed once riak_sync_request has been called, and not after an earlier error, where
  -- it is NULL.
  -- `riak_delete`
  unfoldable pub delete :
      (PbDelReq → List ℕ)
      → Option Binary
      → Option Binary
      → Option Binary
      → Option DeleteOptions
      → Cmd (Synced Acknowledged S)
  delete pack bucket_type bucket key opts = do
    r ←
        call read_cb write_cb decode unpack_error fuel self cxn
          (λ rop. delete_request_encode pack decoder rop bucket_type bucket key opts) io none
    dropped r

  -- `riak_set_clientid`
  unfoldable pub set_clientid :
      (PbSetClientIdReq → List ℕ) → Option Binary → Cmd (Synced Acknowledged S)
  set_clientid pack clientid = do
    r ←
        call read_cb write_cb decode unpack_error fuel self cxn
          (λ rop. set_clientid_request_encode pack decoder rop clientid) io none
    dropped r
