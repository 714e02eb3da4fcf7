-- ===== src/Async.antt =====
-- src/riak_async.c: each function sets the user's callback for the response and encodes the request. `decoder`
-- is the number of the response decoder that the encoder installs.
use riak_c_client.Base.{ℕ, Bool, Option, none, List}
use riak_c_client.Error.{RiakError}
use riak_c_client.Memory.{Cmd}
use riak_c_client.Binary.{Binary}
use riak_c_client.Operation.{Operation, set_response_cb}
use riak_c_client.Object.Types.{RiakObject}
use riak_c_client.Messages.Ping.{ping_request_encode}
use riak_c_client.Messages.ServerInfo.{serverinfo_request_encode}
use riak_c_client.Messages.ClientId.{
  PbSetClientIdReq, get_clientid_request_encode, set_clientid_request_encode,
}
use riak_c_client.Messages.Get.{GetOptions, PbGetReq, get_request_encode}
use riak_c_client.Messages.Put.{PutOptions, PbPutReq, put_request_encode}
use riak_c_client.Messages.Delete.{DeleteOptions, PbDelReq, delete_request_encode}
use riak_c_client.Messages.ListKeys.{PbListKeysReq, listkeys_request_encode}
use riak_c_client.Messages.ListBuckets.{PbListBucketsReq, listbuckets_request_encode}
use riak_c_client.Messages.ResetBucket.{PbResetBucketReq, reset_bucketprops_request_encode}
use riak_c_client.BucketProps.Types.{BucketProps}
use riak_c_client.Messages.GetBucket.{PbGetBucketReq, get_bucketprops_request_encode}
use riak_c_client.Messages.SetBucket.{PbSetBucketReq, set_bucketprops_request_encode}
use riak_c_client.Messages.Index.{PbIndexReq, IndexOptions, index_request_encode}
use riak_c_client.Messages.Search.{PbSearchReq, SearchOptions, search_request_encode}
use riak_c_client.Messages.MapReduce.{PbMapRedReq, mapreduce_request_encode}

module _ {D R : Type 0} (decoder : D) (rop : Operation D R) (cb : Option ℕ) where
  -- `riak_async_register_ping`
  abbrev register_ping : Cmd (RiakError × Operation D R)
  register_ping = ping_request_encode decoder (set_response_cb rop cb)

  -- `riak_async_register_serverinfo`
  abbrev register_serverinfo : Cmd (RiakError × Operation D R)
  register_serverinfo = serverinfo_request_encode decoder (set_response_cb rop cb)

  -- `riak_async_register_get`
  abbrev register_get :
      (PbGetReq → List ℕ)
      → Option Binary
      → Option Binary
      → Option Binary
      → Option GetOptions
      → Cmd (RiakError × Operation D R)
  register_get pack bucket_type bucket key opts =
      get_request_encode pack decoder (set_response_cb rop cb) bucket_type bucket key opts

  -- `riak_async_register_put`
  abbrev register_put :
      (PbPutReq → List ℕ) → RiakObject → Option PutOptions → Cmd (RiakError × Operation D R)
  register_put pack object opts =
      put_request_encode pack decoder (set_response_cb rop cb) object opts

  -- `riak_async_register_delete`: the encoder gets no options.
  abbrev register_delete :
      (PbDelReq → List ℕ)
      → Option Binary
      → Option Binary
      → Option Binary
      → Option DeleteOptions
      → Cmd (RiakError × Operation D R)
  register_delete pack bucket_type bucket key opts =
      delete_request_encode pack decoder (set_response_cb rop cb) bucket_type bucket key none

  -- `riak_async_register_listbuckets`
  abbrev register_listbuckets :
      (PbListBucketsReq → List ℕ) → Option Binary → ℕ → Cmd (RiakError × Operation D R)
  register_listbuckets pack bucket_type timeout =
      listbuckets_request_encode pack decoder (set_response_cb rop cb) bucket_type timeout

  -- `riak_async_register_listkeys`
  abbrev register_listkeys :
      (PbListKeysReq → List ℕ) → Option Binary → Option Binary → ℕ → Cmd (RiakError × Operation D R)
  register_listkeys pack bucket_type bucket timeout =
      listkeys_request_encode pack decoder (set_response_cb rop cb) bucket_type bucket timeout

  -- `riak_async_register_get_clientid`
  abbrev register_get_clientid : Cmd (RiakError × Operation D R)
  register_get_clientid = get_clientid_request_encode decoder (set_response_cb rop cb)

  -- `riak_async_register_set_clientid`
  abbrev register_set_clientid :
      (PbSetClientIdReq → List ℕ) → Option Binary → Cmd (RiakError × Operation D R)
  register_set_clientid pack clientid =
      set_clientid_request_encode pack decoder (set_response_cb rop cb) clientid

  -- `riak_async_register_reset_bucketprops`: the encoder gets the type where it takes the bucket.
  abbrev register_reset_bucketprops :
      (PbResetBucketReq → List ℕ) → Option Binary → Option Binary → Cmd (RiakError × Operation D R)
  register_reset_bucketprops pack bucket_type bucket =
      reset_bucketprops_request_encode pack decoder (set_response_cb rop cb) bucket_type bucket

  -- `riak_async_register_get_bucketprops`
  abbrev register_get_bucketprops :
      (PbGetBucketReq → List ℕ) → Option Binary → Option Binary → Cmd (RiakError × Operation D R)
  register_get_bucketprops pack bucket_type bucket =
      get_bucketprops_request_encode pack decoder (set_response_cb rop cb) bucket_type bucket

  -- `riak_async_register_set_bucketprops`
  abbrev register_set_bucketprops :
      (PbSetBucketReq → Option (List ℕ))
      → Option Binary
      → Option Binary
      → Option BucketProps
      → Cmd (RiakError × Operation D R)
  register_set_bucketprops pack bucket_type bucket props =
      set_bucketprops_request_encode pack decoder (set_response_cb rop cb) bucket_type bucket props

  -- `riak_async_register_mapreduce`: the argument `streaming` is not used.
  abbrev register_mapreduce :
      (PbMapRedReq → List ℕ)
      → Option Binary
      → Option Binary
      → Bool
      → Cmd (RiakError × Operation D R)
  register_mapreduce pack content_type map_request streaming =
      mapreduce_request_encode pack decoder (set_response_cb rop cb) content_type map_request

  -- `riak_async_register_2i`
  abbrev register_query_index :
      (PbIndexReq → List ℕ)
      → Option Binary
      → Option Binary
      → Option Binary
      → Option IndexOptions
      → Cmd (RiakError × Operation D R)
  register_query_index pack bucket_type bucket index index_options =
      index_request_encode pack decoder (set_response_cb rop cb) bucket_type bucket index
        index_options

  -- `riak_async_register_search`
  abbrev register_search :
      (PbSearchReq → List ℕ)
      → Option Binary
      → Option Binary
      → Option SearchOptions
      → Cmd (RiakError × Operation D R)
  register_search pack bucket query search_options =
      search_request_encode pack decoder (set_response_cb rop cb) bucket query search_options
