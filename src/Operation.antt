-- ===== src/Operation.antt =====
-- src/riak_operation.c: the state of a request and of the response that is being read.
--
-- `D` stands for the response decoders and `R` for the responses that they build. A callback is the
-- number of its address.
pub mod Lifetime
mod Tests
use riak_c_client.Base.{ℕ, Bool, true, false, Option, none, some, List, is_some}
use riak_c_client.Error.{RiakError, eriak_ok}
use riak_c_client.Memory.{Cmd, fault, pure, ◌>>=◌, ◌>>◌, Config, config_clean_allocate, free_if}
use riak_c_client.Connection
use riak_c_client.Connection.{Connection}
use riak_c_client.Binary
use riak_c_client.Binary.{Binary}
use riak_c_client.Message
use riak_c_client.Message.{PbMessage}

-- `_riak_server_error`
pub record ServerError : Type 0 where
  pub errcode : ℕ
  pub errmsg : Option Binary

-- The cache of request data of `_riak_operation`.
pub record Request : Type 0 where
  pub bucket_type : Option Binary
  pub bucket : Option Binary
  pub key : Option Binary
  pub index : Option Binary

-- `_riak_operation`
pub record Operation (D R : Type 0) : Type 0 where
  pub connection : Connection
  pub decoder : Option D
  pub response_cb : Option ℕ
  pub error_cb : Option ℕ
  pub cb_data : ℕ
  pub position : ℕ
  pub msglen : ℕ
  pub msgbuf : Option (List ℕ)
  pub msglen_complete : Bool
  pub streaming : Bool
  pub pb_request : Option PbMessage
  pub error : Option ServerError
  pub response : Option R
  pub request : Request

abbrev pub sizeof_operation : ℕ
sizeof_operation = 136

abbrev pub no_request : Request
no_request = record { bucket_type = none; bucket = none; key = none; index = none }

module _ {D R : Type 0} where
  -- The cleared block with the four fields that `riak_operation_new` fills in.
  abbrev pub fresh : Connection → Option ℕ → Option ℕ → ℕ → Operation D R
  fresh cxn response_cb error_cb cb_data = record {
    connection = cxn;
    decoder = none;
    response_cb = response_cb;
    error_cb = error_cb;
    cb_data = cb_data;
    position = 0;
    msglen = 0;
    msgbuf = none;
    msglen_complete = false;
    streaming = false;
    pb_request = none;
    error = none;
    response = none;
    request = no_request;
  }

  -- `riak_operation_new` on a connection. After the allocation the code tests the connection, not
  -- the new block, so a NULL block is written through.
  unfoldable pub new :
      Connection → Option ℕ → Option ℕ → ℕ → Cmd (RiakError × Option (Operation D R))
  new cxn response_cb error_cb cb_data = do
    rop ← config_clean_allocate (some (Connection.get_config cxn)) sizeof_operation
    elim rop [
      | true ↦ pure (eriak_ok, some (fresh cxn response_cb error_cb cb_data))
      | false ↦ λ h. fault
    ]

  -- `riak_operation_get_config`
  abbrev pub get_config : Operation D R → Config
  get_config rop = Connection.get_config rop.connection

  -- `riak_operation_set_response_cb`
  abbrev pub set_response_cb : Operation D R → Option ℕ → Operation D R
  set_response_cb rop cb = record rop { response_cb = cb }

  -- `riak_operation_set_cb_data`
  abbrev pub set_cb_data : Operation D R → ℕ → Operation D R
  set_cb_data rop cb_data = record rop { cb_data = cb_data }

  -- `riak_operation_set_error_cb`
  abbrev pub set_error_cb : Operation D R → Option ℕ → Operation D R
  set_error_cb rop cb = record rop { error_cb = cb }

  -- `riak_operation_set_response_decoder`
  abbrev pub set_response_decoder : Operation D R → D → Operation D R
  set_response_decoder rop decoder = record rop { decoder = some decoder }

  -- `riak_operation_set_bucket`; a copy that was there before is not given back.
  unfoldable pub set_bucket : Operation D R → Option Binary → Cmd (Operation D R)
  set_bucket rop bucket = do
    b ← Binary.copy (get_config rop) bucket
    pure (record rop { request = record (rop.request) { bucket = b } })

  -- `riak_operation_set_bucket_type`
  unfoldable pub set_bucket_type : Operation D R → Option Binary → Cmd (Operation D R)
  set_bucket_type rop bucket_type = do
    b ← Binary.copy (get_config rop) bucket_type
    pure (record rop { request = record (rop.request) { bucket_type = b } })

  -- `riak_operation_set_key`
  unfoldable pub set_key : Operation D R → Option Binary → Cmd (Operation D R)
  set_key rop key = do
    b ← Binary.copy (get_config rop) key
    pure (record rop { request = record (rop.request) { key = b } })

  -- `riak_operation_set_index`
  unfoldable pub set_index : Operation D R → Option Binary → Cmd (Operation D R)
  set_index rop key = do
    b ← Binary.copy (get_config rop) key
    pure (record rop { request = record (rop.request) { index = b } })

  -- `riak_operation_has_bucket_type`
  abbrev pub has_bucket_type : Operation D R → Bool
  has_bucket_type rop = is_some (rop.request.bucket_type)

-- `riak_server_error_free`
unfoldable pub server_error_free : Option ServerError → Cmd (Unit {0})
server_error_free none = pure tt
server_error_free (some e) = do Binary.free e.errmsg; free_if true

pub free_request : Option PbMessage → Cmd (Unit {0})
free_request none = pure tt
free_request (some pb) = Message.free pb

-- `riak_operation_free`
unfoldable pub free : {D R : Type 0} → Operation D R → Cmd (Unit {0})
unfolding free_request
free rop = do
  free_request rop.pb_request
  Binary.free rop.request.bucket_type
  Binary.free rop.request.bucket
  Binary.free rop.request.key
  Binary.free rop.request.index
  free_if (is_some rop.msgbuf)
  server_error_free rop.error
  free_if true
