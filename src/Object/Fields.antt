-- ===== src/Object/Fields.antt =====
-- The functions of src/riak_object.c that set a field of an object.
use riak_c_client.Base.{ℕ, Bool, true, Option, none, some}
use riak_c_client.Error.{RiakError, eriak_ok, eriak_out_of_memory}
use riak_c_client.Memory.{Cmd, pure, ◌>>=◌, Config}
use riak_c_client.Binary.{Binary, copy_shallow}
use riak_c_client.Object.Types.{RiakObject}
use riak_c_client.Object.Copy.{set_flagged, set_plain}

-- `riak_object_set_bucket`
unfoldable pub object_set_bucket :
    Config → RiakObject → Option Binary → Cmd (RiakError × RiakObject)
object_set_bucket cfg obj v = do (err, b) ← set_plain cfg v; pure (err, record obj { bucket = b })

-- `riak_object_set_bucket_type`
unfoldable pub object_set_bucket_type :
    Config → RiakObject → Option Binary → Cmd (RiakError × RiakObject)
object_set_bucket_type cfg obj v = do
  (err, f) ← set_flagged cfg obj.bucket_type v
  pure (err, record obj { bucket_type = f })

-- `riak_object_set_key`
unfoldable pub object_set_key : Config → RiakObject → Option Binary → Cmd (RiakError × RiakObject)
object_set_key cfg obj v = do
  (err, f) ← set_flagged cfg obj.key v
  pure (err, record obj { key = f })

-- `riak_object_set_value`
unfoldable pub object_set_value : Config → RiakObject → Option Binary → Cmd (RiakError × RiakObject)
object_set_value cfg obj v = do (err, b) ← set_plain cfg v; pure (err, record obj { obj_value = b })

-- `riak_object_set_value_shallow_copy` of a value that is not NULL
unfoldable pub object_set_value_shallow :
    Config → RiakObject → Binary → Cmd (RiakError × RiakObject)
object_set_value_shallow cfg obj v = do
  b ← copy_shallow cfg v
  elim b [
    | none ↦ pure (eriak_out_of_memory, record obj { obj_value = none })
    | some x ↦ pure (eriak_ok, record obj { obj_value = some x })
  ]

-- `riak_object_set_charset`
unfoldable pub object_set_charset :
    Config → RiakObject → Option Binary → Cmd (RiakError × RiakObject)
object_set_charset cfg obj v = do
  (err, f) ← set_flagged cfg obj.charset v
  pure (err, record obj { charset = f })

-- `riak_object_set_last_mod`
unfoldable pub object_set_last_mod : RiakObject → ℕ → RiakObject
object_set_last_mod obj v = record obj { last_mod = record { has = true; content = v } }

-- `riak_object_set_last_mod_usecs`
unfoldable pub object_set_last_mod_usecs : RiakObject → ℕ → RiakObject
object_set_last_mod_usecs obj v = record obj { last_mod_usecs = record { has = true; content = v } }

-- `riak_object_set_content_type`
unfoldable pub object_set_content_type :
    Config → RiakObject → Option Binary → Cmd (RiakError × RiakObject)
object_set_content_type cfg obj v = do
  (err, f) ← set_flagged cfg obj.content_type v
  pure (err, record obj { content_type = f })

-- `riak_object_set_content_encoding`
unfoldable pub object_set_content_encoding :
    Config → RiakObject → Option Binary → Cmd (RiakError × RiakObject)
object_set_content_encoding cfg obj v = do
  (err, f) ← set_flagged cfg obj.encoding v
  pure (err, record obj { encoding = f })

-- `riak_object_set_deleted`
unfoldable pub object_set_deleted : RiakObject → Bool → RiakObject
object_set_deleted obj v = record obj { deleted = record { has = true; content = v } }

-- `riak_object_set_vtag`
unfoldable pub object_set_vtag : Config → RiakObject → Option Binary → Cmd (RiakError × RiakObject)
object_set_vtag cfg obj v = do
  (err, f) ← set_flagged cfg obj.vtag v
  pure (err, record obj { vtag = f })
