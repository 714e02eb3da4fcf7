-- ===== src/Object/Content.antt =====
-- The objects of src/riak_object.c.
use riak_c_client.Base.{ℕ, Bool, mul64, true, false, Option, none, some, List, ltb, if◌then◌else◌}
use riak_c_client.Error.{RiakError, eriak_ok, eriak_out_of_memory, failed}
use riak_c_client.Memory.{Cmd, pure, ◌>>=◌, ◌>>◌, Config, config_clean_allocate, free_if}
use riak_c_client.Binary
use riak_c_client.Binary.{Binary, PbBinary, copy_from_pb, copy_shallow}
use riak_c_client.Object.Types.{RiakObject, PbContent, sizeof_object}
use riak_c_client.Object.Copy.{bin_to_pb, flagged_to_pb, flagged_from_pb, scalar_copy, entries}
use riak_c_client.Object.Pairs.{
  pairs_copy_to_pb, pairs_copy_array_from_pb, pairs_free, pairs_free_pb,
}
use riak_c_client.Object.Links.{
  unset, links_copy_to_pb, links_copy_from_pb, links_free, links_free_pb,
}

abbrev pub no_object : RiakObject
no_object = record {
  bucket = none;
  bucket_type = unset;
  key = unset;
  obj_value = none;
  charset = unset;
  last_mod = record { has = false; content = 0 };
  last_mod_usecs = record { has = false; content = 0 };
  content_type = unset;
  encoding = unset;
  deleted = record { has = false; content = false };
  vtag = unset;
  n_links = 0;
  links = none;
  n_usermeta = 0;
  usermeta = none;
  n_indexes = 0;
  indexes = none;
}

-- `riak_object_new`
unfoldable pub object_new : Config → Cmd (Option RiakObject)
object_new cfg = do
  got ← config_clean_allocate (some cfg) sizeof_object
  elim got [ false ↦ pure none | true ↦ pure (some no_object) ]

-- One of the three arrays and its count: `if (from->n > 0 && err == ERIAK_OK) { to->n = from->n;
-- err = copy(..., &(to->array), from->array, to->n); }`.
unfoldable pub copy_counted :
    {A B : Type 0}
    → (ℕ → Option (List A) → Cmd (Option (Option (List B))))
    → RiakError
    → ℕ
    → Option (List A)
    → ℕ × Option (List B)
    → Cmd (RiakError × (ℕ × Option (List B)))
copy_counted one err n from (to_n, to) =
    if failed err
    then pure (err, (to_n, to))
    else if ltb 0 n
    then (do
      r ← one n from
      elim r [ none ↦ pure (eriak_out_of_memory, (n, to)) | some ys ↦ pure (eriak_ok, (n, ys)) ])
    else pure (err, (to_n, to))

-- A copy that answers with an array.
abbrev pub as_array : {A : Type 0} → Cmd (Option (List A)) → Cmd (Option (Option (List A)))
as_array run = do r ← run; elim r [ none ↦ pure none | some xs ↦ pure (some (some xs)) ]

-- The arrays of `riak_object_to_pb_copy`
unfoldable pub arrays_to_pb : Config → PbContent → RiakObject → Cmd (RiakError × PbContent)
arrays_to_pb cfg to from = do
  (err1, (n1, indexes)) ←
      copy_counted (λ n a. as_array (pairs_copy_to_pb cfg (entries a) n)) eriak_ok from.n_indexes
        from.indexes (to.n_indexes, to.indexes)
  (err2, (n2, usermeta)) ←
      copy_counted (λ n a. as_array (pairs_copy_to_pb cfg (entries a) n)) err1 from.n_usermeta
        from.usermeta (to.n_usermeta, to.usermeta)
  (err3, (n3, links)) ←
      copy_counted (λ n a. as_array (links_copy_to_pb cfg (entries a) n)) err2 from.n_links
        from.links (to.n_links, to.links)
  pure (
    err3,
    record to {
      n_indexes = n1;
      indexes = indexes;
      n_usermeta = n2;
      usermeta = usermeta;
      n_links = n3;
      links = links;
    },
  )

-- `riak_object_to_pb_copy`
unfoldable pub object_to_pb_copy : Config → PbContent → RiakObject → Cmd (RiakError × PbContent)
object_to_pb_copy cfg to from = do
  v ← bin_to_pb from.obj_value
  charset ← flagged_to_pb from.charset to.charset
  encoding ← flagged_to_pb from.encoding to.content_encoding
  content_type ← flagged_to_pb from.content_type to.content_type
  vtag ← flagged_to_pb from.vtag to.vtag
  arrays_to_pb cfg
      (record to {
        obj_value = v;
        charset = charset;
        content_encoding = encoding;
        content_type = content_type;
        deleted = scalar_copy from.deleted to.deleted;
        last_mod = scalar_copy from.last_mod to.last_mod;
        last_mod_usecs = scalar_copy from.last_mod_usecs to.last_mod_usecs;
        vtag = vtag;
      })
      from

-- The arrays of `riak_object_new_from_pb`; an error there leaves the object to the caller.
unfoldable pub arrays_from_pb :
    Config → RiakObject → PbContent → Cmd (RiakError × Option RiakObject)
arrays_from_pb cfg to from = do
  (err1, (n1, indexes)) ←
      copy_counted (λ n a. as_array (pairs_copy_array_from_pb cfg (entries a) n)) eriak_ok
        from.n_indexes from.indexes (to.n_indexes, to.indexes)
  (err2, (n2, usermeta)) ←
      copy_counted (λ n a. as_array (pairs_copy_array_from_pb cfg (entries a) n)) err1
        from.n_usermeta from.usermeta (to.n_usermeta, to.usermeta)
  (err3, (n3, links)) ←
      copy_counted (λ n a. links_copy_from_pb cfg a n) err2 from.n_links from.links
        (to.n_links, to.links)
  pure (
    err3,
    some (record to {
      n_indexes = n1;
      indexes = indexes;
      n_usermeta = n2;
      usermeta = usermeta;
      n_links = n3;
      links = links;
    }),
  )

-- `if (to->x == NULL) { riak_free(cfg, target); return ERIAK_OUT_OF_MEMORY; }`: the block of the object
-- goes back, what its fields point to does not.
abbrev pub or_give_up :
    {A : Type 0}
    → Option A
    → (A → Cmd (RiakError × Option RiakObject))
    → Cmd (RiakError × Option RiakObject)
or_give_up none next = do free_if true; pure (eriak_out_of_memory, none)
or_give_up (some x) next = next x

-- `riak_object_new_from_pb` behind the allocation
unfoldable pub object_from_pb : Config → PbContent → Cmd (RiakError × Option RiakObject)
object_from_pb cfg from = do
  v ← copy_from_pb cfg from.obj_value
  or_give_up v λ v'. do
    c ← flagged_from_pb cfg from.charset
    or_give_up c λ charset. do
      e ← flagged_from_pb cfg from.content_encoding
      or_give_up e λ encoding. do
        t ← flagged_from_pb cfg from.content_type
        or_give_up t λ content_type. do
          g ← flagged_from_pb cfg from.vtag
          or_give_up g λ vtag.
              arrays_from_pb cfg
                (record no_object {
                  obj_value = some v';
                  charset = charset;
                  encoding = encoding;
                  content_type = content_type;
                  deleted = scalar_copy from.deleted no_object.deleted;
                  last_mod = scalar_copy from.last_mod no_object.last_mod;
                  last_mod_usecs = scalar_copy from.last_mod_usecs no_object.last_mod_usecs;
                  vtag = vtag;
                })
                from

-- `riak_object_new_from_pb`: the error, and what `*target` is.
unfoldable pub object_new_from_pb : Config → PbContent → Cmd (RiakError × Option RiakObject)
object_new_from_pb cfg from = do
  got ← object_new cfg
  elim got [ none ↦ pure (eriak_out_of_memory, none) | some _ ↦ object_from_pb cfg from ]

-- `riak_object_new_array`: whether there is its block, which has room for `len`
-- objects, though it holds pointers.
abbrev pub object_new_array : Config → ℕ → Cmd Bool
object_new_array cfg len = config_clean_allocate (some cfg) (mul64 sizeof_object len)

-- `riak_object_free`
unfoldable pub object_free : Option RiakObject → Cmd (Unit {0})
object_free none = pure tt
object_free (some object) = do
  Binary.free object.bucket_type.content
  Binary.free object.bucket
  Binary.free object.charset.content
  Binary.free object.content_type.content
  Binary.free object.encoding.content
  Binary.free object.key.content
  Binary.free object.obj_value
  Binary.free object.vtag.content
  pairs_free object.indexes object.n_indexes
  pairs_free object.usermeta object.n_usermeta
  links_free object.links object.n_links
  free_if true

-- `riak_object_free_pb`
unfoldable pub object_free_pb : PbContent → Cmd (Unit {0})
object_free_pb obj = do
  pairs_free_pb obj.indexes obj.n_indexes
  pairs_free_pb obj.usermeta obj.n_usermeta
  links_free_pb obj.links obj.n_links
