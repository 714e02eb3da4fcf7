-- ===== src/Object/View.antt =====
-- What an object stands for: the same data without NULL pointers and counts, and the records of src/riak_object.c and of
-- the generated Protocol Buffers that hold it.
use riak_c_client.Base.{ℕ, Bool, false, Option, none, some, List, [], ◌∷◌, map, length}
use riak_c_client.Binary.{Binary}
use riak_c_client.Object.Types.{Flagged, Pair, PbPair, Link, PbLink, RiakObject, PbContent}
use riak_c_client.Object.Links.{unset}
use riak_c_client.BucketProps.View.{optional, pb_bin, pb_optional, seen, share_bin, share_optional}

pub record PairView : Type 0 where
  pub key : Binary
  pub val : Option Binary

pub record LinkView : Type 0 where
  pub bucket : Option Binary
  pub key : Option Binary
  pub tag : Option Binary

-- An object, with the names of where it is stored as they are: its message does not have them.
pub record ObjectView : Type 0 where
  pub bucket : Option Binary
  pub bucket_type : Flagged (Option Binary)
  pub key : Flagged (Option Binary)
  pub obj_value : Binary
  pub charset : Option Binary
  pub encoding : Option Binary
  pub content_type : Option Binary
  pub vtag : Option Binary
  pub deleted : Flagged Bool
  pub last_mod : Flagged ℕ
  pub last_mod_usecs : Flagged ℕ
  pub links : List LinkView
  pub usermeta : List PairView
  pub indexes : List PairView

-- An array of pointers, NULL where it is empty.
abbrev pub array_of : {V A : Type 0} → (V → A) → List V → Option (List A)
array_of one [] = none
array_of one (v ∷ vs) = some (map one (v ∷ vs))

-- The library's records.
abbrev pub pair_of : PairView → Pair
pair_of v = record { key = some v.key; val = optional v.val }

abbrev pub link_of : LinkView → Link
link_of v = record { bucket = optional v.bucket; key = optional v.key; tag = optional v.tag }

abbrev pub object_of : ObjectView → RiakObject
object_of v = record {
  bucket = v.bucket;
  bucket_type = v.bucket_type;
  key = v.key;
  obj_value = some v.obj_value;
  charset = optional v.charset;
  encoding = optional v.encoding;
  content_type = optional v.content_type;
  vtag = optional v.vtag;
  deleted = v.deleted;
  last_mod = v.last_mod;
  last_mod_usecs = v.last_mod_usecs;
  n_links = length v.links;
  links = array_of link_of v.links;
  n_usermeta = length v.usermeta;
  usermeta = array_of pair_of v.usermeta;
  n_indexes = length v.indexes;
  indexes = array_of pair_of v.indexes;
}

-- The messages that point to the same bytes.
abbrev pub pb_pair : PairView → PbPair
pb_pair v = record { key = pb_bin v.key; val = pb_optional v.val }

abbrev pub pb_link : LinkView → PbLink
pb_link v = record {
  bucket = pb_optional v.bucket;
  key = pb_optional v.key;
  tag = pb_optional v.tag;
}

abbrev pub content_of : ObjectView → PbContent
content_of v = record {
  obj_value = pb_bin v.obj_value;
  charset = pb_optional v.charset;
  last_mod = seen 0 v.last_mod;
  last_mod_usecs = seen 0 v.last_mod_usecs;
  content_type = pb_optional v.content_type;
  content_encoding = pb_optional v.encoding;
  deleted = seen false v.deleted;
  vtag = pb_optional v.vtag;
  n_links = length v.links;
  links = array_of pb_link v.links;
  n_usermeta = length v.usermeta;
  usermeta = array_of pb_pair v.usermeta;
  n_indexes = length v.indexes;
  indexes = array_of pb_pair v.indexes;
}

-- The same data in binaries that share their bytes, numbers only where their flags are set, and no names.
abbrev pub share_pair : PairView → PairView
share_pair v = record { key = share_bin v.key; val = share_optional v.val }

abbrev pub share_link : LinkView → LinkView
share_link v = record {
  bucket = share_optional v.bucket;
  key = share_optional v.key;
  tag = share_optional v.tag;
}

abbrev pub share_object : ObjectView → ObjectView
share_object v = record {
  bucket = none;
  bucket_type = unset;
  key = unset;
  obj_value = share_bin v.obj_value;
  charset = share_optional v.charset;
  encoding = share_optional v.encoding;
  content_type = share_optional v.content_type;
  vtag = share_optional v.vtag;
  deleted = seen false v.deleted;
  last_mod = seen 0 v.last_mod;
  last_mod_usecs = seen 0 v.last_mod_usecs;
  links = map share_link v.links;
  usermeta = map share_pair v.usermeta;
  indexes = map share_pair v.indexes;
}
