-- ===== src/Object/Types.antt =====
-- The records of src/internal/riak_object-internal.h and of the generated Protocol Buffers.
--
-- Two fields `has_x` and `x` of the source are one field `x` here, which is `Flagged`. An array of
-- pointers is `none` for NULL, else the list of what its entries point to; the entries are not NULL.
-- The counts are those of the source's `n_x`, below 2^31.
use riak_c_client.Base.{ℕ, Bool, Option, List}
use riak_c_client.Binary.{Binary, PbBinary}

-- A field `x` and its `has_x`.
pub record Flagged (A : Type 0) : Type 0 where
  pub has : Bool
  pub content : A

-- `_riak_pair` and `RpbPair`
pub record Pair : Type 0 where
  pub key : Option Binary
  pub val : Flagged (Option Binary)

pub record PbPair : Type 0 where
  pub key : PbBinary
  pub val : Flagged PbBinary

-- `_riak_link` and `RpbLink`
pub record Link : Type 0 where
  pub bucket : Flagged (Option Binary)
  pub key : Flagged (Option Binary)
  pub tag : Flagged (Option Binary)

pub record PbLink : Type 0 where
  pub bucket : Flagged PbBinary
  pub key : Flagged PbBinary
  pub tag : Flagged PbBinary

-- `_riak_object` and `RpbContent`
pub record RiakObject : Type 0 where
  pub bucket : Option Binary
  pub bucket_type : Flagged (Option Binary)
  pub key : Flagged (Option Binary)
  pub obj_value : Option Binary
  pub charset : Flagged (Option Binary)
  pub last_mod : Flagged ℕ
  pub last_mod_usecs : Flagged ℕ
  pub content_type : Flagged (Option Binary)
  pub encoding : Flagged (Option Binary)
  pub deleted : Flagged Bool
  pub vtag : Flagged (Option Binary)
  pub n_links : ℕ
  pub links : Option (List Link)
  pub n_usermeta : ℕ
  pub usermeta : Option (List Pair)
  pub n_indexes : ℕ
  pub indexes : Option (List Pair)

pub record PbContent : Type 0 where
  pub obj_value : PbBinary
  pub charset : Flagged PbBinary
  pub last_mod : Flagged ℕ
  pub last_mod_usecs : Flagged ℕ
  pub content_type : Flagged PbBinary
  pub content_encoding : Flagged PbBinary
  pub deleted : Flagged Bool
  pub vtag : Flagged PbBinary
  pub n_links : ℕ
  pub links : Option (List PbLink)
  pub n_usermeta : ℕ
  pub usermeta : Option (List PbPair)
  pub n_indexes : ℕ
  pub indexes : Option (List PbPair)

-- sizeof on a 64-bit machine
abbrev pub sizeof_pair : ℕ
sizeof_pair = 24

abbrev pub sizeof_link : ℕ
sizeof_link = 48

abbrev pub sizeof_object : ℕ
sizeof_object = 192

abbrev pub sizeof_pb_pair : ℕ
sizeof_pb_pair = 64

abbrev pub sizeof_pb_link : ℕ
sizeof_pb_link = 96
