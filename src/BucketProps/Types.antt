-- ===== src/BucketProps/Types.antt =====
-- The records of src/internal/riak_bucketprops-internal.h and of the generated Protocol Buffers.
--
-- The fields with numbers and Booleans, which both sides have, are the record `Scalars` here. The field
-- `module` is `mod_name`. An array of hooks is `none` for NULL, else the list of what its entries point
-- to; the entries are not NULL, and the counts are below 2^31.
use riak_c_client.Base.{ℕ, Bool, false, Option, none, List}
use riak_c_client.Binary.{Binary, PbBinary}
use riak_c_client.Object.Types.{Flagged}
use riak_c_client.Object.Pairs.{unset_pb}
use riak_c_client.Object.Links.{unset}
use riak_c_client.Messages.Request.{unset_number, unset_flag}

-- `_riak_modfun` and `RpbModFun`
pub record ModFun : Type 0 where
  pub mod_name : Option Binary
  pub function : Option Binary

-- `base` says whether the message has the descriptor that the generated initialiser and unpacker put into it.
pub record PbModFun : Type 0 where
  pub base : Bool
  pub mod_name : PbBinary
  pub function : PbBinary

-- `_riak_commit_hook` and `RpbCommitHook`
pub record CommitHook : Type 0 where
  pub modfun : Option ModFun
  pub name : Flagged (Option Binary)

pub record PbCommitHook : Type 0 where
  pub base : Bool
  pub modfun : Option PbModFun
  pub name : Flagged PbBinary

-- The four fields `n_precommit`, `precommit`, `has_has_precommit` and `has_precommit`, and the same of
-- the postcommit hooks.
pub record Hooks (Hook : Type 0) : Type 0 where
  pub n_hooks : ℕ
  pub hooks : Option (List Hook)
  pub has_has : Bool
  pub has : Bool

-- The flagged numbers and Booleans; `repl` is the number of the mode.
pub record Scalars : Type 0 where
  pub n_val : Flagged ℕ
  pub allow_mult : Flagged Bool
  pub last_write_wins : Flagged Bool
  pub old_vclock : Flagged ℕ
  pub young_vclock : Flagged ℕ
  pub big_vclock : Flagged ℕ
  pub small_vclock : Flagged ℕ
  pub pr : Flagged ℕ
  pub r : Flagged ℕ
  pub w : Flagged ℕ
  pub pw : Flagged ℕ
  pub dw : Flagged ℕ
  pub rw_quorum : Flagged ℕ
  pub basic_quorum : Flagged Bool
  pub notfound_ok : Flagged Bool
  pub search_on : Flagged Bool
  pub repl : Flagged ℕ

-- `_riak_bucketprops` and `RpbBucketProps`
pub record BucketProps : Type 0 where
  pub scalars : Scalars
  pub precommit : Hooks CommitHook
  pub postcommit : Hooks CommitHook
  pub chash_keyfun : Option ModFun
  pub linkfun : Option ModFun
  pub backend : Flagged (Option Binary)
  pub search_index : Flagged (Option Binary)

pub record PbBucketProps : Type 0 where
  pub scalars : Scalars
  pub precommit : Hooks PbCommitHook
  pub postcommit : Hooks PbCommitHook
  pub chash_keyfun : Option PbModFun
  pub linkfun : Option PbModFun
  pub backend : Flagged PbBinary
  pub search_index : Flagged PbBinary

abbrev pub no_scalars : Scalars
no_scalars = record {
  n_val = unset_number;
  allow_mult = unset_flag;
  last_write_wins = unset_flag;
  old_vclock = unset_number;
  young_vclock = unset_number;
  big_vclock = unset_number;
  small_vclock = unset_number;
  pr = unset_number;
  r = unset_number;
  w = unset_number;
  pw = unset_number;
  dw = unset_number;
  rw_quorum = unset_number;
  basic_quorum = unset_flag;
  notfound_ok = unset_flag;
  search_on = unset_flag;
  repl = unset_number;
}

abbrev pub no_hooks : {Hook : Type 0} → Hooks Hook
no_hooks = record { n_hooks = 0; hooks = none; has_has = false; has = false }

-- Cleared properties.
abbrev pub no_props : BucketProps
no_props = record {
  scalars = no_scalars;
  precommit = no_hooks;
  postcommit = no_hooks;
  chash_keyfun = none;
  linkfun = none;
  backend = unset;
  search_index = unset;
}

-- `rpb_bucket_props__init`
abbrev pub no_pb_props : PbBucketProps
no_pb_props = record {
  scalars = no_scalars;
  precommit = no_hooks;
  postcommit = no_hooks;
  chash_keyfun = none;
  linkfun = none;
  backend = unset_pb;
  search_index = unset_pb;
}

-- sizeof on a 64-bit machine
abbrev pub sizeof_modfun : ℕ
sizeof_modfun = 16

abbrev pub sizeof_pb_modfun : ℕ
sizeof_pb_modfun = 56

abbrev pub sizeof_commit_hook : ℕ
sizeof_commit_hook = 24

abbrev pub sizeof_pb_commit_hook : ℕ
sizeof_pb_commit_hook = 56

abbrev pub sizeof_bucketprops : ℕ
sizeof_bucketprops = 232
