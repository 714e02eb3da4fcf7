-- ===== src/BucketProps/View.antt =====
-- What bucket properties stand for: the same data without NULL pointers, counts and flags, and the records
-- of src/riak_bucketprops.c that hold them.
use riak_c_client.Base.{Bool, false, if◌then◌else◌, true, Option, none, some, List, map, length}
use riak_c_client.Binary.{Binary, PbBinary, shallow}
use riak_c_client.Object.Types.{Flagged}
use riak_c_client.Object.Pairs.{unset_pb}
use riak_c_client.Object.Links.{unset}
use riak_c_client.BucketProps.Types.{
  ModFun, PbModFun, CommitHook, PbCommitHook, Hooks, Scalars, BucketProps, PbBucketProps, no_hooks,
}

pub record FunView : Type 0 where
  pub mod_name : Binary
  pub function : Binary

pub record HookView : Type 0 where
  pub fun : FunView
  pub name : Option Binary

-- The hooks of one kind: not spoken of, said to be missing, or listed.
pub data HooksView : Type 0 where
  unspoken missing : HooksView
  listed : List HookView → HooksView

pub record PropsView : Type 0 where
  pub scalars : Scalars
  pub precommit : HooksView
  pub postcommit : HooksView
  pub chash_keyfun : FunView
  pub linkfun : FunView
  pub backend : Option Binary
  pub search_index : Option Binary

-- The library's records.
abbrev pub optional : Option Binary → Flagged (Option Binary)
optional none = unset
optional (some b) = record { has = true; content = some b }

abbrev pub fun_of : FunView → ModFun
fun_of f = record { mod_name = some f.mod_name; function = some f.function }

abbrev pub hook_of : HookView → CommitHook
hook_of h = record { modfun = some (fun_of h.fun); name = optional h.name }

abbrev pub hooks_of : HooksView → Hooks CommitHook
hooks_of unspoken = no_hooks
hooks_of missing = record no_hooks { has_has = true }
hooks_of (listed hs) = record {
  n_hooks = length hs;
  hooks = some (map hook_of hs);
  has_has = true;
  has = true;
}

abbrev pub props_of : PropsView → BucketProps
props_of v = record {
  scalars = v.scalars;
  precommit = hooks_of v.precommit;
  postcommit = hooks_of v.postcommit;
  chash_keyfun = some (fun_of v.chash_keyfun);
  linkfun = some (fun_of v.linkfun);
  backend = optional v.backend;
  search_index = optional v.search_index;
}

-- The messages that point to the same bytes, with their descriptors or without.
abbrev pub pb_bin : Binary → PbBinary
pb_bin b = record { len = b.len; data_block = b.data_block }

abbrev pub pb_optional : Option Binary → Flagged PbBinary
pb_optional none = unset_pb
pb_optional (some b) = record { has = true; content = pb_bin b }

abbrev pub pb_fun : Bool → FunView → PbModFun
pb_fun base f = record { base = base; mod_name = pb_bin f.mod_name; function = pb_bin f.function }

abbrev pub pb_hook : Bool → HookView → PbCommitHook
pb_hook base h = record {
  base = base;
  modfun = some (pb_fun base h.fun);
  name = pb_optional h.name;
}

abbrev pub pb_hooks : Bool → HooksView → Hooks PbCommitHook
pb_hooks base unspoken = no_hooks
pb_hooks base missing = record no_hooks { has_has = true }
pb_hooks base (listed hs) = record {
  n_hooks = length hs;
  hooks = some (map (pb_hook base) hs);
  has_has = true;
  has = true;
}

-- A field whose content counts only where its flag is set.
abbrev pub seen : {A : Type 0} → A → Flagged A → Flagged A
seen cleared field = if field.has then field else record { has = false; content = cleared }

abbrev pub seen_scalars : Scalars → Scalars
seen_scalars s = record {
  n_val = seen 0 s.n_val;
  allow_mult = seen false s.allow_mult;
  last_write_wins = seen false s.last_write_wins;
  old_vclock = seen 0 s.old_vclock;
  young_vclock = seen 0 s.young_vclock;
  big_vclock = seen 0 s.big_vclock;
  small_vclock = seen 0 s.small_vclock;
  pr = seen 0 s.pr;
  r = seen 0 s.r;
  w = seen 0 s.w;
  pw = seen 0 s.pw;
  dw = seen 0 s.dw;
  rw_quorum = seen 0 s.rw_quorum;
  basic_quorum = seen false s.basic_quorum;
  notfound_ok = seen false s.notfound_ok;
  search_on = seen false s.search_on;
  repl = seen 0 s.repl;
}

abbrev pub pb_of : Bool → PropsView → PbBucketProps
pb_of base v = record {
  scalars = seen_scalars v.scalars;
  precommit = pb_hooks base v.precommit;
  postcommit = pb_hooks base v.postcommit;
  chash_keyfun = some (pb_fun base v.chash_keyfun);
  linkfun = some (pb_fun base v.linkfun);
  backend = pb_optional v.backend;
  search_index = pb_optional v.search_index;
}

-- The same data in binaries that share their bytes, and numbers only where their flags are set.
abbrev pub share_bin : Binary → Binary
share_bin b = shallow b.len b.data_block

abbrev pub share_optional : Option Binary → Option Binary
share_optional none = none
share_optional (some b) = some (share_bin b)

abbrev pub share_fun : FunView → FunView
share_fun f = record { mod_name = share_bin f.mod_name; function = share_bin f.function }

abbrev pub share_hook : HookView → HookView
share_hook h = record { fun = share_fun h.fun; name = share_optional h.name }

abbrev pub share_hooks : HooksView → HooksView
share_hooks unspoken = unspoken
share_hooks missing = missing
share_hooks (listed hs) = listed (map share_hook hs)

abbrev pub share : PropsView → PropsView
share v = record {
  scalars = seen_scalars v.scalars;
  precommit = share_hooks v.precommit;
  postcommit = share_hooks v.postcommit;
  chash_keyfun = share_fun v.chash_keyfun;
  linkfun = share_fun v.linkfun;
  backend = share_optional v.backend;
  search_index = share_optional v.search_index;
}
