-- ===== src/BucketProps/ReadBack.antt =====
-- The bucket properties that riak_bucketprops_new_from_pb of src/riak_bucketprops.c makes of a message.
use riak_c_client.Base.{
  total, ℕ, ◌+◌, ◌≡◌, refl, Bool, true, false, Option, none, some, List, map, length, mul64, arith,
  is_some, length-map, map-map,
}
use riak_c_client.Error.{eriak_ok}
use riak_c_client.Memory.{Heap, Config}
use riak_c_client.Memory.Returns.{one_if}
use riak_c_client.Memory.Exact.{
  Gives, pure-Gives, recount, bind-Gives, cfg_malloc-Gives, config_allocate-Gives,
}
use riak_c_client.Memory.Rich.{IsRich}
use riak_c_client.Binary.{Binary, copy_from_pb, sizeof_binary}
use riak_c_client.Object.Types.{Flagged}
use riak_c_client.Object.Copy.{flagged_from_pb, scalar_copy}
use riak_c_client.BucketProps.Types.{
  ModFun, Scalars, BucketProps, sizeof_modfun, sizeof_commit_hook, sizeof_bucketprops,
}
use riak_c_client.BucketProps.ModFun.{modfun_copy_from_pb}
use riak_c_client.BucketProps.Hooks.{hook_from_pb, commit_hooks_copy_from_pb}
use riak_c_client.BucketProps.Copy.{
  all_scalars, hooks_from_pb, functions_from_pb, rest_from_pb, bucketprops_new, bucketprops_from_pb,
  bucketprops_new_from_pb,
}
use riak_c_client.BucketProps.View.{
  seen, seen_scalars, FunView, HookView, HooksView, unspoken, missing, listed, PropsView, optional,
  fun_of, hook_of, hooks_of, props_of, pb_bin, pb_optional, pb_fun, pb_hook, pb_hooks, pb_of,
  share_bin, share_optional, share_fun, share_hook, share_hooks, share,
}
use riak_c_client.Object.Loops.{each-Gives}

-- The blocks of a value that shares its bytes.
abbrev pub hook_blocks : HookView → ℕ
hook_blocks v = 1 + (one_if (is_some v.name) + 3)

abbrev pub hooks_blocks : HooksView → ℕ
hooks_blocks unspoken = 0
hooks_blocks missing = 0
hooks_blocks (listed hs) = 1 + total hook_blocks hs

abbrev pub blocks : PropsView → ℕ
blocks v =
    1
    + (hooks_blocks v.precommit
        + (hooks_blocks v.postcommit
            + (one_if (is_some v.backend) + (one_if (is_some v.search_index) + 6))))

-- A field that counts is copied as it is.
pub copy-seen :
    {A : Type 0} (cleared : A) (field : Flagged A)
    → scalar_copy (seen cleared field) (record { has = false; content = cleared })
      ≡ seen cleared field
copy-seen {A} cleared field = go field.has field.content
  where
    go :
        (flag : Bool) (x : A)
        → let f : Flagged A = record { has = flag; content = x } in
          scalar_copy (seen cleared f) (record { has = false; content = cleared }) ≡ seen cleared f
    go true x = refl
    go false x = refl

pub all_scalars-seen : (s : Scalars) → all_scalars (seen_scalars s) ≡ seen_scalars s
unfolding all_scalars
all_scalars-seen s i = record {
  n_val = copy-seen 0 s.n_val i;
  allow_mult = copy-seen false s.allow_mult i;
  last_write_wins = copy-seen false s.last_write_wins i;
  old_vclock = copy-seen 0 s.old_vclock i;
  young_vclock = copy-seen 0 s.young_vclock i;
  big_vclock = copy-seen 0 s.big_vclock i;
  small_vclock = copy-seen 0 s.small_vclock i;
  pr = copy-seen 0 s.pr i;
  r = copy-seen 0 s.r i;
  w = copy-seen 0 s.w i;
  pw = copy-seen 0 s.pw i;
  dw = copy-seen 0 s.dw i;
  rw_quorum = copy-seen 0 s.rw_quorum i;
  basic_quorum = copy-seen false s.basic_quorum i;
  notfound_ok = copy-seen false s.notfound_ok i;
  search_on = copy-seen false s.search_on i;
  repl = copy-seen 0 s.repl i;
}

module _ {cfg : Config} (rich : IsRich cfg) where
  pub bin-Gives :
      (b : Binary) (h : Heap) → Gives h (some (share_bin b)) 1 0 (copy_from_pb cfg (pb_bin b) h)
  unfolding copy_from_pb
  bin-Gives b h = bind-Gives _ (config_allocate-Gives rich sizeof_binary h) λ g. pure-Gives _ g

  pub optional-Gives :
      (b : Option Binary) (h : Heap)
      → Gives h
          (some (optional (share_optional b)))
          (one_if (is_some b))
          0
          (flagged_from_pb cfg (pb_optional b) h)
  unfolding flagged_from_pb
  optional-Gives none h = pure-Gives _ h
  optional-Gives (some b) h = bind-Gives _ (bin-Gives b h) λ g. pure-Gives _ g

-- A message with its descriptors or without.
module _ {cfg : Config} (rich : IsRich cfg) (base : Bool) where
  modfun-Gives :
      (f : FunView) (h : Heap)
      → Gives h
          (eriak_ok, some (fun_of (share_fun f)))
          3
          0
          (modfun_copy_from_pb cfg (some (pb_fun base f)) h)
  unfolding modfun_copy_from_pb
  modfun-Gives f h = bind-Gives _ (cfg_malloc-Gives rich sizeof_modfun h) λ g.
      bind-Gives _ (bin-Gives rich f.mod_name g)
        λ k. bind-Gives _ (bin-Gives rich f.function k) λ l. pure-Gives _ l

  hook-Gives :
      (v : HookView) (h : Heap)
      → Gives h
          (some (hook_of (share_hook v)))
          (hook_blocks v)
          0
          (hook_from_pb cfg (pb_hook base v) h)
  unfolding hook_from_pb
  hook-Gives v h = bind-Gives _ (cfg_malloc-Gives rich sizeof_commit_hook h) λ g.
      bind-Gives _ (optional-Gives rich v.name g)
        λ k. bind-Gives _ (modfun-Gives v.fun k) λ l. pure-Gives _ l

  listed-Gives :
      (hs : List HookView) (h : Heap)
      → Gives h
          (eriak_ok, some (map hook_of (map share_hook hs)))
          (1 + total hook_blocks hs)
          0
          (commit_hooks_copy_from_pb cfg (some (map (pb_hook base) hs)) (length hs) h)
  unfolding commit_hooks_copy_from_pb
  listed-Gives hs h = rw (map-map hook_of share_hook hs) (
      recount
        (bind-Gives _ (cfg_malloc-Gives rich (mul64 8 (length hs)) h) λ g.
          bind-Gives _
            (each-Gives (pb_hook base) (λ v. hook_of (share_hook v)) hook_blocks _ hook-Gives hs g)
            λ k. pure-Gives _ k)
        (omega arith) (omega arith))

  pub hooks-Gives :
      (v : HooksView) (h : Heap)
      → Gives h
          (eriak_ok, hooks_of (share_hooks v))
          (hooks_blocks v)
          0
          (hooks_from_pb cfg (pb_hooks base v) h)
  unfolding hooks_from_pb
  hooks-Gives unspoken h = pure-Gives _ h
  hooks-Gives missing h = pure-Gives _ h
  hooks-Gives (listed hs) h =
      rw (length-map share_hook hs)
        (recount (bind-Gives _ (listed-Gives hs h) λ l. pure-Gives _ l) (omega arith) (omega arith))

  functions-Gives :
      (v : PropsView) (to : BucketProps) (h : Heap)
      → Gives h
          (
            eriak_ok,
            some (record to {
              chash_keyfun = some (fun_of (share_fun v.chash_keyfun));
              linkfun = some (fun_of (share_fun v.linkfun));
            }),
          )
          6
          0
          (functions_from_pb cfg to (pb_of base v) h)
  unfolding functions_from_pb
  functions-Gives v to h =
      bind-Gives _ (modfun-Gives v.chash_keyfun h)
        λ g. bind-Gives _ (modfun-Gives v.linkfun g) λ k. pure-Gives _ k

  scalars-Gives :
      (v : PropsView) (to : BucketProps) (h : Heap)
      → let function : FunView → Option ModFun = λ f. some (fun_of (share_fun f)) in
        Gives h
          (
            eriak_ok,
            some (record to {
              scalars = seen_scalars v.scalars;
              chash_keyfun = function v.chash_keyfun;
              linkfun = function v.linkfun;
            }),
          )
          6
          0
          (functions_from_pb cfg
            (record to { scalars = all_scalars (seen_scalars v.scalars) })
            (pb_of base v)
            h)
  scalars-Gives v to h = rw (all_scalars-seen v.scalars) (functions-Gives v _ h)

  -- A message that stands for properties is read as these, in binaries that share its bytes.
  pub new_from_pb-Gives :
      (v : PropsView) (h : Heap)
      → Gives h
          (eriak_ok, some (props_of (share v)))
          (blocks v)
          0
          (bucketprops_new_from_pb cfg (pb_of base v) h)
  unfolding bucketprops_new_from_pb bucketprops_new bucketprops_from_pb rest_from_pb
  new_from_pb-Gives v h =
      recount
        (bind-Gives _
          (bind-Gives _ (cfg_malloc-Gives rich sizeof_bucketprops h) λ g. pure-Gives _ g)
          λ k. bind-Gives _ (hooks-Gives v.precommit k) λ l.
            bind-Gives _ (hooks-Gives v.postcommit l) λ m.
              bind-Gives _ (optional-Gives rich v.backend m) λ n.
                bind-Gives _ (optional-Gives rich v.search_index n) λ o.
                  scalars-Gives v
                    (record (props_of (share v)) { chash_keyfun = none; linkfun = none }) o)
        (omega arith) (omega arith)
