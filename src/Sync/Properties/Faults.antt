-- ===== src/Sync/Properties/Faults.antt =====
-- The request of riak_set_bucketprops for properties with functions, in src/messages/riak_set_bucketprops.c.
use riak_c_client.Base.{ℕ, ◌≡◌, refl, ap, ◌∙◌, Bool, true, false, ◌&&◌, Option, none, some, List}
use riak_c_client.Memory.{Heap, Run, Cmd, fault, and_then}
use riak_c_client.Memory.Returns
use riak_c_client.Memory.Returns.{Returns, returns, free_if-Returns}
use riak_c_client.Memory.Rich.{IsRich}
use riak_c_client.Binary.{Binary, copy_to_pb}
use riak_c_client.Operation.{Operation, get_config}
use riak_c_client.Object.Copy.{bin_to_pb, entries}
use riak_c_client.BucketProps.View.{PropsView, props_of, pb_of}
use riak_c_client.BucketProps.Sent.{bucketprops-Gives}
use riak_c_client.Messages.Request.{optional_to_pb}
use riak_c_client.Messages.SetBucket.{
  PbSetBucketReq, props_message, NeedsBase, hooks_pack, set_bucketprops_request_encode,
}

-- A run that faults on a value that is known.
known-fault :
    {A B : Type 0} {a : A} {run : Run A} (next : A → Cmd B)
    → Returns (λ r g. r ≡ a) run
    → ((g : Heap) → next a g ≡ fault)
    → and_then run next ≡ fault
known-fault next (returns {result} {after} e) later = ap (λ r. next r after) e ∙ later after

and_none : (a b : Bool) → (a && (b && false)) ≡ false
and_none true true = refl
and_none true false = refl
and_none false b = refl

-- With an allocator that always has memory and a packer that needs the descriptor of each message:
-- riak_set_bucketprops_request_encode of bucket properties whose two functions, and those of their hooks, are set,
-- for any bucket, with a type or not, always faults: it has the packer go through messages without a descriptor.
pub set_bucketprops_request_encode-fault :
    {D R : Type 0} (pack : PbSetBucketReq → Option (List ℕ)) (decoder : D) (rop : Operation D R)
    (bucket_type : Option Binary) (bucket : Binary) (v : PropsView) (h : Heap)
    → NeedsBase pack
    → IsRich (get_config rop)
    → set_bucketprops_request_encode pack decoder rop bucket_type
        (some bucket)
        (some (props_of v))
        h
      ≡ fault
unfolding set_bucketprops_request_encode bin_to_pb props_message
set_bucketprops_request_encode-fault pack decoder rop bucket_type bucket v h needs rich =
    let pb = pb_of false v in
    let req : PbSetBucketReq = record {
      bucket_type = optional_to_pb bucket_type;
      bucket = copy_to_pb bucket;
      props = pb;
    } in
    let refused : pack req ≡ none = needs.refuses req (
      and_none (hooks_pack pb.precommit.n_hooks (entries pb.precommit.hooks))
        (hooks_pack pb.postcommit.n_hooks (entries pb.postcommit.hooks))) in
    known-fault _ (Returns.mono (bucketprops-Gives rich v h) λ r g gives. gives.0)
      λ g. rw refused refl
