-- ===== src/BucketProps/Faults.antt =====
-- The errors of src/riak_bucketprops.c.
use riak_c_client.Base.{◌≡◌, ◌⊎◌, inl, inr, refl, Option, none, some, true, ◌&&◌, is_some}
use riak_c_client.Memory.{Heap, Run, Cmd, fault, and_then}
use riak_c_client.Memory.Returns
use riak_c_client.Memory.Returns.{Returns, returns, free_if-Returns}
use riak_c_client.Binary
use riak_c_client.Binary.{Binary}
use riak_c_client.BucketProps.Types.{ModFun, BucketProps}
use riak_c_client.BucketProps.ModFun.{modfun_free}
use riak_c_client.BucketProps.Copy.{bucketprops_free}

-- Any release of a binary returns.
bin_free-Returns : (b : Option Binary) (h : Heap) → Returns (λ r g. Unit {0}) (Binary.free b h)
unfolding Binary.free
bin_free-Returns none h = returns tt
bin_free-Returns (some b) h =
    Returns.bind (free_if-Returns (b.managed && is_some b.data_block) h)
      λ r g e. Returns.mono (free_if-Returns true g) λ r' k e'. tt

past-fault :
    {A : Type 0} {Post : Unit {0} → Heap → Type 0} {run : Run (Unit {0})} (next : Unit {0} → Cmd A)
    → Returns Post run
    → ((g : Heap) → next tt g ≡ fault)
    → and_then run next ≡ fault
past-fault next (returns p) later = later _

modfun_free-past :
    {A : Type 0} (f : Option ModFun) (h : Heap) (next : Unit {0} → Cmd A)
    → ((g : Heap) → next tt g ≡ fault)
    → and_then (modfun_free f h) next ≡ fault
unfolding modfun_free
modfun_free-past none h next later = refl
modfun_free-past (some f) h next later =
    past-fault next
      (Returns.bind {NextPost = λ r g. Unit {0}} (bin_free-Returns f.mod_name h) λ r g e.
        Returns.bind (bin_free-Returns f.function g)
          λ r' k e'. Returns.mono (free_if-Returns true k) λ r'' l e''. tt)
      later

-- riak_bucketprops_free reads through NULL for all properties without a hash function or without a link
-- function, which those that riak_bucketprops_new has made are until both are set.
pub bucketprops_free-unset :
    (prop : BucketProps) (h : Heap)
    → (prop.chash_keyfun ≡ none) ⊎ (prop.linkfun ≡ none)
    → bucketprops_free (some prop) h ≡ fault
unfolding bucketprops_free modfun_free
bucketprops_free-unset prop h (inl e) =
    past-fault _ (bin_free-Returns prop.backend.content h) λ g. rw (e, modfun_free)
bucketprops_free-unset prop h (inr e) =
    past-fault _ (bin_free-Returns prop.backend.content h)
      λ g. modfun_free-past prop.chash_keyfun g _ λ k. rw (e, modfun_free)
