-- ===== src/Object/Restored.antt =====
-- Objects sent and read back, and their release.
use mathlib.Core.Path.{subst}
use riak_c_client.Base.{ℕ, ◌≡◌, true, false, none, some, List, [], ◌∷◌, length, arith}
use riak_c_client.Error.{eriak_ok}
use riak_c_client.Memory.{Heap, Cmd, Config, ◌>>=◌}
use riak_c_client.Memory.Returns
use riak_c_client.Memory.Returns.{Moved, Returns}
use riak_c_client.Memory.Exact.{Gives, recount, bind-Gives, free_if-Gives}
use riak_c_client.Memory.Rich.{IsRich}
use riak_c_client.Object.Copy.{free_array, free_each}
use riak_c_client.Object.Loops.{free_each-Gives}
use riak_c_client.Object.Pairs.{pair_free, pairs_free, pairs_free_pb}
use riak_c_client.Object.Links.{link_free, links_free, links_free_pb}
use riak_c_client.Object.Content.{
  object_to_pb_copy, object_new_from_pb, object_free, object_free_pb,
}
use riak_c_client.Object.View.{
  PairView, LinkView, ObjectView, array_of, pair_of, link_of, object_of, pb_pair, pb_link,
  content_of, share_pair, share_link, share_object,
}
use riak_c_client.Object.Sent.{array_blocks, message_blocks, object-Gives}
use riak_c_client.Object.ReadBack.{
  pair_blocks, link_blocks, blocks, built, built-share, new_from_pb-Gives,
}
use riak_c_client.BucketProps.RoundTrip.{bin_free-Gives, optional-free-Gives}
use riak_c_client.Messages.Put.{no_content}

-- The release of an array and of its entries.
array_free-Gives :
    {V A : Type 0} (to : V → A) (cost : V → ℕ) (one : A → Cmd (Unit {0}))
    → ((v : V) (h : Heap) → Gives h tt 0 (cost v) (one (to v) h))
    → (vs : List V) (h : Heap)
    → Gives h tt 0 (array_blocks cost vs) (free_array one (length vs) (array_of to vs) h)
unfolding free_array free_each
array_free-Gives to cost one one-Gives [] h = free_if-Gives false h
array_free-Gives to cost one one-Gives (v ∷ vs) h =
    recount
      (bind-Gives _ (free_each-Gives to cost one one-Gives (v ∷ vs) h) λ g. free_if-Gives true g)
      (omega arith) (omega arith)

pair_free-Gives :
    (v : PairView) (h : Heap) → Gives h tt 0 (pair_blocks v) (pair_free (pair_of (share_pair v)) h)
unfolding pair_free
pair_free-Gives v h =
    recount
      (bind-Gives _ (bin_free-Gives v.key h)
        λ g. bind-Gives _ (optional-free-Gives v.val g) λ k. free_if-Gives true k)
      (omega arith) (omega arith)

link_free-Gives :
    (v : LinkView) (h : Heap) → Gives h tt 0 (link_blocks v) (link_free (link_of (share_link v)) h)
unfolding link_free
link_free-Gives v h =
    recount
      (bind-Gives _ (optional-free-Gives v.bucket h) λ g.
        bind-Gives _ (optional-free-Gives v.key g)
          λ k. bind-Gives _ (optional-free-Gives v.tag k) λ l. free_if-Gives true l)
      (omega arith) (omega arith)

pairs_free-Gives :
    (vs : List PairView) (h : Heap)
    → Gives h tt 0
        (array_blocks pair_blocks vs)
        (pairs_free (array_of (λ p. pair_of (share_pair p)) vs) (length vs) h)
unfolding pairs_free
pairs_free-Gives vs h =
    array_free-Gives (λ p. pair_of (share_pair p)) pair_blocks pair_free pair_free-Gives vs h

links_free-Gives :
    (vs : List LinkView) (h : Heap)
    → Gives h tt 0
        (array_blocks link_blocks vs)
        (links_free (array_of (λ l. link_of (share_link l)) vs) (length vs) h)
unfolding links_free
links_free-Gives vs h =
    array_free-Gives (λ l. link_of (share_link l)) link_blocks link_free link_free-Gives vs h

object_free-Gives :
    (v : ObjectView) (h : Heap) → Gives h tt 0 (blocks v) (object_free (some (built v)) h)
unfolding object_free
object_free-Gives v h =
    recount
      (bind-Gives _ (optional-free-Gives none h) λ a. bind-Gives _ (optional-free-Gives none a) λ b.
        bind-Gives _ (optional-free-Gives v.charset b) λ c.
          bind-Gives _ (optional-free-Gives v.content_type c) λ d.
            bind-Gives _ (optional-free-Gives v.encoding d) λ e.
              bind-Gives _ (optional-free-Gives none e) λ f.
                bind-Gives _ (bin_free-Gives v.obj_value f) λ g.
                  bind-Gives _ (optional-free-Gives v.vtag g) λ k.
                    bind-Gives _ (pairs_free-Gives v.indexes k) λ l.
                      bind-Gives _ (pairs_free-Gives v.usermeta l)
                        λ m. bind-Gives _ (links_free-Gives v.links m) λ n. free_if-Gives true n)
      (omega arith) (omega arith)

object_free_pb-Gives :
    (v : ObjectView) (h : Heap) → Gives h tt 0 (message_blocks v) (object_free_pb (content_of v) h)
unfolding object_free_pb pairs_free_pb links_free_pb
object_free_pb-Gives v h =
    bind-Gives _ (array_free-Gives pb_pair (λ p. 1) _ (λ p g. free_if-Gives true g) v.indexes h)
      λ g.
        bind-Gives _
          (array_free-Gives pb_pair (λ p. 1) _ (λ p k. free_if-Gives true k) v.usermeta g)
          λ k. array_free-Gives pb_link (λ l. 1) _ (λ l m. free_if-Gives true m) v.links k

-- With an allocator that always has memory: riak_object_to_pb_copy of an object whose value and whose pairs'
-- keys are set, into an initialised content, and then riak_object_new_from_pb of that content, return success
-- with an object of the same value, properties, links, metadata and indexes, in order, in binaries that share
-- their bytes, save that a number or a Boolean without its flag is cleared. The names of where the object is
-- stored, which the content does not have, are unset.
pub object_to_pb_copy-new_from_pb :
    {cfg : Config} (v : ObjectView) (h : Heap)
    → IsRich cfg
    → Returns
        (λ r g. r ≡ (eriak_ok, some (object_of (share_object v))))
        ((object_to_pb_copy cfg no_content (object_of v) >>= λ r. object_new_from_pb cfg r.1) h)
object_to_pb_copy-new_from_pb v h rich =
    Returns.mono (bind-Gives _ (object-Gives rich v h) λ g. new_from_pb-Gives rich v g)
      λ r g gives. gives.0

-- With an allocator that always has memory: riak_object_to_pb_copy of an object whose value and whose pairs'
-- keys are set, into an initialised content, takes one block for every link, pair and index and one for each
-- array that is not empty, and riak_object_free_pb of that content gives back as many.
object_to_pb_copy-free_pb :
    {cfg : Config} (v : ObjectView) (h : Heap)
    → IsRich cfg
    → Returns
        (λ r. Moved h (message_blocks v) (message_blocks v))
        ((object_to_pb_copy cfg no_content (object_of v) >>= λ r. object_free_pb r.1) h)
object_to_pb_copy-free_pb v h rich =
    Returns.mono
      (recount (bind-Gives _ (object-Gives rich v h) λ g. object_free_pb-Gives v g) (omega arith)
        (omega arith))
      λ r g gives. gives.1

-- With an allocator that always has memory: of a content that stands for an object, riak_object_new_from_pb
-- makes an object that riak_object_free can release, and the release gives back as many blocks as the reading
-- took.
pub object_new_from_pb-free :
    {cfg : Config} (v : ObjectView) (h : Heap)
    → IsRich cfg
    → Returns
        (λ r. Moved h (blocks v) (blocks v))
        ((object_new_from_pb cfg (content_of v) >>= λ r. object_free r.1) h)
object_new_from_pb-free v h rich =
    let freed : (g : Heap)
        → Gives g tt 0 (blocks v) (object_free (some (object_of (share_object v))) g) =
      λ g.
        subst (λ o. Gives g tt 0 (blocks v) (object_free (some o) g)) (built-share v)
          (object_free-Gives v g) in
    Returns.mono
      (recount (bind-Gives _ (new_from_pb-Gives rich v h) λ g. freed g) (omega arith) (omega arith))
      λ r g gives. gives.1
