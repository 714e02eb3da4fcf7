-- ===== src/Object/Sent.antt =====
-- The message that riak_object_to_pb_copy of src/riak_object.c makes of an object.
use riak_c_client.Base.{
  ℕ, suc, ◌+◌, ◌≡◌, true, Option, none, some, List, [], ◌∷◌, map, length, total, ltb, mul64, arith,
}
use riak_c_client.Error.{eriak_ok}
use riak_c_client.Memory.{Heap, Cmd, Config}
use riak_c_client.Memory.Exact.{Gives, pure-Gives, recount, bind-Gives, config_clean_allocate-Gives}
use riak_c_client.Memory.Rich.{IsRich}
use riak_c_client.Object.Types.{sizeof_pb_pair, sizeof_pb_link}
use riak_c_client.Object.Copy.{copy_array, entries}
use riak_c_client.Object.Loops.{each-Gives}
use riak_c_client.Object.Pairs.{pair_to_pb, pairs_copy_to_pb}
use riak_c_client.Object.Links.{link_to_pb, links_copy_to_pb}
use riak_c_client.Object.Content.{copy_counted, as_array, arrays_to_pb, object_to_pb_copy}
use riak_c_client.Object.View.{
  PairView, LinkView, ObjectView, array_of, pair_of, link_of, object_of, pb_pair, pb_link,
  content_of,
}
use riak_c_client.BucketProps.Sent.{bin_to_pb-Gives, optional-Gives}
use riak_c_client.Messages.Put.{no_content}

-- The blocks of an array: none where it is empty.
abbrev pub array_blocks : {V : Type 0} → (V → ℕ) → List V → ℕ
array_blocks cost [] = 0
array_blocks cost (v ∷ vs) = 1 + total cost (v ∷ vs)

-- One of the three arrays, into a cleared field, where all is well so far.
pub counted-Gives :
    {V A B : Type 0} (from : V → A) (to : V → B) (cost : V → ℕ)
    (one : ℕ → Option (List A) → Cmd (Option (Option (List B)))) (vs : List V) (h : Heap)
    → ((v : V) (ws : List V)
        → Gives h
            (some (some (map to (v ∷ ws))))
            (1 + total cost (v ∷ ws))
            0
            (one (length (v ∷ ws)) (some (map from (v ∷ ws))) h))
    → Gives h
        (eriak_ok, (length vs, array_of to vs))
        (array_blocks cost vs)
        0
        (copy_counted one eriak_ok (length vs) (array_of from vs) (0, none) h)
unfolding copy_counted
counted-Gives from to cost one [] h one-Gives = pure-Gives _ h
counted-Gives from to cost one (v ∷ vs) h one-Gives =
    let some_entry : ltb 0 (suc (length vs)) ≡ true = ground arith in
    rw some_entry
      (recount (bind-Gives _ (one-Gives v vs) λ g. pure-Gives _ g) (omega arith) (omega arith))

-- An array whose copies succeed.
pub array-Gives :
    {V A B : Type 0} {cfg : Config}
    → IsRich cfg
    → (from : V → A) (to : V → B) (cost : V → ℕ) (copy : A → Cmd (Option B))
    → ((v : V) (h : Heap) → Gives h (some (to v)) (cost v) 0 (copy (from v) h))
    → (vs : List V) (h : Heap)
    → Gives h
        (some (map to vs))
        (1 + total cost vs)
        0
        (copy_array cfg copy (length vs) (map from vs) h)
unfolding copy_array
array-Gives rich from to cost copy copy-Gives vs h =
    bind-Gives _ (config_clean_allocate-Gives rich (mul64 8 (length vs)) h)
      λ g. each-Gives from to cost copy copy-Gives vs g

-- The blocks of a message.
abbrev pub message_blocks : ObjectView → ℕ
message_blocks v =
    array_blocks (λ p. 1) v.indexes
    + (array_blocks (λ p. 1) v.usermeta + array_blocks (λ l. 1) v.links)

module _ {cfg : Config} (rich : IsRich cfg) where
  pair-Gives :
      (v : PairView) (h : Heap) → Gives h (some (pb_pair v)) 1 0 (pair_to_pb cfg (pair_of v) h)
  unfolding pair_to_pb
  pair-Gives v h = bind-Gives _ (config_clean_allocate-Gives rich sizeof_pb_pair h) λ g.
      bind-Gives _ (bin_to_pb-Gives v.key g)
        λ k. bind-Gives _ (optional-Gives v.val k) λ l. pure-Gives _ l

  link-Gives :
      (v : LinkView) (h : Heap) → Gives h (some (pb_link v)) 1 0 (link_to_pb cfg (link_of v) h)
  unfolding link_to_pb
  link-Gives v h = bind-Gives _ (config_clean_allocate-Gives rich sizeof_pb_link h) λ g.
      bind-Gives _ (optional-Gives v.bucket g) λ k.
        bind-Gives _ (optional-Gives v.key k)
          λ l. bind-Gives _ (optional-Gives v.tag l) λ m. pure-Gives _ m

  pairs-Gives :
      (vs : List PairView) (h : Heap)
      → Gives h
          (eriak_ok, (length vs, array_of pb_pair vs))
          (array_blocks (λ p. 1) vs)
          0
          (copy_counted
            (λ n a. as_array (pairs_copy_to_pb cfg (entries a) n))
            eriak_ok
            (length vs)
            (array_of pair_of vs)
            (0, none)
            h)
  unfolding pairs_copy_to_pb
  pairs-Gives vs h =
      counted-Gives pair_of pb_pair (λ p. 1) (λ n a. as_array (pairs_copy_to_pb cfg (entries a) n))
        vs h
        λ v ws.
          recount
            (bind-Gives _
              (array-Gives rich pair_of pb_pair (λ p. 1) (pair_to_pb cfg) pair-Gives (v ∷ ws) h)
              λ g. pure-Gives _ g)
            (omega arith) (omega arith)

  links-Gives :
      (vs : List LinkView) (h : Heap)
      → Gives h
          (eriak_ok, (length vs, array_of pb_link vs))
          (array_blocks (λ l. 1) vs)
          0
          (copy_counted
            (λ n a. as_array (links_copy_to_pb cfg (entries a) n))
            eriak_ok
            (length vs)
            (array_of link_of vs)
            (0, none)
            h)
  unfolding links_copy_to_pb
  links-Gives vs h =
      counted-Gives link_of pb_link (λ l. 1) (λ n a. as_array (links_copy_to_pb cfg (entries a) n))
        vs h
        λ v ws.
          recount
            (bind-Gives _
              (array-Gives rich link_of pb_link (λ l. 1) (link_to_pb cfg) link-Gives (v ∷ ws) h)
              λ g. pure-Gives _ g)
            (omega arith) (omega arith)

  pub object-Gives :
      (v : ObjectView) (h : Heap)
      → Gives h
          (eriak_ok, content_of v)
          (message_blocks v)
          0
          (object_to_pb_copy cfg no_content (object_of v) h)
  unfolding object_to_pb_copy arrays_to_pb
  object-Gives v h =
      recount
        (bind-Gives _ (bin_to_pb-Gives v.obj_value h) λ g.
          bind-Gives _ (optional-Gives v.charset g) λ k.
            bind-Gives _ (optional-Gives v.encoding k) λ l.
              bind-Gives _ (optional-Gives v.content_type l) λ m.
                bind-Gives _ (optional-Gives v.vtag m) λ n.
                  bind-Gives _ (pairs-Gives v.indexes n) λ o.
                    bind-Gives _ (pairs-Gives v.usermeta o)
                      λ p. bind-Gives _ (links-Gives v.links p) λ q. pure-Gives _ q)
        (omega arith) (omega arith)
