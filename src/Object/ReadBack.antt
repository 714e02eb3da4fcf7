-- ===== src/Object/ReadBack.antt =====
-- The object that riak_object_new_from_pb of src/riak_object.c makes of the content of a message.
use riak_c_client.Base.{
  ℕ, ◌+◌, ◌≡◌, refl, ap, sym, false, none, some, List, [], ◌∷◌, map, length, mul64, arith, is_some,
  length-map, map-map,
}
use mathlib.Core.Path.{subst}
use riak_c_client.Error.{eriak_ok}
use riak_c_client.Memory.{Heap, Config}
use riak_c_client.Memory.Returns.{one_if}
use riak_c_client.Memory.Exact.{Gives, pure-Gives, recount, bind-Gives, config_clean_allocate-Gives}
use riak_c_client.Memory.Rich.{IsRich}
use riak_c_client.Object.Types.{RiakObject, sizeof_pair, sizeof_link, sizeof_object}
use riak_c_client.Object.Copy.{scalar_copy, entries}
use riak_c_client.Object.Loops.{each-Gives}
use riak_c_client.Object.Pairs.{pairs_copy_from_pb, pairs_copy_array_from_pb}
use riak_c_client.Object.Links.{link_fields, link_from_pb, links_copy_from_pb}
use riak_c_client.Object.Content.{
  no_object, copy_counted, as_array, arrays_from_pb, object_new, object_from_pb, object_new_from_pb,
}
use riak_c_client.Object.View.{
  PairView, LinkView, ObjectView, array_of, pair_of, link_of, object_of, pb_pair, pb_link,
  content_of, share_pair, share_link, share_object,
}
use riak_c_client.Object.Sent.{array_blocks, counted-Gives, array-Gives}
use riak_c_client.BucketProps.View.{optional, share_bin, share_optional, seen}
use riak_c_client.BucketProps.ReadBack.{bin-Gives, optional-Gives, copy-seen}

-- The blocks of a value that shares its bytes.
abbrev pub pair_blocks : PairView → ℕ
pair_blocks v = 2 + one_if (is_some v.val)

abbrev pub link_blocks : LinkView → ℕ
link_blocks v = 1 + (one_if (is_some v.bucket) + (one_if (is_some v.key) + one_if (is_some v.tag)))

abbrev pub blocks : ObjectView → ℕ
blocks v =
    2
    + (one_if (is_some v.charset)
        + (one_if (is_some v.encoding)
            + (one_if (is_some v.content_type)
                + (one_if (is_some v.vtag)
                    + (array_blocks pair_blocks v.indexes
                        + (array_blocks pair_blocks v.usermeta
                            + array_blocks link_blocks v.links))))))

-- The object as the loops build it.
abbrev pub built : ObjectView → RiakObject
built v = record no_object {
  obj_value = some (share_bin v.obj_value);
  charset = optional (share_optional v.charset);
  encoding = optional (share_optional v.encoding);
  content_type = optional (share_optional v.content_type);
  vtag = optional (share_optional v.vtag);
  deleted = scalar_copy (seen false v.deleted) no_object.deleted;
  last_mod = scalar_copy (seen 0 v.last_mod) no_object.last_mod;
  last_mod_usecs = scalar_copy (seen 0 v.last_mod_usecs) no_object.last_mod_usecs;
  n_links = length v.links;
  links = array_of (λ l. link_of (share_link l)) v.links;
  n_usermeta = length v.usermeta;
  usermeta = array_of (λ p. pair_of (share_pair p)) v.usermeta;
  n_indexes = length v.indexes;
  indexes = array_of (λ p. pair_of (share_pair p)) v.indexes;
}

array_of-map :
    {A B C : Type 0} (f : B → C) (g : A → B) (vs : List A)
    → array_of (λ v. f (g v)) vs ≡ array_of f (map g vs)
array_of-map f g [] = refl
array_of-map f g (v ∷ vs) = ap (λ ws. some (f (g v) ∷ ws)) (sym (map-map f g vs))

pub built-share : (v : ObjectView) → built v ≡ object_of (share_object v)
built-share v i = record (built v) {
  deleted = copy-seen false v.deleted i;
  last_mod = copy-seen 0 v.last_mod i;
  last_mod_usecs = copy-seen 0 v.last_mod_usecs i;
  n_links = sym (length-map share_link v.links) i;
  links = array_of-map link_of share_link v.links i;
  n_usermeta = sym (length-map share_pair v.usermeta) i;
  usermeta = array_of-map pair_of share_pair v.usermeta i;
  n_indexes = sym (length-map share_pair v.indexes) i;
  indexes = array_of-map pair_of share_pair v.indexes i;
}

module _ {cfg : Config} (rich : IsRich cfg) where
  pair-Gives :
      (v : PairView) (h : Heap)
      → Gives h
          (some (pair_of (share_pair v)))
          (pair_blocks v)
          0
          (pairs_copy_from_pb cfg (pb_pair v) h)
  unfolding pairs_copy_from_pb
  pair-Gives v h =
      recount
        (bind-Gives _ (config_clean_allocate-Gives rich sizeof_pair h) λ g.
          bind-Gives _ (bin-Gives rich v.key g)
            λ k. bind-Gives _ (optional-Gives rich v.val k) λ l. pure-Gives _ l)
        (omega arith) (omega arith)

  link-Gives :
      (v : LinkView) (h : Heap)
      → Gives h (some (link_of (share_link v))) (link_blocks v) 0 (link_from_pb cfg (pb_link v) h)
  unfolding link_from_pb link_fields
  link-Gives v h =
      recount
        (bind-Gives _ (config_clean_allocate-Gives rich sizeof_link h) λ g.
          bind-Gives _ (optional-Gives rich v.bucket g) λ k.
            bind-Gives _ (optional-Gives rich v.key k)
              λ l. bind-Gives _ (optional-Gives rich v.tag l) λ m. pure-Gives _ m)
        (omega arith) (omega arith)

  pairs-Gives :
      (vs : List PairView) (h : Heap)
      → Gives h
          (eriak_ok, (length vs, array_of (λ p. pair_of (share_pair p)) vs))
          (array_blocks pair_blocks vs)
          0
          (copy_counted
            (λ n a. as_array (pairs_copy_array_from_pb cfg (entries a) n))
            eriak_ok
            (length vs)
            (array_of pb_pair vs)
            (0, none)
            h)
  unfolding pairs_copy_array_from_pb
  pairs-Gives vs h =
      counted-Gives pb_pair (λ p. pair_of (share_pair p)) pair_blocks
        (λ n a. as_array (pairs_copy_array_from_pb cfg (entries a) n)) vs h
        λ v ws.
          recount
            (bind-Gives _
              (array-Gives rich pb_pair (λ p. pair_of (share_pair p)) pair_blocks
                (pairs_copy_from_pb cfg) pair-Gives (v ∷ ws) h)
              λ g. pure-Gives _ g)
            (omega arith) (omega arith)

  links-Gives :
      (vs : List LinkView) (h : Heap)
      → Gives h
          (eriak_ok, (length vs, array_of (λ l. link_of (share_link l)) vs))
          (array_blocks link_blocks vs)
          0
          (copy_counted
            (λ n a. links_copy_from_pb cfg a n)
            eriak_ok
            (length vs)
            (array_of pb_link vs)
            (0, none)
            h)
  unfolding links_copy_from_pb
  links-Gives vs h =
      counted-Gives pb_link (λ l. link_of (share_link l)) link_blocks
        (λ n a. links_copy_from_pb cfg a n) vs h
        λ v ws.
          recount
            (bind-Gives _ (config_clean_allocate-Gives rich (mul64 8 (length (v ∷ ws))) h) λ g.
              bind-Gives _
                (each-Gives pb_link (λ l. link_of (share_link l)) link_blocks (link_from_pb cfg)
                  link-Gives (v ∷ ws) g)
                λ k. pure-Gives _ k)
            (omega arith) (omega arith)

  built-Gives :
      (v : ObjectView) (h : Heap)
      → Gives h (eriak_ok, some (built v)) (blocks v) 0 (object_new_from_pb cfg (content_of v) h)
  unfolding object_new_from_pb object_new object_from_pb arrays_from_pb
  built-Gives v h =
      recount
        (bind-Gives _
          (bind-Gives _ (config_clean_allocate-Gives rich sizeof_object h) λ g. pure-Gives _ g)
          λ g. bind-Gives _ (bin-Gives rich v.obj_value g) λ k.
            bind-Gives _ (optional-Gives rich v.charset k) λ l.
              bind-Gives _ (optional-Gives rich v.encoding l) λ m.
                bind-Gives _ (optional-Gives rich v.content_type m) λ n.
                  bind-Gives _ (optional-Gives rich v.vtag n) λ o.
                    bind-Gives _ (pairs-Gives v.indexes o) λ p.
                      bind-Gives _ (pairs-Gives v.usermeta p)
                        λ q. bind-Gives _ (links-Gives v.links q) λ r. pure-Gives _ r)
        (omega arith) (omega arith)

  -- The content of an object is read as the object, in binaries that share its bytes.
  pub new_from_pb-Gives :
      (v : ObjectView) (h : Heap)
      → Gives h
          (eriak_ok, some (object_of (share_object v)))
          (blocks v)
          0
          (object_new_from_pb cfg (content_of v) h)
  new_from_pb-Gives v h =
      subst (λ o. Gives h (eriak_ok, some o) (blocks v) 0 (object_new_from_pb cfg (content_of v) h))
        (built-share v) (built-Gives v h)
