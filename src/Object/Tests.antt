-- ===== src/Object/Tests.antt =====
-- The theorems on src/riak_object.c at concrete pairs and objects.
use Prim.Native.Nat.{Ordering}
use riak_c_client.Base.{◌≡◌, refl, inr, true, false, none, some, [], ◌∷◌, arith}
use riak_c_client.Memory.{Heap, ◌>>=◌, Config, config_clean_allocate, call_malloc}
use riak_c_client.Memory.Returns.{Moved, Returns, returns}
use riak_c_client.Binary.{Binary, memcmp, memcmp_blocks, compare_binary}
use riak_c_client.Object.Types.{RiakObject}
use riak_c_client.Memory.Rich.{IsRich}
use riak_c_client.Object.Links.{no_link, link_new, unset}
use riak_c_client.Object.Grow.{object_new_link}
use riak_c_client.Object.Grown.{Holds, new_entry-Holds}
use riak_c_client.Object.Content.{no_object, object_to_pb_copy, object_new_from_pb, object_free}
use riak_c_client.Object.Compare.{compare_bin}
use riak_c_client.Object.View.{ObjectView, object_of, content_of, share_object}
use riak_c_client.Object.Sent.{message_blocks}
use riak_c_client.Object.ReadBack.{blocks}
use riak_c_client.Object.Restored.{object_to_pb_copy-new_from_pb, object_new_from_pb-free}
use riak_c_client.Messages.Put.{no_content}
use riak_c_client.Error.{eriak_ok}

abbrev rich : Config
rich = record { malloc_fn = some (λ n bytes. true) }

abbrev start : Heap
start = record { calls = 0; mallocs = 0; frees = 0 }

abbrev ab : Binary
ab = record { len = 2; data_block = some (97 ∷ 98 ∷ []); managed = true }

-- An object of which only bucket, key and value are set.
abbrev plain : RiakObject
plain = record no_object {
  bucket = some ab;
  key = record { has = true; content = some ab };
  obj_value = some ab;
}

ab-ab : compare_bin (some ab) (some ab) ≡ some Ordering.eq
unfolding compare_bin compare_binary memcmp memcmp_blocks
ab-ab = refl

link-made : (g : Heap) → Returns (λ r k. r ≡ some no_link) (link_new rich g)
unfolding link_new config_clean_allocate call_malloc
link-made g = returns refl

rich-IsRich : IsRich rich
rich-IsRich = record { alloc = λ n bytes. true; is_set = refl; always = λ n bytes. refl }

-- A second link.
new_entry-Holds_example :
    Returns
      (λ r g. (r.0 ≡ some no_link) × Holds (no_link ∷ no_link ∷ []) r.1)
      (object_new_link rich (record { count = 1; cells = some (some no_link ∷ []) }) start)
new_entry-Holds_example =
    new_entry-Holds (link_new rich) (no_link ∷ []) 1 (some (some no_link ∷ [])) start rich-IsRich
      link-made (omega arith) (refl, inr refl)

-- A deleted object of a named bucket with a value, two links, a pair without a value and no index; the time
-- that it holds has no flag.
abbrev view : ObjectView
view = record {
  bucket = some ab;
  bucket_type = unset;
  key = record { has = true; content = some ab };
  obj_value = ab;
  charset = none;
  encoding = none;
  content_type = some ab;
  vtag = none;
  deleted = record { has = true; content = true };
  last_mod = record { has = false; content = 7 };
  last_mod_usecs = record { has = true; content = 9 };
  links =
      record { bucket = some ab; key = none; tag = none }
      ∷ record { bucket = none; key = some ab; tag = some ab }
      ∷ [];
  usermeta = record { key = ab; val = none } ∷ [];
  indexes = [];
}

object_to_pb_copy-new_from_pb_example :
    Returns
      (λ r g. r ≡ (eriak_ok, some (object_of (share_object view))))
      ((object_to_pb_copy rich no_content (object_of view) >>= λ r. object_new_from_pb rich r.1)
        start)
object_to_pb_copy-new_from_pb_example = object_to_pb_copy-new_from_pb view start rich-IsRich

object_new_from_pb-free_example :
    Returns
      (λ r. Moved start (blocks view) (blocks view))
      ((object_new_from_pb rich (content_of view) >>= λ r. object_free r.1) start)
object_new_from_pb-free_example = object_new_from_pb-free view start rich-IsRich

message_blocks-view : message_blocks view ≡ 5
message_blocks-view = refl

blocks-view : blocks view ≡ 12
blocks-view = refl
