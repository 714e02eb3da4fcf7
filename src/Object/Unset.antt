-- ===== src/Object/Unset.antt =====
-- Where riak_object_compare of src/riak_object.c reads a NULL pointer.
use Prim.Native.Nat.{Ordering}
use riak_c_client.Base.{◌≡◌, refl, ap, ap₂, ◌∙◌, false, Option, none, some}
use riak_c_client.Object.Types.{RiakObject}
use riak_c_client.Object.Compare.{
  or_else, compare_bin, compare_int, compare_flag, compare_flagged, compare_rest, object_compare,
}

skip : {o next : Option Ordering} → o ≡ some Ordering.eq → or_else o next ≡ next
skip {o} {next} e = ap (λ x. or_else x next) e

unset-null :
    compare_flagged
      (record { has = false; content = none })
      (record { has = false; content = none })
    ≡ none
unfolding compare_flagged compare_flag compare_int compare_bin
unset-null = refl

-- Two objects whose buckets, keys and values compare equal and of which neither has a character set:
-- riak_object_compare goes on to read the NULL character sets.
pub object_compare-unset :
    (a b : RiakObject)
    → compare_bin a.bucket b.bucket ≡ some Ordering.eq
    → compare_bin a.key.content b.key.content ≡ some Ordering.eq
    → compare_bin a.obj_value b.obj_value ≡ some Ordering.eq
    → a.charset ≡ record { has = false; content = none }
    → b.charset ≡ record { has = false; content = none }
    → object_compare a b ≡ none
unfolding object_compare
object_compare-unset a b buckets keys values p q =
    skip buckets
    ∙ skip keys
    ∙ skip values
    ∙ ap
        (λ o. or_else o (
          or_else (compare_flagged a.content_type b.content_type)
            (or_else (compare_flagged a.encoding b.encoding) (compare_rest a b))))
        (ap₂ compare_flagged p q ∙ unset-null)
