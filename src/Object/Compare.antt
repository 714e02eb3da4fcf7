-- ===== src/Object/Compare.antt =====
-- riak_object_compare of src/riak_object.c, by the sign of its result; what it prints for debugging
-- is left out. `none` is a NULL pointer that is read, or an array read past its end.
use riak_c_client.Base.{
  ℕ, zero, suc, Bool, true, false, Option, none, some, List, [], ◌∷◌, ◌==◌, ◌&&◌, if◌then◌else◌,
}
use riak_c_client.Binary.{Binary, compare_binary}
use riak_c_client.Object.Types.{Flagged, Pair, Link, RiakObject}
use riak_c_client.Object.Copy.{entries}
use Prim.Native.Nat.{Ordering}

-- `if (result) return result;`
abbrev pub or_else : Option Ordering → Option Ordering → Option Ordering
or_else (some Ordering.eq) second = second
or_else first second = first

-- `riak_object_compare_binary`
unfoldable pub compare_bin : Option Binary → Option Binary → Option Ordering
compare_bin (some a) (some b) = compare_binary a b
compare_bin (some a) none = none
compare_bin none b = none

-- `riak_object_compare_int`: 1 for different numbers.
unfoldable pub compare_int : ℕ → ℕ → Option Ordering
compare_int a b = if a == b then some Ordering.eq else some Ordering.gt

abbrev pub flag_number : Bool → ℕ
flag_number true = 1
flag_number false = 0

unfoldable pub compare_flag : Bool → Bool → Option Ordering
compare_flag a b = compare_int (flag_number a) (flag_number b)

-- Two flags, then the two fields in every case.
unfoldable pub compare_flagged : Flagged (Option Binary) → Flagged (Option Binary) → Option Ordering
compare_flagged a b = or_else (compare_flag a.has b.has) (compare_bin a.content b.content)

-- A comparison where the flag tells to make it.
abbrev pub only_if : Bool → Option Ordering → Option Ordering
only_if true o = o
only_if false o = some Ordering.eq

-- A round of the loops over indexes and user metadata.
unfoldable pub compare_pair : Pair → Pair → Option Ordering
compare_pair a b = or_else (compare_flag a.val.has b.val.has) (
    or_else (compare_bin a.key b.key) (only_if a.val.has (compare_bin a.val.content b.val.content)))

-- A round of the loop over links.
unfoldable pub compare_link : Link → Link → Option Ordering
compare_link a b = or_else (compare_flag a.bucket.has b.bucket.has) (
    or_else (compare_flag a.key.has b.key.has) (
      or_else (compare_flag a.tag.has b.tag.has) (
        or_else (only_if a.bucket.has (compare_bin a.bucket.content b.bucket.content)) (
          or_else (only_if a.key.has (compare_bin a.key.content b.key.content))
            (only_if a.tag.has (compare_bin a.tag.content b.tag.content))))))

-- A loop over the first `n` entries.
unfoldable pub compare_each :
    {A : Type 0} → (A → A → Option Ordering) → ℕ → List A → List A → Option Ordering
compare_each cmp zero xs ys = some Ordering.eq
compare_each cmp (suc n) (x ∷ xs) (y ∷ ys) = or_else (cmp x y) (compare_each cmp n xs ys)
compare_each cmp (suc n) (x ∷ xs) [] = none
compare_each cmp (suc n) [] ys = none

-- The loops at the end of `riak_object_compare_internal`
unfoldable pub compare_arrays : RiakObject → RiakObject → Option Ordering
compare_arrays a b =
    or_else (compare_each compare_pair a.n_indexes (entries a.indexes) (entries b.indexes)) (
      or_else (compare_each compare_link a.n_links (entries a.links) (entries b.links))
        (compare_each compare_pair a.n_usermeta (entries a.usermeta) (entries b.usermeta)))

-- The tests from the tags on
unfoldable pub compare_rest : RiakObject → RiakObject → Option Ordering
compare_rest a b =
    or_else (only_if (a.vtag.has && b.vtag.has) (compare_bin a.vtag.content b.vtag.content)) (
      or_else
        (only_if (a.last_mod.has && b.last_mod.has)
          (compare_int a.last_mod.content b.last_mod.content))
        (or_else
          (only_if (a.last_mod_usecs.has && b.last_mod_usecs.has)
            (compare_int a.last_mod_usecs.content b.last_mod_usecs.content))
          (or_else (compare_flag a.deleted.content b.deleted.content) (
            or_else (compare_int a.n_indexes b.n_indexes) (
              or_else (compare_int a.n_links b.n_links)
                (or_else (compare_int a.n_usermeta b.n_usermeta) (compare_arrays a b)))))))

-- `riak_object_compare_internal`, hence `riak_object_compare`
unfoldable pub object_compare : RiakObject → RiakObject → Option Ordering
object_compare a b = or_else (compare_bin a.bucket b.bucket) (
    or_else (compare_bin a.key.content b.key.content) (
      or_else (compare_bin a.obj_value b.obj_value) (
        or_else (compare_flagged a.charset b.charset) (
          or_else (compare_flagged a.content_type b.content_type)
            (or_else (compare_flagged a.encoding b.encoding) (compare_rest a b))))))
