-- ===== src/Object/Grow.antt =====
-- The functions of src/riak_object.c that add a link, a piece of user metadata or an index to an object.
use riak_c_client.Base.{ℕ, next_int, true, false, Option, none, some, List, [], ◌∷◌, write_at}
use riak_c_client.Memory.{Cmd, pure, value, ◌>>=◌, Config, config_clean_allocate}
use riak_c_client.Utils.{array_realloc}
use riak_c_client.Object.Types.{Link, Pair}
use riak_c_client.Object.Pairs.{pair_new}
use riak_c_client.Object.Links.{link_new}

-- The two fields of an object for an array of pointers, such as `n_links` and `links`: the number of the entries
-- in use, and the cells, of which those behind may be NULL.
pub record Slots (A : Type 0) : Type 0 where
  pub count : ℕ
  pub cells : Option (List (Option A))

-- The array after `riak_array_realloc`, whose result is not looked at.
abbrev pub or_old : {A : Type 0} → List (Option A) → Option (List (Option A)) → List (Option A)
or_old old none = old
or_old old (some new) = new

-- `if (array == NULL) { array = clean_allocate(pointer); } else { riak_array_realloc(..., n, n+1); }`
unfoldable pub room_for_one :
    {A : Type 0} → Config → ℕ → Option (List (Option A)) → Cmd (Option (List (Option A)))
room_for_one cfg n none = do
  got ← config_clean_allocate (some cfg) 8
  elim got [ true ↦ pure (some (none ∷ [])) | false ↦ pure none ]
room_for_one cfg n (some old) = do
  more ← value (next_int n)
  new ← array_realloc cfg none old 8 n more
  pure (some (or_old old new))

-- The entry, NULL or not, behind those in use, and its number if it is not NULL. A store behind the array
-- faults, and so does a count beyond INT_MAX.
unfoldable pub store_new :
    {A : Type 0} → Slots A → List (Option A) → Option A → Cmd (Option A × Slots A)
store_new slots cells result = do
  cells' ← value (write_at cells slots.count result)
  count ← value (elim result [ none ↦ some slots.count | some _ ↦ next_int slots.count ])
  pure (result, record { count = count; cells = some cells' })

-- `riak_object_new_link`, `riak_object_new_usermeta` and `riak_object_new_index`, which differ in the array and in
-- what they make.
unfoldable pub new_entry :
    {A : Type 0} → Config → Cmd (Option A) → Slots A → Cmd (Option A × Slots A)
new_entry cfg make slots = do
  room ← room_for_one cfg slots.count slots.cells
  elim room [
    | none ↦ pure (none, record slots { cells = none })
    | some cells ↦ do result ← make; store_new slots cells result
  ]

-- `riak_object_new_link` on the object's links.
abbrev pub object_new_link : Config → Slots Link → Cmd (Option Link × Slots Link)
object_new_link cfg links = new_entry cfg (link_new cfg) links

-- `riak_object_new_usermeta` on the object's user metadata.
abbrev pub object_new_usermeta : Config → Slots Pair → Cmd (Option Pair × Slots Pair)
object_new_usermeta cfg usermeta = new_entry cfg (pair_new cfg) usermeta

-- `riak_object_new_index` on the object's indexes.
abbrev pub object_new_index : Config → Slots Pair → Cmd (Option Pair × Slots Pair)
object_new_index cfg indexes = new_entry cfg (pair_new cfg) indexes
