-- ===== src/Object/Links.antt =====
-- The links of src/riak_object.c.
use riak_c_client.Base.{ℕ, true, false, Option, none, some, List, mul64, ◌==◌, if◌then◌else◌}
use riak_c_client.Error.{RiakError}
use riak_c_client.Memory.{Cmd, fault, pure, ◌>>=◌, ◌>>◌, Config, config_clean_allocate, free_if}
use riak_c_client.Binary
use riak_c_client.Binary.{Binary, PbBinary}
use riak_c_client.Object.Types.{Flagged, Link, PbLink, sizeof_link, sizeof_pb_link}
use riak_c_client.Object.Copy.{
  flagged_to_pb, flagged_from_pb, set_flagged, copy_array, each, free_array,
}
use riak_c_client.Object.Pairs.{unset_pb}

abbrev pub unset : Flagged (Option Binary)
unset = record { has = false; content = none }

abbrev pub no_link : Link
no_link = record { bucket = unset; key = unset; tag = unset }

-- `riak_link_new`
unfoldable pub link_new : Config → Cmd (Option Link)
link_new cfg = do
  got ← config_clean_allocate (some cfg) sizeof_link
  elim got [ false ↦ pure none | true ↦ pure (some no_link) ]

-- A round of `riak_links_copy_to_pb`
unfoldable pub link_to_pb : Config → Link → Cmd (Option PbLink)
link_to_pb cfg link = do
  got ← config_clean_allocate (some cfg) sizeof_pb_link
  elim got [
    | false ↦ pure none
    | true ↦ do
      b ← flagged_to_pb link.bucket unset_pb
      k ← flagged_to_pb link.key unset_pb
      t ← flagged_to_pb link.tag unset_pb
      pure (some (record { bucket = b; key = k; tag = t }))
  ]

-- `riak_links_copy_to_pb`; `none` for ERIAK_OUT_OF_MEMORY.
unfoldable pub links_copy_to_pb : Config → List Link → ℕ → Cmd (Option (List PbLink))
links_copy_to_pb cfg link num_links = copy_array cfg (link_to_pb cfg) num_links link

-- `riak_links_free_pb`
unfoldable pub links_free_pb : Option (List PbLink) → ℕ → Cmd (Unit {0})
links_free_pb pblink num_links = free_array (λ _. free_if true) num_links pblink

-- The fields of a link from those of a `RpbLink`, in order.
unfoldable pub link_fields : Config → PbLink → Cmd (Option Link)
link_fields cfg pblink = do
  b ← flagged_from_pb cfg pblink.bucket
  elim b [
    | none ↦ pure none
    | some bucket ↦ do
      k ← flagged_from_pb cfg pblink.key
      elim k [
        | none ↦ pure none
        | some key ↦ do
          t ← flagged_from_pb cfg pblink.tag
          elim t [
            | none ↦ pure none
            | some tag ↦ pure (some (record { bucket = bucket; key = key; tag = tag }))
          ]
      ]
  ]

-- A round of `riak_links_copy_from_pb`
unfoldable pub link_from_pb : Config → PbLink → Cmd (Option Link)
link_from_pb cfg pblink = do
  got ← config_clean_allocate (some cfg) sizeof_link
  elim got [ false ↦ pure none | true ↦ link_fields cfg pblink ]

-- `riak_links_copy_from_pb`: after the allocation of the array the code tests its source, so without
-- memory the first entry is stored through NULL. The inner `none` is a NULL array.
unfoldable pub links_copy_from_pb :
    Config → Option (List PbLink) → ℕ → Cmd (Option (Option (List Link)))
links_copy_from_pb cfg pblink num_links = do
  got ← config_clean_allocate (some cfg) (mul64 8 num_links)
  elim pblink [
    | none ↦ pure none
    | some pblinks ↦ elim got [
      | false ↦ if num_links == 0 then pure (some none) else (λ h. fault)
      | true ↦ do
        links ← each (link_from_pb cfg) num_links pblinks
        elim links [ none ↦ pure none | some ls ↦ pure (some (some ls)) ]
    ]
  ]

-- A round of `riak_links_free`
unfoldable pub link_free : Link → Cmd (Unit {0})
link_free link = do
  Binary.free link.bucket.content
  Binary.free link.key.content
  Binary.free link.tag.content
  free_if true

-- `riak_links_free`
unfoldable pub links_free : Option (List Link) → ℕ → Cmd (Unit {0})
links_free link num_links = free_array link_free num_links link

-- `riak_link_set_bucket`
unfoldable pub link_set_bucket : Config → Link → Option Binary → Cmd (RiakError × Link)
link_set_bucket cfg link v = do
  (err, f) ← set_flagged cfg link.bucket v
  pure (err, record link { bucket = f })

-- `riak_link_set_key`
unfoldable pub link_set_key : Config → Link → Option Binary → Cmd (RiakError × Link)
link_set_key cfg link v = do
  (err, f) ← set_flagged cfg link.key v
  pure (err, record link { key = f })

-- `riak_link_set_tag`
unfoldable pub link_set_tag : Config → Link → Option Binary → Cmd (RiakError × Link)
link_set_tag cfg link v = do
  (err, f) ← set_flagged cfg link.tag v
  pure (err, record link { tag = f })
