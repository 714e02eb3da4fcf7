-- ===== src/Messages/Search/Options.antt =====
-- The functions of src/messages/riak_search.c that make, set and free the options of a search.
use riak_c_client.Base.{ℕ, zero, suc, true, false, Option, none, some, List, [], ◌∷◌, is_some}
use riak_c_client.Error.{RiakError, eriak_ok, eriak_out_of_memory}
use riak_c_client.Memory.{Cmd, fault, pure, ◌>>=◌, ◌>>◌, Config, config_clean_allocate, free_if}
use riak_c_client.Binary
use riak_c_client.Binary.{Binary}
use riak_c_client.Object.Types.{Flagged}
use riak_c_client.Object.Copy.{set_plain}
use riak_c_client.Object.Links.{unset}
use riak_c_client.Object.Grow.{new_entry}
use riak_c_client.Messages.Request.{unset_number, set_to}
use riak_c_client.Messages.Listing.{cells_of}
use riak_c_client.Messages.Search.{SearchOptions}

abbrev pub sizeof_search_options : ℕ
sizeof_search_options = 112

abbrev pub no_search_options : SearchOptions
no_search_options = record {
  rows = unset_number;
  begin = unset_number;
  sort = unset;
  filter = unset;
  df = unset;
  op = unset;
  fl = record { count = 0; cells = none };
  presort = unset;
}

-- `riak_search_options_new`
unfoldable pub search_options_new : Config → Cmd (Option SearchOptions)
search_options_new cfg = do
  got ← config_clean_allocate (some cfg) sizeof_search_options
  elim got [ false ↦ pure none | true ↦ pure (some no_search_options) ]

-- The loop over the fields to return.
unfoldable pub free_fields : ℕ → List (Option Binary) → Cmd (Unit {0})
free_fields zero cells = pure tt
free_fields (suc n) [] = λ h. fault
free_fields (suc n) (b ∷ cells) = do Binary.free b; free_fields n cells

-- `riak_search_options_free`, of options that are not NULL.
unfoldable pub search_options_free : SearchOptions → Cmd (Unit {0})
search_options_free opt = do
  Binary.free opt.sort.content
  Binary.free opt.filter.content
  Binary.free opt.df.content
  Binary.free opt.op.content
  Binary.free opt.presort.content
  free_fields opt.fl.count (cells_of opt.fl.cells)
  free_if (is_some opt.fl.cells)
  free_if true

-- `riak_search_options_set_rows`
abbrev pub search_options_set_rows : SearchOptions → ℕ → SearchOptions
search_options_set_rows opt v = record opt { rows = set_to v }

-- `riak_search_options_set_start`
abbrev pub search_options_set_start : SearchOptions → ℕ → SearchOptions
search_options_set_start opt v = record opt { begin = set_to v }

-- A setter of a binary: the flag is set whatever becomes of the copy, and of an old binary the record is given
-- back, not its bytes.
unfoldable pub replace_copy :
    Config → Flagged (Option Binary) → Option Binary → Cmd (RiakError × Flagged (Option Binary))
replace_copy cfg old v = do
  free_if (is_some old.content)
  (err, b) ← set_plain cfg v
  pure (err, record { has = true; content = b })

-- `riak_search_options_set_sort`
unfoldable pub search_options_set_sort :
    Config → SearchOptions → Option Binary → Cmd (RiakError × SearchOptions)
search_options_set_sort cfg opt v = do
  (err, f) ← replace_copy cfg opt.sort v
  pure (err, record opt { sort = f })

-- `riak_search_options_set_filter`
unfoldable pub search_options_set_filter :
    Config → SearchOptions → Option Binary → Cmd (RiakError × SearchOptions)
search_options_set_filter cfg opt v = do
  (err, f) ← replace_copy cfg opt.filter v
  pure (err, record opt { filter = f })

-- `riak_search_options_set_df`
unfoldable pub search_options_set_df :
    Config → SearchOptions → Option Binary → Cmd (RiakError × SearchOptions)
search_options_set_df cfg opt v = do
  (err, f) ← replace_copy cfg opt.df v
  pure (err, record opt { df = f })

-- `riak_search_options_set_op`
unfoldable pub search_options_set_op :
    Config → SearchOptions → Option Binary → Cmd (RiakError × SearchOptions)
search_options_set_op cfg opt v = do
  (err, f) ← replace_copy cfg opt.op v
  pure (err, record opt { op = f })

-- `riak_search_options_set_presort`
unfoldable pub search_options_set_presort :
    Config → SearchOptions → Option Binary → Cmd (RiakError × SearchOptions)
search_options_set_presort cfg opt v = do
  (err, f) ← replace_copy cfg opt.presort v
  pure (err, record opt { presort = f })

-- `riak_search_options_add_fl`: the array has room for one more, then the copy is made and stored. It fails
-- where the array or the copy is NULL.
unfoldable pub search_options_add_fl :
    Config → SearchOptions → Option Binary → Cmd (RiakError × SearchOptions)
search_options_add_fl cfg opt v = do
  (added, fl) ← new_entry cfg (Binary.copy cfg v) opt.fl
  pure (elim added [ none ↦ eriak_out_of_memory | some _ ↦ eriak_ok ], record opt { fl = fl })
