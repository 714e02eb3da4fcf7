-- ===== src/Messages/Index/Options.antt =====
-- The functions of src/messages/riak_2i.c that make, set and free the options of an index query.
use riak_c_client.Base.{ℕ, Bool, true, false, Option, none, some}
use riak_c_client.Error.{RiakError}
use riak_c_client.Memory.{Cmd, pure, ◌>>=◌, ◌>>◌, Config, config_clean_allocate, free_if}
use riak_c_client.Binary
use riak_c_client.Binary.{Binary}
use riak_c_client.Object.Types.{Flagged}
use riak_c_client.Object.Copy.{set_plain}
use riak_c_client.Object.Links.{unset}
use riak_c_client.Messages.Request.{unset_number, unset_flag, set_to}
use riak_c_client.Messages.Index.{IndexOptions, eq, range}

abbrev pub sizeof_index_options : ℕ
sizeof_index_options = 136

abbrev pub no_index_options : IndexOptions
no_index_options = record {
  qtype = eq;
  key = unset;
  range_min = unset;
  range_max = unset;
  return_terms = unset_flag;
  stream = unset_flag;
  max_results = unset_number;
  continuation = unset;
  timeout = unset_number;
  bucket_type = unset;
  term_regex = unset;
  pagination_sort = unset_flag;
}

-- `riak_2i_options_set_stream`
abbrev pub index_options_set_stream : IndexOptions → Bool → IndexOptions
index_options_set_stream opt v = record opt { stream = set_to v }

-- `riak_2i_options_new`
unfoldable pub index_options_new : Config → Cmd (Option IndexOptions)
index_options_new cfg = do
  got ← config_clean_allocate (some cfg) sizeof_index_options
  elim got [
    | false ↦ pure none
    | true ↦ pure (some (index_options_set_stream no_index_options true))
  ]

-- `riak_2i_options_free`, of options that are not NULL.
unfoldable pub index_options_free : IndexOptions → Cmd (Unit {0})
index_options_free opt = do
  Binary.free opt.key.content
  Binary.free opt.range_min.content
  Binary.free opt.range_max.content
  Binary.free opt.bucket_type.content
  Binary.free opt.continuation.content
  Binary.free opt.term_regex.content
  free_if true

-- `riak_2i_options_set_range_query`
abbrev pub index_options_set_range_query : IndexOptions → IndexOptions
index_options_set_range_query opt = record opt { qtype = range }

-- A setter of a binary: the flag is set whatever becomes of the copy.
unfoldable pub set_copy : Config → Option Binary → Cmd (RiakError × Flagged (Option Binary))
set_copy cfg v = do (err, b) ← set_plain cfg v; pure (err, record { has = true; content = b })

-- `riak_2i_options_set_key`
unfoldable pub index_options_set_key :
    Config → IndexOptions → Option Binary → Cmd (RiakError × IndexOptions)
index_options_set_key cfg opt v = do (err, f) ← set_copy cfg v; pure (err, record opt { key = f })

-- `riak_2i_options_set_range_min`
unfoldable pub index_options_set_range_min :
    Config → IndexOptions → Option Binary → Cmd (RiakError × IndexOptions)
index_options_set_range_min cfg opt v = do
  (err, f) ← set_copy cfg v
  pure (err, record opt { range_min = f })

-- `riak_2i_options_set_range_max`
unfoldable pub index_options_set_range_max :
    Config → IndexOptions → Option Binary → Cmd (RiakError × IndexOptions)
index_options_set_range_max cfg opt v = do
  (err, f) ← set_copy cfg v
  pure (err, record opt { range_max = f })

-- `riak_2i_options_set_continuation`
unfoldable pub index_options_set_continuation :
    Config → IndexOptions → Option Binary → Cmd (RiakError × IndexOptions)
index_options_set_continuation cfg opt v = do
  (err, f) ← set_copy cfg v
  pure (err, record opt { continuation = f })

-- `riak_2i_options_set_type`
unfoldable pub index_options_set_type :
    Config → IndexOptions → Option Binary → Cmd (RiakError × IndexOptions)
index_options_set_type cfg opt v = do
  (err, f) ← set_copy cfg v
  pure (err, record opt { bucket_type = f })

-- `riak_2i_options_set_term_regex`
unfoldable pub index_options_set_term_regex :
    Config → IndexOptions → Option Binary → Cmd (RiakError × IndexOptions)
index_options_set_term_regex cfg opt v = do
  (err, f) ← set_copy cfg v
  pure (err, record opt { term_regex = f })

-- `riak_2i_options_set_return_terms`
abbrev pub index_options_set_return_terms : IndexOptions → Bool → IndexOptions
index_options_set_return_terms opt v = record opt { return_terms = set_to v }

-- `riak_2i_options_set_max_results`
abbrev pub index_options_set_max_results : IndexOptions → ℕ → IndexOptions
index_options_set_max_results opt v = record opt { max_results = set_to v }

-- `riak_2i_options_set_timeout`
abbrev pub index_options_set_timeout : IndexOptions → ℕ → IndexOptions
index_options_set_timeout opt v = record opt { timeout = set_to v }

-- `riak_2i_options_set_pagination_sort`
abbrev pub index_options_set_pagination_sort : IndexOptions → Bool → IndexOptions
index_options_set_pagination_sort opt v = record opt { pagination_sort = set_to v }
