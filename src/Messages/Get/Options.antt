-- ===== src/Messages/Get/Options.antt =====
-- The functions of src/messages/riak_get.c that make, set and free the options of a get request.
use riak_c_client.Base.{ℕ, Bool, true, false, Option, none, some, is_some}
use riak_c_client.Memory.{Cmd, pure, ◌>>=◌, ◌>>◌, Config, config_clean_allocate, free_if}
use riak_c_client.Binary
use riak_c_client.Binary.{Binary}
use riak_c_client.Messages.Request.{unset_number, unset_flag, set_to}
use riak_c_client.Messages.Get.{GetOptions}

abbrev pub sizeof_get_options : ℕ
sizeof_get_options = 88

abbrev pub no_get_options : GetOptions
no_get_options = record {
  r = unset_number;
  pr = unset_number;
  basic_quorum = unset_flag;
  notfound_ok = unset_flag;
  if_modified = record { has = false; content = none };
  head = unset_flag;
  deletedvclock = unset_flag;
  timeout = unset_number;
  sloppy_quorum = unset_flag;
  n_val = unset_number;
}

-- `riak_get_options_new`
unfoldable pub get_options_new : Config → Cmd (Option GetOptions)
get_options_new cfg = do
  got ← config_clean_allocate (some cfg) sizeof_get_options
  elim got [ false ↦ pure none | true ↦ pure (some no_get_options) ]

-- `riak_get_options_free`
unfoldable pub get_options_free : Option GetOptions → Cmd (Unit {0})
get_options_free none = pure tt
get_options_free (some options) = do Binary.free options.if_modified.content; free_if true

-- `riak_get_options_set_if_modified`: of the old copy only its own block is given back.
unfoldable pub get_options_set_if_modified : Config → GetOptions → Option Binary → Cmd GetOptions
get_options_set_if_modified cfg opt v = do
  free_if (is_some opt.if_modified.content)
  b ← Binary.copy cfg v
  pure (record opt { if_modified = set_to b })

-- `riak_get_options_set_r`
abbrev pub get_options_set_r : GetOptions → ℕ → GetOptions
get_options_set_r opt v = record opt { r = set_to v }

-- `riak_get_options_set_pr`
abbrev pub get_options_set_pr : GetOptions → ℕ → GetOptions
get_options_set_pr opt v = record opt { pr = set_to v }

-- `riak_get_options_set_basic_quorum`
abbrev pub get_options_set_basic_quorum : GetOptions → Bool → GetOptions
get_options_set_basic_quorum opt v = record opt { basic_quorum = set_to v }

-- `riak_get_options_set_notfound_ok`
abbrev pub get_options_set_notfound_ok : GetOptions → Bool → GetOptions
get_options_set_notfound_ok opt v = record opt { notfound_ok = set_to v }

-- `riak_get_options_set_head`
abbrev pub get_options_set_head : GetOptions → Bool → GetOptions
get_options_set_head opt v = record opt { head = set_to v }

-- `riak_get_options_set_deletedvclock`
abbrev pub get_options_set_deletedvclock : GetOptions → Bool → GetOptions
get_options_set_deletedvclock opt v = record opt { deletedvclock = set_to v }

-- `riak_get_options_set_timeout`
abbrev pub get_options_set_timeout : GetOptions → ℕ → GetOptions
get_options_set_timeout opt v = record opt { timeout = set_to v }

-- `riak_get_options_set_sloppy_quorum`
abbrev pub get_options_set_sloppy_quorum : GetOptions → Bool → GetOptions
get_options_set_sloppy_quorum opt v = record opt { sloppy_quorum = set_to v }

-- `riak_get_options_set_n_val`
abbrev pub get_options_set_n_val : GetOptions → ℕ → GetOptions
get_options_set_n_val opt v = record opt { n_val = set_to v }
