-- ===== src/Messages/Put/Options.antt =====
-- The functions of src/messages/riak_put.c that make, set and free the options of a put request.
use riak_c_client.Base.{ℕ, Bool, true, false, Option, none, some, is_some}
use riak_c_client.Memory.{Cmd, pure, ◌>>=◌, ◌>>◌, Config, config_clean_allocate, free_if}
use riak_c_client.Binary
use riak_c_client.Binary.{Binary}
use riak_c_client.Messages.Request.{unset_number, unset_flag, set_to}
use riak_c_client.Messages.Put.{PutOptions}

abbrev pub sizeof_put_options : ℕ
sizeof_put_options = 104

abbrev pub no_put_options : PutOptions
no_put_options = record {
  vclock = record { has = false; content = none };
  w = unset_number;
  dw = unset_number;
  return_body = unset_flag;
  pw = unset_number;
  if_not_modified = unset_flag;
  if_none_match = unset_flag;
  return_head = unset_flag;
  timeout = unset_number;
  asis = unset_flag;
  sloppy_quorum = unset_flag;
  n_val = unset_number;
}

-- `riak_put_options_new`
unfoldable pub put_options_new : Config → Cmd (Option PutOptions)
put_options_new cfg = do
  got ← config_clean_allocate (some cfg) sizeof_put_options
  elim got [ false ↦ pure none | true ↦ pure (some no_put_options) ]

-- `riak_put_options_free`: the vector clock stays allocated.
unfoldable pub put_options_free : Option PutOptions → Cmd (Unit {0})
put_options_free opt = free_if (is_some opt)

-- `riak_put_options_set_vclock`: of the old copy only its own block is given back.
unfoldable pub put_options_set_vclock : Config → PutOptions → Option Binary → Cmd PutOptions
put_options_set_vclock cfg opt v = do
  free_if (is_some opt.vclock.content)
  b ← Binary.copy cfg v
  pure (record opt { vclock = set_to b })

-- `riak_put_options_set_w`
abbrev pub put_options_set_w : PutOptions → ℕ → PutOptions
put_options_set_w opt v = record opt { w = set_to v }

-- `riak_put_options_set_dw`
abbrev pub put_options_set_dw : PutOptions → ℕ → PutOptions
put_options_set_dw opt v = record opt { dw = set_to v }

-- `riak_put_options_set_return_body`
abbrev pub put_options_set_return_body : PutOptions → Bool → PutOptions
put_options_set_return_body opt v = record opt { return_body = set_to v }

-- `riak_put_options_set_pw`
abbrev pub put_options_set_pw : PutOptions → ℕ → PutOptions
put_options_set_pw opt v = record opt { pw = set_to v }

-- `riak_put_options_set_if_not_modified`
abbrev pub put_options_set_if_not_modified : PutOptions → Bool → PutOptions
put_options_set_if_not_modified opt v = record opt { if_not_modified = set_to v }

-- `riak_put_options_set_if_none_match`
abbrev pub put_options_set_if_none_match : PutOptions → Bool → PutOptions
put_options_set_if_none_match opt v = record opt { if_none_match = set_to v }

-- `riak_put_options_set_return_head`
abbrev pub put_options_set_return_head : PutOptions → Bool → PutOptions
put_options_set_return_head opt v = record opt { return_head = set_to v }

-- `riak_put_options_set_timeout`
abbrev pub put_options_set_timeout : PutOptions → ℕ → PutOptions
put_options_set_timeout opt v = record opt { timeout = set_to v }

-- `riak_put_options_set_asis`
abbrev pub put_options_set_asis : PutOptions → Bool → PutOptions
put_options_set_asis opt v = record opt { asis = set_to v }

-- `riak_put_options_set_sloppy_quorum`
abbrev pub put_options_set_sloppy_quorum : PutOptions → Bool → PutOptions
put_options_set_sloppy_quorum opt v = record opt { sloppy_quorum = set_to v }

-- `riak_put_options_set_n_val`
abbrev pub put_options_set_n_val : PutOptions → ℕ → PutOptions
put_options_set_n_val opt v = record opt { n_val = set_to v }
