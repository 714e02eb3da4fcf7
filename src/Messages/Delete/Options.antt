-- ===== src/Messages/Delete/Options.antt =====
-- The functions of src/messages/riak_delete.c that make, set and free the options of a delete request.
use riak_c_client.Base.{ℕ, Bool, true, false, Option, none, some}
use riak_c_client.Memory.{Cmd, pure, ◌>>=◌, ◌>>◌, Config, config_clean_allocate, free_if}
use riak_c_client.Binary
use riak_c_client.Binary.{Binary}
use riak_c_client.Messages.Request.{unset_number, unset_flag, set_to}
use riak_c_client.Messages.Delete.{DeleteOptions}

abbrev pub sizeof_delete_options : ℕ
sizeof_delete_options = 64

abbrev pub no_delete_options : DeleteOptions
no_delete_options = record {
  vclock = record { has = false; content = none };
  w = unset_number;
  dw = unset_number;
  pw = unset_number;
  timeout = unset_number;
  sloppy_quorum = unset_flag;
  n_val = unset_number;
}

-- `riak_delete_options_new`
unfoldable pub delete_options_new : Config → Cmd (Option DeleteOptions)
delete_options_new cfg = do
  got ← config_clean_allocate (some cfg) sizeof_delete_options
  elim got [ false ↦ pure none | true ↦ pure (some no_delete_options) ]

-- `riak_delete_options_free` of options that are there
unfoldable pub delete_options_free : DeleteOptions → Cmd (Unit {0})
delete_options_free opt = do Binary.free opt.vclock.content; free_if true

-- `riak_delete_options_set_vclock`
unfoldable pub delete_options_set_vclock :
    Config → DeleteOptions → Option Binary → Cmd DeleteOptions
delete_options_set_vclock cfg opt v = do
  Binary.free opt.vclock.content
  b ← Binary.copy cfg v
  pure (record opt { vclock = set_to b })

-- `riak_delete_options_set_w`
abbrev pub delete_options_set_w : DeleteOptions → ℕ → DeleteOptions
delete_options_set_w opt v = record opt { w = set_to v }

-- `riak_delete_options_set_dw`
abbrev pub delete_options_set_dw : DeleteOptions → ℕ → DeleteOptions
delete_options_set_dw opt v = record opt { dw = set_to v }

-- `riak_delete_options_set_pw`
abbrev pub delete_options_set_pw : DeleteOptions → ℕ → DeleteOptions
delete_options_set_pw opt v = record opt { pw = set_to v }

-- `riak_delete_options_set_timeout`
abbrev pub delete_options_set_timeout : DeleteOptions → ℕ → DeleteOptions
delete_options_set_timeout opt v = record opt { timeout = set_to v }

-- `riak_delete_options_set_sloppy_quorum`
abbrev pub delete_options_set_sloppy_quorum : DeleteOptions → Bool → DeleteOptions
delete_options_set_sloppy_quorum opt v = record opt { sloppy_quorum = set_to v }

-- `riak_delete_options_set_n_val`
abbrev pub delete_options_set_n_val : DeleteOptions → ℕ → DeleteOptions
delete_options_set_n_val opt v = record opt { n_val = set_to v }
