-- ===== src/BucketProps/Setters.antt =====
-- The setters of src/riak_bucketprops.c.
use riak_c_client.Base.{ℕ, Bool, true, Option, none, some, List}
use riak_c_client.Error.{RiakError, eriak_ok, eriak_out_of_memory}
use riak_c_client.Memory.{Cmd, pure, ◌>>=◌, Config}
use riak_c_client.Binary.{Binary}
use riak_c_client.Messages.Request.{set_to}
use riak_c_client.BucketProps.Types.{ModFun, CommitHook, BucketProps}
use riak_c_client.BucketProps.ModFun.{modfun_deep_new}

-- `riak_bucketprops_set_precommits`: the array is the caller's.
abbrev pub set_precommits : BucketProps → Option (List CommitHook) → ℕ → BucketProps
set_precommits prop precommit num = record prop {
  precommit = record { n_hooks = num; hooks = precommit; has_has = true; has = true };
}

-- `riak_bucketprops_set_postcommits`
abbrev pub set_postcommits : BucketProps → Option (List CommitHook) → ℕ → BucketProps
set_postcommits prop postcommit num = record prop {
  postcommit = record { n_hooks = num; hooks = postcommit; has_has = true; has = true };
}

-- `if (prop->f) { return ERIAK_OUT_OF_MEMORY; } return ERIAK_OK;`
unfoldable pub refused_if_set : Option ModFun → RiakError
refused_if_set none = eriak_ok
refused_if_set (some _) = eriak_out_of_memory

-- `riak_bucketprops_set_chash_keyfun`
unfoldable pub set_chash_keyfun :
    Config → BucketProps → Option ModFun → Cmd (RiakError × BucketProps)
set_chash_keyfun cfg prop v = do
  f ← modfun_deep_new cfg v
  pure (refused_if_set f, record prop { chash_keyfun = f })

-- `riak_bucketprops_set_linkfun`
unfoldable pub set_linkfun : Config → BucketProps → Option ModFun → Cmd (RiakError × BucketProps)
set_linkfun cfg prop v = do
  f ← modfun_deep_new cfg v
  pure (refused_if_set f, record prop { linkfun = f })

-- `riak_bucketprops_set_backend`: the binary is the caller's.
abbrev pub set_backend : BucketProps → Option Binary → BucketProps
set_backend prop v = record prop { backend = set_to v }

-- `riak_bucketprops_set_search_index`
abbrev pub set_search_index : BucketProps → Option Binary → BucketProps
set_search_index prop v = record prop { search_index = set_to v }

-- `riak_bucketprops_set_n_val`
abbrev pub set_n_val : BucketProps → ℕ → BucketProps
set_n_val prop v = record prop { scalars = record (prop.scalars) { n_val = set_to v } }

-- `riak_bucketprops_set_allow_mult`
abbrev pub set_allow_mult : BucketProps → Bool → BucketProps
set_allow_mult prop v = record prop { scalars = record (prop.scalars) { allow_mult = set_to v } }

-- `riak_bucketprops_set_last_write_wins`
abbrev pub set_last_write_wins : BucketProps → Bool → BucketProps
set_last_write_wins prop v = record prop {
  scalars = record (prop.scalars) { last_write_wins = set_to v };
}

-- `riak_bucketprops_set_old_vclock`
abbrev pub set_old_vclock : BucketProps → ℕ → BucketProps
set_old_vclock prop v = record prop { scalars = record (prop.scalars) { old_vclock = set_to v } }

-- `riak_bucketprops_set_young_vclock`
abbrev pub set_young_vclock : BucketProps → ℕ → BucketProps
set_young_vclock prop v = record prop {
  scalars = record (prop.scalars) { young_vclock = set_to v };
}

-- `riak_bucketprops_set_big_vclock`
abbrev pub set_big_vclock : BucketProps → ℕ → BucketProps
set_big_vclock prop v = record prop { scalars = record (prop.scalars) { big_vclock = set_to v } }

-- `riak_bucketprops_set_small_vclock`
abbrev pub set_small_vclock : BucketProps → ℕ → BucketProps
set_small_vclock prop v = record prop {
  scalars = record (prop.scalars) { small_vclock = set_to v };
}

-- `riak_bucketprops_set_pr`
abbrev pub set_pr : BucketProps → ℕ → BucketProps
set_pr prop v = record prop { scalars = record (prop.scalars) { pr = set_to v } }

-- `riak_bucketprops_set_r`
abbrev pub set_r : BucketProps → ℕ → BucketProps
set_r prop v = record prop { scalars = record (prop.scalars) { r = set_to v } }

-- `riak_bucketprops_set_w`
abbrev pub set_w : BucketProps → ℕ → BucketProps
set_w prop v = record prop { scalars = record (prop.scalars) { w = set_to v } }

-- `riak_bucketprops_set_pw`
abbrev pub set_pw : BucketProps → ℕ → BucketProps
set_pw prop v = record prop { scalars = record (prop.scalars) { pw = set_to v } }

-- `riak_bucketprops_set_dw`
abbrev pub set_dw : BucketProps → ℕ → BucketProps
set_dw prop v = record prop { scalars = record (prop.scalars) { dw = set_to v } }

-- `riak_bucketprops_set_rw`
abbrev pub set_rw : BucketProps → ℕ → BucketProps
set_rw prop v = record prop { scalars = record (prop.scalars) { rw_quorum = set_to v } }

-- `riak_bucketprops_set_basic_quorum`
abbrev pub set_basic_quorum : BucketProps → Bool → BucketProps
set_basic_quorum prop v = record prop {
  scalars = record (prop.scalars) { basic_quorum = set_to v };
}

-- `riak_bucketprops_set_notfound_ok`
abbrev pub set_notfound_ok : BucketProps → Bool → BucketProps
set_notfound_ok prop v = record prop { scalars = record (prop.scalars) { notfound_ok = set_to v } }

-- `riak_bucketprops_set_search`
abbrev pub set_search : BucketProps → Bool → BucketProps
set_search prop v = record prop { scalars = record (prop.scalars) { search_on = set_to v } }

-- `riak_bucketprops_set_repl`
abbrev pub set_repl : BucketProps → ℕ → BucketProps
set_repl prop v = record prop { scalars = record (prop.scalars) { repl = set_to v } }
