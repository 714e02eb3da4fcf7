-- ===== src/Error/Names.antt =====
-- The answers of riak_strerror of src/riak_error.c.
use Prim.Native.String.{String}
use riak_c_client.Base.{ℕ, ◌+◌, ◌<◌, ◌≡◌, some, arith, get_elem?, length, get_elem?-some}
use riak_c_client.Error.{RiakError, error_code, errmsgs, eriak_last_errornum, strerror}

-- The code of every enumerator lies below the sentinel.
error_code-lt : (e : RiakError) → error_code e < eriak_last_errornum
unfolding error_code
error_code-lt e = ground arith

-- riak_strerror never reads outside its table: at the number of an enumerator it gives the table's
-- entry, and at every number from the sentinel on the text for an unknown error.
pub strerror-total :
    (e : RiakError) (n : ℕ)
    → ((s : String) × (strerror (error_code e) ≡ some s)
        × (get_elem? errmsgs (error_code e) ≡ some s))
      × (strerror (eriak_last_errornum + n) ≡ some "<Unknown Error>")
unfolding strerror
strerror-total e n =
    let (s, found) = get_elem?-some errmsgs (error_code e) (within (error_code-lt e)) in
    ((s, ground (arith, found, error_code-lt e), found), ground arith)
  where
    within : error_code e < eriak_last_errornum → error_code e < length errmsgs
    within h = omega arith
