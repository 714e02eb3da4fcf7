-- ===== src/Connection.antt =====
-- The connection record of src/internal/riak_connection-internal.h and its accessors of
-- src/riak_connection.c.
pub mod Open
pub mod Lifetime
mod Tests
use riak_c_client.Base.{ℕ, Bool, List}
use riak_c_client.Memory.{Config}

-- `_riak_connection`; of `addrinfo` only whether it is set.
pub record Connection : Type 0 where
  pub config : Config
  pub hostname : List ℕ
  pub portnum : List ℕ
  pub has_addrinfo : Bool
  pub fd : ℕ

-- `riak_connection_get_config`
abbrev pub get_config : Connection → Config
get_config cxn = cxn.config

-- `riak_connection_get_fd`
abbrev pub get_fd : Connection → ℕ
get_fd cxn = cxn.fd
