-- ===== src/Connection/Open.antt =====
-- riak_connection_new and riak_connection_free of src/riak_connection.c, with the functions of
-- src/riak_network.c that find an address and open a socket, in a build that does not ask for non-blocking sockets.
--
-- A socket is the bit pattern of its int. What is logged on the way is left out.
use riak_c_client.Base.{
  ℕ, ◌+◌, ◌-◌, ◌^◌, Bool, true, false, Option, none, some, List, ltb, ◌==◌, ◌||◌, replicate,
  if◌then◌else◌,
}
use riak_c_client.Error.{
  RiakError, eriak_ok, eriak_out_of_memory, eriak_dns_resolution, eriak_connect, failed,
}
use riak_c_client.Memory.{Cmd, pure, value, ◌>>=◌, ◌>>◌, Config, config_clean_allocate, free_if}
use riak_c_client.Utils.{strlcpy}
use riak_c_client.Connection.{Connection}

-- What connect(2) returns, and errno after it.
pub record ConnectAnswer : Type 0 where
  pub err : ℕ
  pub errno : ℕ

-- What the functions of the system answer to one connection. A resolver that resolves the host and the port
-- gives a list of addresses, and leaves the pointer to it NULL else, as getaddrinfo does.
pub record System : Type 0 where
  pub getaddrinfo : List ℕ → List ℕ → Bool
  pub socket : ℕ
  pub connect : ℕ → ConnectAnswer

-- How many lists of addresses were given out and back, and how many sockets were opened and closed.
pub record Net : Type 0 where
  pub resolved : ℕ
  pub released : ℕ
  pub opened : ℕ
  pub closed : ℕ

abbrev pub minus_one : ℕ
minus_one = 2 ^ 32 - 1

abbrev pub is_negative : ℕ → Bool
is_negative n = if ltb n (2 ^ 31) then false else true

-- close(2), which has nothing to close at a negative number.
abbrev pub close : ℕ → Net → Net
close fd net = if is_negative fd then net else record net { closed = net.closed + 1 }

-- The numbers of errno on Linux.
abbrev pub eagain : ℕ
eagain = 11

abbrev pub einprogress : ℕ
einprogress = 115

abbrev pub riak_host_max_len : ℕ
riak_host_max_len = 256

abbrev pub sizeof_connection : ℕ
sizeof_connection = 536

-- `riak_resolve_address` with the resolver given: its result, and whether the list is there.
unfoldable pub resolve_address :
    (List ℕ → List ℕ → Bool) → List ℕ → List ℕ → Net → RiakError × Bool × Net
resolve_address resolver host portnum net =
    if resolver host portnum
    then (eriak_ok, true, record net { resolved = net.resolved + 1 })
    else (eriak_dns_resolution, false, net)

-- The socket after connect(2): it is closed after an error that is not one of progress.
unfoldable pub after_connect : System → ℕ → Net → ℕ × Net
after_connect sys sock net =
    let answer = sys.connect sock in
    if answer.err == 0 || answer.errno == einprogress || answer.errno == eagain
    then (sock, net)
    else (minus_one, close sock net)

-- `riak_just_open_a_socket`, of a list of addresses that is there.
unfoldable pub just_open_a_socket : System → Net → ℕ × Net
just_open_a_socket sys net =
    if is_negative sys.socket
    then (minus_one, net)
    else after_connect sys sys.socket (record net { opened = net.opened + 1 })

-- `riak_connection_new` once the connection has its block and its names.
unfoldable pub with_address :
    System
    → (List ℕ → List ℕ → Bool)
    → List ℕ
    → List ℕ
    → Connection
    → Net
    → RiakError × Connection × Net
with_address sys resolver hostname portnum cxn net =
    let (err, has, net') = resolve_address resolver hostname portnum net in
    let (fd, net'') = just_open_a_socket sys net' in
    if failed err then (eriak_dns_resolution, record cxn { has_addrinfo = has }, net') else (
      if is_negative fd then eriak_connect else eriak_ok,
      record cxn { has_addrinfo = has; fd = fd },
      net'',
    )

-- The resolver, or getaddrinfo for NULL.
abbrev pub resolver_or : System → Option (List ℕ → List ℕ → Bool) → List ℕ → List ℕ → Bool
resolver_or sys none = sys.getaddrinfo
resolver_or sys (some resolver) = resolver

-- `*cxn_target` points to the connection.
abbrev pub set_target : RiakError × Connection × Net → RiakError × Option Connection × Net
set_target (err, cxn, net) = (err, some cxn, net)

-- `riak_connection_new`: the connection stays with the caller after an error in resolving or in connecting.
unfoldable pub connection_new :
    System
    → Config
    → List ℕ
    → List ℕ
    → Option (List ℕ → List ℕ → Bool)
    → Net
    → Cmd (RiakError × Option Connection × Net)
connection_new sys cfg hostname portnum resolver net = do
  got ← config_clean_allocate (some cfg) sizeof_connection
  elim got [
    | false ↦ pure (eriak_out_of_memory, none, net)
    | true ↦ do
      (host, _) ← value (strlcpy (replicate riak_host_max_len 0) hostname riak_host_max_len)
      (port, _) ← value (strlcpy (replicate riak_host_max_len 0) portnum riak_host_max_len)
      pure (
          set_target (
            with_address sys (resolver_or sys resolver) hostname portnum
              (record {
                config = cfg;
                hostname = host;
                portnum = port;
                has_addrinfo = false;
                fd = 0;
              })
              net))
  ]

-- freeaddrinfo(3), of a list that is there.
abbrev pub give_back : Bool → Net → Net
give_back has net = if has then record net { released = net.released + 1 } else net

-- `riak_connection_free`
unfoldable pub connection_free : Option Connection → Net → Cmd Net
connection_free none net = pure net
connection_free (some cxn) net = do
  free_if true
  pure (give_back cxn.has_addrinfo (if cxn.fd == 0 then net else close cxn.fd net))
