-- ===== src/Connection/Lifetime.antt =====
-- The names, the sockets, the lists of addresses and the blocks of a connection, from riak_connection_new to
-- riak_connection_free.
use riak_c_client.Base.{
  ℕ, ◌+◌, ◌^◌, ◌<◌, ◌≤◌, ◌≡◌, ◌≢◌, refl, Bool, true, false, Option, none, some, List, ◌∷◌, ◌++◌,
  length, drop, replicate, arith, inl, inr, ◌⊎◌, ◌==◌, length-replicate, if◌then◌else◌,
}
use riak_c_client.Error.{RiakError, eriak_ok, eriak_out_of_memory}
use riak_c_client.Memory.{Heap, Run, and_then, Cmd, Config, ◌>>=◌, fault}
use riak_c_client.Memory.Returns
use riak_c_client.Memory.Returns.{
  Returns, returns, Moved, Allocated, config_clean_allocate-Returns, free_if-Returns,
}
use riak_c_client.Memory.Rich.{IsRich, Grants, config_clean_allocate-Grants}
use riak_c_client.Utils.{c_string}
use riak_c_client.Utils.Copy.{strlcpy-fits, strlcpy-past}
use riak_c_client.Connection.{Connection}
use riak_c_client.Connection.Open.{
  System, Net, connection_new, connection_free, with_address, resolver_or, sizeof_connection,
  resolve_address, just_open_a_socket, after_connect, set_target, close, give_back,
}

-- A name with its NUL, in an array of 256 zeroes.
abbrev pub stored : List ℕ → List ℕ
stored s = s ++ (0 ∷ drop (length s + 1) (replicate 256 0))

-- As many sockets were closed as opened, and as many lists of addresses given back as given out.
pub record IsEven (before after : Net) : Type 0 where
  pub sockets : after.opened + before.closed ≡ before.opened + after.closed
  pub addresses : after.resolved + before.released ≡ before.resolved + after.released

abbrev left_behind : RiakError × Connection × Net → Net
left_behind (err, cxn, net) =
    give_back cxn.has_addrinfo (if cxn.fd == 0 then net else close cxn.fd net)

with_address-IsEven :
    (sys : System) (resolver : List ℕ → List ℕ → Bool) (hostname portnum : List ℕ) (cfg : Config)
    (host port : List ℕ) (net : Net)
    → sys.socket ≢ 0
    → IsEven net (
        left_behind (
          with_address sys resolver hostname portnum
            (record { config = cfg; hostname = host; portnum = port; has_addrinfo = false; fd = 0 })
            net))
unfolding with_address resolve_address just_open_a_socket after_connect
with_address-IsEven sys resolver hostname portnum cfg host port net some_fd = ground arith

-- A block that is granted, and a fault with it.
granted_fault :
    {A : Type 0} {run : Run Bool} (next : Bool → Cmd A)
    → Grants run
    → ((g : Heap) → next true g ≡ fault)
    → and_then run next ≡ fault
granted_fault next (returns e) later = rw e (later _)

-- A connection with these names; after success it has a list of addresses and the socket that was opened.
pub record IsNamed (sys : System) (cfg : Config) (host port : List ℕ) (err : RiakError)
    (cxn : Connection) : Type 0 where
  pub config : cxn.config ≡ cfg
  pub hostname : cxn.hostname ≡ stored host
  pub portnum : cxn.portnum ≡ stored port
  pub addresses : err ≡ eriak_ok → cxn.has_addrinfo ≡ true
  pub socket : err ≡ eriak_ok → (cxn.fd ≡ sys.socket) × (cxn.fd < 2 ^ 31)

with_address-IsNamed :
    (sys : System) (resolver : List ℕ → List ℕ → Bool) (hostname portnum : List ℕ) (cfg : Config)
    (host port : List ℕ) (net : Net)
    → let made =
        with_address sys resolver hostname portnum
          (record {
            config = cfg;
            hostname = stored host;
            portnum = stored port;
            has_addrinfo = false;
            fd = 0;
          })
          net in
      IsNamed sys cfg host port made.0 made.1
unfolding with_address resolve_address just_open_a_socket after_connect
with_address-IsNamed sys resolver hostname portnum cfg host port net = ground arith

module _ (sys : System) (resolver : Option (List ℕ → List ℕ → Bool)) (hostname portnum : List ℕ)
    {host port : List ℕ} (cfg : Config) (net : Net) (h : Heap)
    (host_found : c_string hostname ≡ some host) (port_found : c_string portnum ≡ some port) where
  -- What riak_connection_new does with its block.
  with_block :
      {Post : RiakError × Option Connection × Net → Heap → Type 0}
      → length host ≤ 255
      → length port ≤ 255
      → ((g : Heap) → Moved h 0 0 g → Post (eriak_out_of_memory, none, net) g)
      → ((g : Heap)
          → Moved h 1 0 g
          → Post
              (set_target (
                with_address sys
                  (resolver_or sys resolver)
                  hostname
                  portnum
                  (record {
                    config = cfg;
                    hostname = stored host;
                    portnum = stored port;
                    has_addrinfo = false;
                    fd = 0;
                  })
                  net))
              g)
      → Returns Post (connection_new sys cfg hostname portnum resolver net h)
  unfolding connection_new
  with_block short_host short_port no_memory made =
      Returns.bind (config_clean_allocate-Returns (some cfg) sizeof_connection h) (elim [
        | false ↦ λ g m. returns (no_memory g m)
        | true ↦ λ g m.
            rw
              (
                strlcpy-fits (replicate 256 0) hostname 255 host_found
                    (length-replicate {A = ℕ} 256 0) short_host,
                strlcpy-fits (replicate 256 0) portnum 255 port_found
                    (length-replicate {A = ℕ} 256 0) short_port,
              )
              (returns (made g m))
      ])

  -- For a host and a port of at most 255 bytes each: riak_connection_new returns either ERIAK_OUT_OF_MEMORY with no
  -- connection, or a connection with the host and the port, each in its array with its NUL; after ERIAK_OK that
  -- connection has a list of addresses and the socket that socket(2) opened, which is not negative.
  pub connection_new-IsNamed :
      length host ≤ 255
      → length port ≤ 255
      → Returns
          (λ r g.
            ((r.0 ≡ eriak_out_of_memory) × (r.1 ≡ none))
            ⊎ ((cxn : Connection) × (r.1 ≡ some cxn) × IsNamed sys cfg host port r.0 cxn))
          (connection_new sys cfg hostname portnum resolver net h)
  connection_new-IsNamed short_host short_port =
      with_block short_host short_port (λ g m. inl (refl, refl))
        λ g m. inr (
          _,
          refl,
          with_address-IsNamed sys (resolver_or sys resolver) hostname portnum cfg host port net,
        )

  -- For a host and a port of at most 255 bytes each, and a system that does not open a socket with the number 0:
  -- after riak_connection_new, whatever it returns, riak_connection_free of what it has made closes as many sockets
  -- as were opened, gives back as many lists of addresses as were given out, and as many blocks as were taken.
  pub connection_new-free :
      length host ≤ 255
      → length port ≤ 255
      → sys.socket ≢ 0
      → Returns
          (λ after g. IsEven net after × (g.mallocs + h.frees ≡ h.mallocs + g.frees))
          ((do
            (err, cxn, net') ← connection_new sys cfg hostname portnum resolver net
            connection_free cxn net')
            h)
  unfolding connection_free
  connection_new-free short_host short_port some_fd =
      Returns.bind
        (with_block
          {Post = λ r g.
            Returns (λ after k. IsEven net after × (k.mallocs + h.frees ≡ h.mallocs + k.frees))
              (connection_free r.1 r.2 g)}
          short_host short_port (λ g m. returns (omega arith, omega arith))
          λ g m. Returns.bind (free_if-Returns true g) λ _ k n. returns (
            with_address-IsEven sys (resolver_or sys resolver) hostname portnum cfg (stored host)
                (stored port) net some_fd,
            omega arith,
          ))
        λ r g freed. freed

  -- A longer host, with an allocator that always has memory: the copy writes behind the array of the host.
  pub connection_new-past :
      IsRich cfg
      → 255 < length host
      → connection_new sys cfg hostname portnum resolver net h ≡ fault
  unfolding connection_new
  connection_new-past rich long =
      granted_fault _ (config_clean_allocate-Grants rich sizeof_connection h) λ g.
        rw
          (strlcpy-past (replicate 256 0) hostname 255 host_found (length-replicate {A = ℕ} 256 0)
            long)
          refl
