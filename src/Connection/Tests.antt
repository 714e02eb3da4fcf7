-- ===== src/Connection/Tests.antt =====
-- Connections with concrete answers of the system.
use riak_c_client.Base.{
  ℕ, ◌+◌, ◌≡◌, refl, true, none, some, [], ◌∷◌, ◌⊎◌, replicate, ◌++◌, arith, List,
}
use riak_c_client.Error.{eriak_out_of_memory}
use riak_c_client.Memory.{fault, ◌>>=◌}
use riak_c_client.Memory.Returns.{Returns}
use riak_c_client.Utils.{c_string}
use riak_c_client.Connection.{Connection}
use riak_c_client.Connection.Open.{System, Net, connection_new, connection_free}
use riak_c_client.Connection.Lifetime.{
  IsEven, IsNamed, connection_new-IsNamed, connection_new-free, connection_new-past,
}
use riak_c_client.Wire.Tests.{rich, rich-IsRich, start}

-- The host resolves, socket(2) opens 3, and connect(2) fails with ECONNREFUSED.
abbrev refusing : System
refusing = record {
  getaddrinfo = λ host port. true;
  socket = 3;
  connect = λ sock. record { err = 1; errno = 111 };
}

abbrev idle : Net
idle = record { resolved = 0; released = 0; opened = 0; closed = 0 }

abbrev here : List ℕ
here = b'h' ∷ b'o' ∷ b's' ∷ b't' ∷ 0 ∷ []

abbrev service : List ℕ
service = b'8' ∷ b'0' ∷ 0 ∷ []

found : c_string here ≡ some (b'h' ∷ b'o' ∷ b's' ∷ b't' ∷ [])
unfolding c_string
found = refl

service_found : c_string service ≡ some (b'8' ∷ b'0' ∷ [])
unfolding c_string
service_found = refl

connection_new-IsNamed_example :
    Returns
      (λ r g.
        ((r.0 ≡ eriak_out_of_memory) × (r.1 ≡ none))
        ⊎ ((cxn : Connection) × (r.1 ≡ some cxn)
            × IsNamed refusing rich (b'h' ∷ b'o' ∷ b's' ∷ b't' ∷ []) (b'8' ∷ b'0' ∷ []) r.0 cxn))
      (connection_new refusing rich here service none idle start)
connection_new-IsNamed_example =
    connection_new-IsNamed refusing none here service rich idle start found service_found
      (omega arith) (omega arith)

connection_new-free_example :
    Returns
      (λ after g. IsEven idle after × (g.mallocs + start.frees ≡ start.mallocs + g.frees))
      ((do
        (err, cxn, net') ← connection_new refusing rich here service none idle
        connection_free cxn net')
        start)
connection_new-free_example =
    connection_new-free refusing none here service rich idle start found service_found (omega arith)
      (omega arith) (omega arith)

-- A host of 256 bytes.
abbrev long : List ℕ
long = replicate 256 b'a' ++ (0 ∷ [])

long_found : c_string long ≡ some (replicate 256 b'a')
unfolding c_string
long_found = refl

connection_new-past_example : connection_new refusing rich long service none idle start ≡ fault
connection_new-past_example =
    connection_new-past refusing none long service rich idle start long_found service_found
      rich-IsRich (omega arith)
