-- ===== src/Client/Connect/Tests.antt =====
-- Tests of the connection, and its theorem on a host of three addresses.
use sas.Base.{
  ℕ, ◌+◌, ◌≡◌, refl, [], ◌∷◌, none, some, ok, fault, Fault, ◌==◌, if◌then◌else◌, arith, length,
}
use sas.Client.Connect.{
  Address, Network, decimal, port_string, connect_loop, try_address, connect_hostname,
  connect_hostname_first,
}

abbrev address : ℕ → Address
address n = record { family = n; socktype = 2; protocol = 17; addr = n ∷ [] }

-- the first has no socket, the second does not connect, and the third does
abbrev network : Network
network = record {
  getaddrinfo = λ host port asked. (0, address 1 ∷ address 2 ∷ address 3 ∷ []);
  socket = λ fds a. if a.family == 1 then none else some (3 + length fds);
  connect = λ fd a. a.family == 3;
}

port_digits : port_string 3456 ≡ ok (51 ∷ 52 ∷ 53 ∷ 54 ∷ [])
unfolding decimal
port_digits = refl

-- a port of six digits does not fit its string
port_overflows : port_string 100_000 ≡ fault Fault.out_of_bounds
unfolding decimal
port_overflows = refl

third_connects :
    connect_loop network (address 1 ∷ address 2 ∷ address 3 ∷ []) (0 ∷ []) ≡ (some 4, 4 ∷ 0 ∷ [])
unfolding connect_loop try_address
third_connects = refl

connect_hostname_first_example :
    connect_hostname network (some 7) (104 ∷ []) 3456 (7 ∷ 0 ∷ []) ≡ ok (0, some 4, 4 ∷ 0 ∷ [])
connect_hostname_first_example =
    connect_hostname_first network (some 7) (104 ∷ []) 3456 (7 ∷ 0 ∷ []) (omega arith)
