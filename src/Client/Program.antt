-- ===== src/Client/Program.antt =====
-- sas-client/src/main.c, with sas_client_alloc and sas_client_dealloc of client.c.
mod Tests
use sas.Base.{
  ℕ, ◌+◌, ◌≤◌, ◌<◌, ◌≡◌, refl, ap, ◌∙◌, inl, inr, Bool, true, false, List, [], ◌∷◌, Option, none,
  some, Run, ok, fault, Fault, ◌>>=◌, leb, ◌==◌, if◌then◌else◌, get_or, arith, Bool-cases, length,
}
use sas.Rxc.Connection.{connection_create}
use sas.Sockets.{
  Descriptors, close, close_if, allocate, Status, success, failure, Ended, exited, waits,
}
use sas.Client.{Chunk, Client, Peer, client_init}
use sas.Client.Connect.{
  Network, connect_hostname, decimal, hints, outcome, connected_to, connect_hostname_first,
}
use sas.Client.Drivers.{driver_ignore}
use sas.Client.Machine.{Player, Arrival, Received, returned, waiting, client_receive}

-- what getopt_long gives before -1: a long option with a flag, -h, or an option that is not known;
-- anything else makes the program abort
pub data Choice : Type 0 where
  flagged help unknown : Choice

-- the `while` on the options: the program exits, or goes on
abbrev pub parse_options : List Choice → Option Status
parse_options [] = none
parse_options (flagged ∷ rest) = parse_options rest
parse_options (help ∷ rest) = some success
parse_options (unknown ∷ rest) = some failure

-- the program exits, or goes on
abbrev unless : Option Status → Descriptors → Run Ended → Run Ended
unless none fds rest = rest
unless (some status) fds rest = ok (exited status fds)

-- sas_client_dealloc, for the descriptors; the pipeline is freed with it
abbrev pub client_dealloc : Option ℕ → Descriptors → Descriptors
client_dealloc fd fds = close_if fd fds

-- the port of the program
abbrev pub client_port : ℕ
client_port = 3456

module _ (net : Network) (peer : Peer) (junk : Chunk) (fuel : ℕ) where
  -- the player that sas_client_init leaves, with the sink of sas_drivers_ignore
  abbrev pub first_player : Player (Unit {0})
  first_player = record { running = false; pipe = connection_create (client_init junk) tt }

  -- what sas_client_receive comes to in `main`
  abbrev pub after_receive : Option ℕ → Descriptors → Received (Unit {0}) → Ended
  after_receive fd fds (waiting w) = waits
  after_receive fd fds (returned err w) =
      exited (if err == 0 then success else failure) (client_dealloc fd fds)

  -- from sas_client_connect_hostname to the end; `host` and `file` are the bytes of argv[1] and argv[2]
  unfoldable pub client_run : List ℕ → List ℕ → List Arrival → Option ℕ → Descriptors → Run Ended
  unfolding connect_hostname client_receive client_init
  client_run host file arrivals fd fds = do
    (err, fd', fds') ← connect_hostname net fd host client_port fds
    let received = client_receive peer driver_ignore fuel file arrivals first_player >>= λ r.
        ok (after_receive fd' fds' r)
    if err == 0 then received else ok (exited failure (client_dealloc fd' fds'))

  -- `main`, on the options, argc, and the two arguments. `malloc` says whether the client's malloc
  -- succeeds; sas_client_init always does.
  unfoldable pub client_main :
      List Choice → ℕ → List ℕ → List ℕ → Bool → List Arrival → Descriptors → Run Ended
  unfolding client_run
  client_main options argc host file malloc arrivals fds =
      let started = allocate malloc >>= λ fd. client_run host file arrivals fd fds in
      unless (parse_options options) fds (if leb argc 2 then ok (exited failure fds) else started)

  -- what the program comes to, by what receive gives, with the descriptors that are then open
  abbrev pub finished : Received (Unit {0}) → Descriptors → Ended
  finished (waiting w) fds = waits
  finished (returned err w) fds = exited (if err == 0 then success else failure) fds

  -- the same by the resolver's error and the socket that is connected
  abbrev pub ending : ℕ → Option ℕ → Received (Unit {0}) → Descriptors → Ended
  ending err none r fds = exited failure fds
  ending err (some fd) r fds = if err == 0 then finished r fds else exited failure fds

  after_receive_closes :
      (fd : ℕ) (fds : Descriptors) (r : Received (Unit {0}))
      → after_receive (some fd) (fd ∷ fds) r ≡ finished r fds
  after_receive_closes fd fds (waiting w) = refl
  after_receive_closes fd fds (returned err w) =
      let same : (fd == fd) ≡ true = ground arith in rw same

  -- the rest of `main` on what connect gives
  abbrev connected : List ℕ → List Arrival → ℕ × Option ℕ × Descriptors → Run Ended
  connected file arrivals (err, fd, fds) =
      let received = client_receive peer driver_ignore fuel file arrivals first_player >>= λ r.
      ok (after_receive fd fds r) in
      if err == 0 then received else ok (exited failure (client_dealloc fd fds))

  connected_ends :
      (file : List ℕ) (arrivals : List Arrival) (r : Received (Unit {0})) (err : ℕ)
      (found : Option ℕ) (fds : Descriptors)
      → client_receive peer driver_ignore fuel file arrivals first_player ≡ ok r
      → connected file arrivals (outcome net err found fds) ≡ ok (ending err found r fds)
  connected_ends file arrivals r err none fds run = elim (Bool-cases (err == 0)) [
    | inl fine ↦ rw fine
    | inr bad ↦ rw (bad, bad)
  ]
  connected_ends file arrivals r err (some fd) fds run = elim (Bool-cases (err == 0)) [
    | inl fine ↦ rw (fine, run, ◌>>=◌) (ap ok (after_receive_closes fd fds r))
    | inr bad ↦ rw (bad, bad)
  ]

  -- The program, on options that let it go on and with two arguments or more, exits with a failure
  -- where the host's name has no address or no address connects; where one connects it exits with
  -- what receive gives, a success for 0 and a failure for any error, or waits where receive waits. The
  -- sockets that are open when it exits are those that were open when it started.
  pub client_main_exits :
      (options : List Choice) (argc : ℕ) (host file : List ℕ) (arrivals : List Arrival)
      (fds : Descriptors) (r : Received (Unit {0}))
      → parse_options options ≡ none
      → 2 < argc
      → client_receive peer driver_ignore fuel file arrivals first_player ≡ ok r
      → let (err, target) = net.getaddrinfo host (decimal 10 client_port) hints in
        client_main options argc host file true arrivals fds
        ≡ ok (ending err (connected_to net target fds) r fds)
  unfolding client_main client_run
  client_main_exits options argc host file arrivals fds r none_stops enough run =
      let more : leb argc 2 ≡ false = ground arith in
      let (err, target) = net.getaddrinfo host (decimal 10 client_port) hints in
      rw none_stops (
        rw more (
          ap (λ c. c >>= connected file arrivals)
            (connect_hostname_first net none host client_port fds (omega arith))
          ∙ connected_ends file arrivals r err (connected_to net target fds) fds run))

  -- A program whose malloc fails writes through the null pointer, before it checks it.
  alloc_unchecked :
      (options : List Choice) (argc : ℕ) (host file : List ℕ) (arrivals : List Arrival)
      (fds : Descriptors)
      → parse_options options ≡ none
      → 2 < argc
      → client_main options argc host file false arrivals fds ≡ fault Fault.null_pointer
  unfolding client_main
  alloc_unchecked options argc host file arrivals fds none_stops enough =
      let more : leb argc 2 ≡ false = ground arith in rw none_stops (rw more)
