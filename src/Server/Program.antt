-- ===== src/Server/Program.antt =====
-- sas-server/src/main.c, with sas_server_init, sas_server_bind, sas_server_dealloc and the loop of
-- sas_server_run of server.c.
mod Tests
use sas.Base.{
  ℕ, ◌≡◌, ◌≢◌, refl, ap, ◌∙◌, inl, inr, Bool, true, false, not, List, [], ◌∷◌, Option, none, some,
  Run, ok, ◌>>=◌, ◌==◌, if◌then◌else◌, arith, Bool-cases,
}
use sas.Sockets.{
  Descriptors, close, close_if, allocate, Status, success, failure, Ended, exited, waits,
}
use sas.Server.Session.{Session, World, Host}
use sas.Server.Table.{Server, server_alloc}
use sas.Server.Machine.{Files}
use sas.Server.Loop.{Event, Next, stopped, running, round}

-- socket(2): a descriptor, or an error number
pub data Socket : Type 0 where
  created : ℕ → Socket
  denied : ℕ → Socket

-- what the kernel gives to the three calls that set the server up: setsockopt(2) and bind(2) an error
-- number, or `none`
pub record Kernel : Type 0 where
  pub socket : Socket
  pub setsockopt : Option ℕ
  pub bind : Option ℕ

-- what a round of the loop meets: the two readings of the clock, and what select and recvfrom give
pub record Moment : Type 0 where
  pub now : ℕ
  pub later : ℕ
  pub event : Option ℕ → Event

abbrev option_set : ℕ → Descriptors → Option ℕ → ℕ × Option ℕ × Descriptors
option_set fd fds none = (0, some fd, fd ∷ fds)
option_set fd fds (some e) = (e, none, close fd (fd ∷ fds))

abbrev socket_made : Option ℕ → Descriptors → Socket → ℕ × Option ℕ × Descriptors
socket_made option fds (denied e) = (e, none, fds)
socket_made option fds (created fd) = option_set fd fds option

-- the error number, `server->fd`, and the open descriptors
unfoldable pub server_init : Kernel → Descriptors → ℕ × Option ℕ × Descriptors
server_init kernel fds = socket_made kernel.setsockopt fds kernel.socket

abbrev pub or_zero : Option ℕ → ℕ
or_zero none = 0
or_zero (some e) = e

unfoldable pub server_bind : Kernel → ℕ
server_bind kernel = or_zero kernel.bind

-- sas_server_dealloc, for the descriptors
abbrev pub server_dealloc : Option ℕ → Descriptors → Descriptors
server_dealloc fd fds = close_if fd fds

abbrev pub status_of : ℕ → Status
status_of err = if err == 0 then success else failure

module _ (host : Host) (files : Files) (junk : Session) where
  -- the `while (1)` of sas_server_run, on the moments that it meets
  unfoldable pub server_run : List Moment → Server → Run Next
  unfolding round
  server_run [] s = ok (running s)
  server_run (t ∷ rest) s = round host files junk t.now t.later s t.event >>= λ next. elim next [
    | stopped e ↦ ok (stopped e)
    | running s' ↦ server_run rest s'
  ]

  -- what `main` makes of the end of sas_server_run
  abbrev pub after_run : Option ℕ → Descriptors → Next → Ended
  after_run fd fds (running s) = waits
  after_run fd fds (stopped err) = exited (status_of err) (server_dealloc fd fds)

  -- from sas_server_bind to the end
  abbrev bound : Kernel → List Moment → World → Option ℕ → Descriptors → Run Ended
  bound kernel moments world fd fds =
      let served = server_run moments (server_alloc world) >>= λ next. ok (after_run fd fds next) in
      if server_bind kernel == 0 then served else ok (exited failure (server_dealloc fd fds))

  abbrev ready : Kernel → List Moment → World → ℕ × Option ℕ × Descriptors → Run Ended
  ready kernel moments world (err, fd, fds) =
      let rest = bound kernel moments world fd fds in
      if err == 0 then rest else ok (exited failure (server_dealloc fd fds))

  -- `main`; `malloc` says whether the server's malloc succeeds.
  unfoldable pub server_main : ℕ → Bool → Kernel → List Moment → World → Descriptors → Run Ended
  unfolding server_run server_init server_bind server_alloc
  server_main argc malloc kernel moments world fds =
      let started = allocate malloc >>= λ fd. ready kernel moments world (server_init kernel fds) in
      if not (argc == 1) then ok (exited failure fds) else started

  -- the errors of the kernel are not 0
  pub record Documented (kernel : Kernel) : Type 0 where
    pub socket : (e : ℕ) → kernel.socket ≡ denied e → e ≢ 0
    pub setsockopt : (e : ℕ) → kernel.setsockopt ≡ some e → e ≢ 0
    pub bind : (e : ℕ) → kernel.bind ≡ some e → e ≢ 0

  abbrev pub served : Next → Descriptors → Ended
  served (running s) fds = waits
  served (stopped err) fds = exited (status_of err) fds

  -- what the program comes to, by what the three calls give
  abbrev pub server_ending : Socket → Option ℕ → Option ℕ → Next → Descriptors → Ended
  server_ending (denied e) option address next fds = exited failure fds
  server_ending (created fd) (some e) address next fds = exited failure fds
  server_ending (created fd) none (some e) next fds = exited failure fds
  server_ending (created fd) none none next fds = served next fds

  after_run_closes :
      (fd : ℕ) (fds : Descriptors) (next : Next)
      → after_run (some fd) (fd ∷ fds) next ≡ served next fds
  after_run_closes fd fds (running s) = refl
  after_run_closes fd fds (stopped err) = let same : (fd == fd) ≡ true = ground arith in rw same

  module _ (moments : List Moment) (world : World) (fds : Descriptors) (next : Next)
      (run : server_run moments (server_alloc world) ≡ ok next) where
    ready_ends :
        (made : Socket) (option address : Option ℕ)
        → Documented (record { socket = made; setsockopt = option; bind = address })
        → ready
            (record { socket = made; setsockopt = option; bind = address })
            moments
            world
            (socket_made option fds made)
          ≡ ok (server_ending made option address next fds)
    unfolding server_bind
    ready_ends (denied e) option address d =
        let bad : (e == 0) ≡ false = ground (arith, d.socket e refl) in rw bad
    ready_ends (created fd) (some e) address d =
        let bad : (e == 0) ≡ false = ground (arith, d.setsockopt e refl) in
        let same : (fd == fd) ≡ true = ground arith in rw (bad, same)
    ready_ends (created fd) none (some e) d =
        let bad : (e == 0) ≡ false = ground (arith, d.bind e refl) in
        let same : (fd == fd) ≡ true = ground arith in rw (bad, same)
    ready_ends (created fd) none none d = rw (run, ◌>>=◌) (ap ok (after_run_closes fd fds next))

    -- The server without arguments, on a kernel whose error numbers are not 0, exits with a failure where
    -- its socket is not created, not set up or not bound; else it ends as the loop ends: with a failure
    -- for its error number, unless that is 0, or not at all. The sockets that are open when it exits are
    -- those that were open when it started.
    pub server_main_exits :
        (kernel : Kernel)
        → Documented kernel
        → server_main 1 true kernel moments world fds
          ≡ ok (server_ending kernel.socket kernel.setsockopt kernel.bind next fds)
    unfolding server_main server_init
    server_main_exits kernel d = ready_ends kernel.socket kernel.setsockopt kernel.bind d
