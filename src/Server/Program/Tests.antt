-- ===== src/Server/Program/Tests.antt =====
-- Tests of the server's program, and its theorem where select fails in the first round.
use sas.Base.{◌≡◌, refl, true, [], ◌∷◌, none, some, ok}
use sas.Sockets.{failure, exited}
use sas.Timeout.{timeout_pop}
use sas.Server.Table.{server_alloc}
use sas.Server.Loop.{select_failed, stopped, round, expire, pop_timeout, select_limit, handle}
use sas.Server.Program.{
  Kernel, Moment, created, Documented, server_init, server_run, server_main, server_main_exits,
}
use sas.Server.Samples.{host, files, junk, no_world}

abbrev kernel : Kernel
kernel = record { socket = created 3; setsockopt = none; bind = none }

abbrev interrupted : Moment
interrupted = record { now = 5; later = 6; event = λ limit. select_failed 4 }

-- a socket that cannot be set up is closed
option_fails : server_init (record kernel { setsockopt = some 92 }) (0 ∷ []) ≡ (92, none, 0 ∷ [])
unfolding server_init
option_fails = refl

interrupted_stops :
    server_run host files junk (interrupted ∷ []) (server_alloc no_world) ≡ ok (stopped 4)
unfolding server_run round expire pop_timeout select_limit handle server_alloc timeout_pop
interrupted_stops = refl

kernel-Documented : Documented host files junk kernel
kernel-Documented = record {
  socket = λ e h. absurd cc;
  setsockopt = λ e h. absurd cc;
  bind = λ e h. absurd cc;
}

server_main_exits_example :
    server_main host files junk 1 true kernel (interrupted ∷ []) no_world (0 ∷ [])
    ≡ ok (exited failure (0 ∷ []))
server_main_exits_example =
    server_main_exits host files junk (interrupted ∷ []) no_world (0 ∷ []) (stopped 4)
      interrupted_stops kernel kernel-Documented
