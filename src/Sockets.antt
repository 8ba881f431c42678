-- ===== src/Sockets.antt =====
-- The descriptors of the sockets that a process has open, as socket(2) and close(2) change them, which
-- sas-client/src/client.c and sas-server/src/server.c call; and how the two programs exit.
use sas.Base.{
  ℕ, Bool, List, [], ◌∷◌, Option, none, some, Run, ok, fault, Fault, ◌==◌, if◌then◌else◌,
}

abbrev pub Descriptors : Type 0
Descriptors = List ℕ

-- close(2); a descriptor that is not open is left
abbrev pub close : ℕ → Descriptors → Descriptors
close fd [] = []
close fd (d ∷ fds) = let rest = close fd fds in if fd == d then fds else d ∷ rest

-- `if (fd >= 0) close(fd);`, where `none` is -1
abbrev pub close_if : Option ℕ → Descriptors → Descriptors
close_if none fds = fds
close_if (some fd) fds = close fd fds

-- malloc, and the `fd = -1` that both programs write to the result before they check it
abbrev pub allocate : Bool → Run (Option ℕ)
allocate malloc = if malloc then ok none else fault Fault.null_pointer

-- EXIT_SUCCESS and EXIT_FAILURE
pub data Status : Type 0 where
  success failure : Status

-- A program that exits, with the sockets that it then has open, or one that waits.
pub data Ended : Type 0 where
  exited : Status → Descriptors → Ended
  waits : Ended
