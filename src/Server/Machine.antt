-- ===== src/Server/Machine.antt =====
-- sas_server_session_state_machine of sas-server/src/session.c, which handles a packet from a client.
pub mod Established
pub mod Forget
pub mod Handshake
mod Tests
pub mod Window
use sas.Base.{
  ℕ, ◌+◌, ◌-◌, ◌%◌, Bool, true, false, not, List, [], ◌∷◌, Option, none, some, Run, ok, fault,
  Fault, ◌>>=◌, ltb, ◌==◌, ◌||◌, if◌then◌else◌, get_or, drop,
}
use sas.Base.Words.{u64_mod, add32}
use sas.Transport.{State, Header, flag_isset, flag_rst, flag_syn, cfg_size}
use sas.Timeout.{Ptr}
use sas.Server.Session.{
  File, Wav, Session, World, Out, Host, advance, session_reset, session_error, session_syn_ack,
}
use sas.Server.Wav.{formats_wav}
use sas.Server.Sink.{start_stream, session_pull}
use sas.Server.Table.{Server, load, update, store_at, session_delete}

-- what open(2) gives: a file descriptor and the file behind it, or an error number
pub data Opened : Type 0 where
  opened : ℕ → File → Opened
  refused : ℕ → Opened

-- the file system, and what stands on the stack where a WAVE header is read
pub record Files : Type 0 where
  pub open_file : List ℕ → Opened
  pub junk : List ℕ

abbrev pub einval : ℕ
einval = 22

-- strndup(3): at most `n` bytes, up to the first 0. A read past the end of the buffer faults.
unfoldable pub strndup : List ℕ → ℕ → Run (List ℕ)
strndup [] n = if n == 0 then ok [] else fault Fault.out_of_bounds
strndup (b ∷ bs) n =
    let rest = strndup bs (n - 1) >>= λ r. ok (b ∷ r) in if n == 0 || b == 0 then ok [] else rest

-- the send window and the acknowledgement that a packet leaves
unfoldable pub accept : Header → Session → Session
accept h session = record session { send_window = h.window; ack = add32 h.seq (advance h.length) }

-- the session and the world, out of the server's memory and back
abbrev pub out_at : Server → Session → Out
out_at s session = record { session = session; world = s.world }

abbrev pub commit : Server → Ptr → Out → Server
commit s p o = record s { store = update s.store p (some o.session); world = o.world }

-- the session with the file that it streams, and the parameters of its format
abbrev pub streaming : Wav → Out → Out
streaming wav o = record o {
  session = record (o.session) {
    sample_rate = wav.sample_rate;
    sample_size = wav.sample_size;
    channels = wav.channels;
  };
}

abbrev pub with_state : State → Out → Out
with_state state o = record o { session = record (o.session) { state = state } }

abbrev pub with_fd : Option ℕ → Out → Out
with_fd fd o = record o { session = record (o.session) { fd = fd } }

abbrev pub with_errno : ℕ → Out → Out
with_errno e o = record o { world = record (o.world) { errno = e } }

module _ (host : Host) (files : Files) where
  -- an error packet, after which the session is forgotten
  unfoldable pub refuse : Server → Ptr → ℕ → Out → Run Server
  refuse s p code o = session_delete (commit s p (session_error host code o).1) p

  -- SYN-ACK, and the start of the pipeline, which does not fail
  unfoldable pub establish : Server → Ptr → Wav → Out → Run Server
  establish s p wav o =
      start_stream host wav (with_state State.sack_sent (session_syn_ack host (streaming wav o)).1)
      >>= λ r. ok (commit s p r)

  -- the file named in a SYN, once it is open or is not
  unfoldable pub after_open : Server → Ptr → Out → Opened → Run Server
  after_open s p o (refused e) = refuse s p e (with_fd none (with_errno e o))
  after_open s p o (opened fd file) =
      let (e, source) = formats_wav host.endian files.junk fd file o.world.errno in
      let o' = with_errno e (with_fd (some fd) o) in
      elim source [ none ↦ refuse s p e o' | some wav ↦ establish s p wav o' ]

  -- the case SAS_TRANSPORT_STATE_INITIAL; `buffer` is what stands behind the header
  unfoldable pub initial_state : Server → Ptr → Out → Header → List ℕ → Run Server
  initial_state s p o h buffer =
      let codec = get_or buffer 0 0 in
      let handled : Run Server = do
        name ← strndup (drop cfg_size buffer) ((h.length + u64_mod - cfg_size) % u64_mod)
        let looked_up = after_open s p o (files.open_file name)
        if not (codec == 0) then refuse s p einval o else looked_up
      in if not (flag_isset h.flags flag_syn)
        then ok (commit s p (session_reset host false o).1)
        else handled

  -- the `switch`
  unfoldable pub dispatch : State → Server → Ptr → Out → Header → List ℕ → Run Server
  dispatch State.initial s p o h buffer = initial_state s p o h buffer
  dispatch State.sack_sent s p o h buffer =
      session_pull host (with_state State.establsh o) >>= λ r. ok (commit s p r)
  dispatch State.establsh s p o h buffer = session_pull host o >>= λ r. ok (commit s p r)
  dispatch State.syn_rcvd s p o h buffer = ok s
  dispatch State.syn_sent s p o h buffer = ok s
  dispatch State.finished s p o h buffer = ok s

  unfoldable pub state_machine : Server → Ptr → Header → List ℕ → Run Server
  state_machine s p h buffer = do
    session ← load s p
    let session' = accept h session
    let s' = store_at s p session'
    let handled = dispatch session.state s' p (out_at s' session') h buffer
    let accepted = if flag_isset h.flags flag_rst then session_delete s' p else handled
    if ltb h.seq session.ack then ok s else accepted
