-- ===== src/Server/Sink.antt =====
-- sas-server/src/sink.c: the sink that sends the chunks of a stream to the client, and a request on
-- the pipeline of a session.
pub mod Delivery
use sas.Base.{ℕ, List, Run, ok, some, ◌>>=◌, or_fault, Fault, true}
use sas.Rxc.Connection.{Pipe, Inlet, SinkLogic, connection_create}
use sas.Rxc.Pipeline.{worker_loop, inlet_pull, inlet_of, pipeline_start}
use sas.Server.Session.{
  Wav, Stream, Session, World, Out, Host, session_send_chunk, session_reset, session_error,
}
use sas.Server.Wav.{WavPipe, wav_logic}

module _ (host : Host) where
  -- The error codes of the sends are not looked at. on_connect stores the logic in the session,
  -- which is `stream` here.
  unfoldable pub session_sink : SinkLogic (List ℕ) WavPipe
  session_sink = record {
    on_connect = λ inlet p. ok p;
    on_push = λ inlet chunk p. ok (record p { sink = (session_send_chunk host chunk p.sink).1 });
    on_upstream_finish = λ p. ok (record p { sink = (session_reset host true p.sink).1 });
    on_upstream_failure =
        λ p. ok (record p { sink = (session_error host p.sink.world.errno p.sink).1 });
  }

  -- the running pipeline of a session
  unfoldable pub pipe_of : Stream → Out → WavPipe
  pipe_of s o = record {
    requested = s.requested;
    queue = s.queue;
    wip = s.wip;
    parent = s.parent;
    source = s.wav;
    sink = o;
  }

  unfoldable pub stream_of : WavPipe → Stream
  stream_of p = record {
    requested = p.requested;
    queue = p.queue;
    wip = p.wip;
    parent = p.parent;
    wav = p.source;
  }

  -- the session that a pipeline leaves
  unfoldable pub out_of : WavPipe → Out
  unfolding stream_of
  out_of p = record {
    session = record (p.sink.session) { stream = some (stream_of p) };
    world = p.sink.world;
  }

  -- `rxc_pipeline_start(session->pipeline, rxc_scheduler_trampoline())`, which returns RXC_EOK
  unfoldable pub start_stream : Wav → Out → Run Out
  unfolding out_of
  start_stream wav o = pipeline_start wav_logic session_sink 2 wav o >>= λ p. ok (out_of p)

  -- `rxc_inlet_pull(session->sink_logic->in, 1)`
  unfoldable pub pull_stream : Stream → Out → Run Out
  unfolding out_of pipe_of
  pull_stream s o =
      inlet_pull (worker_loop wav_logic session_sink 2) 1 (pipe_of s o) >>= λ p. ok (out_of p)

  -- The same where the session may have no pipeline yet.
  unfoldable pub session_pull : Out → Run Out
  session_pull o = or_fault (o.session.stream) Fault.null_pointer >>= λ s. pull_stream s o
