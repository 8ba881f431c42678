-- ===== src/Client/Drivers.antt =====
-- The sinks of the client: sas-client/src/drivers/ignore.c and oss.c.
use sas.Base.{
  ℕ, Bool, true, false, not, List, [], ◌∷◌, Option, none, some, Run, ok, ◌==◌, ◌&&◌, if◌then◌else◌,
}
use sas.Rxc.Connection.{Pipe, Inlet, SinkLogic}
use sas.Client.{Chunk}

-- `struct oss_sink_logic`, with what the calls on the audio device give: the results of the next
-- writes (`none` for -1, which also stands past the end), and the descriptors closed, latest first.
-- `fd` is `none` for -1.
pub record Oss : Type 0 where
  pub fd : Option ℕ
  pub finished : Bool
  pub writes : List (Option ℕ)
  pub played : List Chunk
  pub closed : List ℕ

-- open(2) of the audio device, and whether an ioctl(2) on it gives 0
pub record Audio : Type 0 where
  pub open_device : Option ℕ
  pub ioctl : ℕ → ℕ → Bool

-- the requests, SNDCTL_DSP_*
abbrev pub dsp_reset : ℕ
dsp_reset = 0

abbrev pub dsp_samplesize : ℕ
dsp_samplesize = 1

abbrev pub dsp_channels : ℕ
dsp_channels = 2

abbrev pub dsp_speed : ℕ
dsp_speed = 3

abbrev pub dsp_sync : ℕ
dsp_sync = 4

-- the five requests, which stop at the first that fails
unfoldable pub device_ready : Audio → Chunk → Bool
device_ready audio chunk =
    audio.ioctl dsp_reset 0
    && audio.ioctl dsp_samplesize chunk.sample_size
    && audio.ioctl dsp_channels chunk.channels
    && audio.ioctl dsp_speed chunk.sample_rate
    && audio.ioctl dsp_sync 0

-- open_audio_fd: the descriptor if every request gives 0; else the device is closed again
unfoldable pub open_audio_fd : Audio → Chunk → Oss → Oss
unfolding device_ready
open_audio_fd audio chunk oss = elim (audio.open_device) [
  | none ↦ record oss { fd = none }
  | some fd ↦
      if device_ready audio chunk
      then record oss { fd = some fd }
      else record oss { fd = none; closed = fd ∷ oss.closed }
]

-- `self->fd <= 0`
unfoldable pub is_unset : Option ℕ → Bool
is_unset none = true
is_unset (some fd) = fd == 0

-- the result of the next write, and the device after it
unfoldable pub write_chunk : Chunk → Oss → Option ℕ × Oss
write_chunk chunk oss = elim (oss.writes) [
  | [] ↦ (none, record oss { played = chunk ∷ oss.played })
  | r ∷ rest ↦ (r, record oss { writes = rest; played = chunk ∷ oss.played })
]

-- `n <= 0`
unfoldable pub write_failed : Option ℕ → Bool
write_failed none = true
write_failed (some n) = n == 0

-- `self->finished = 1; close(self->fd)`
unfoldable pub finish_device : Oss → Oss
finish_device oss = record oss {
  finished = true;
  closed = elim (oss.fd) [ none ↦ oss.closed | some fd ↦ fd ∷ oss.closed ];
}

module _ {A : Type 0} where
  -- The sink of ignore.c. The chunk's own `dealloc` does nothing.
  unfoldable pub driver_ignore : SinkLogic Chunk (Pipe A (Unit {0}))
  driver_ignore = record {
    on_connect = λ inlet p. inlet.pull 1 p;
    on_push = λ inlet chunk p. inlet.pull 1 p;
    on_upstream_finish = λ p. ok p;
    on_upstream_failure = λ p. ok p;
  }

  unfoldable pub oss_push : Audio → Inlet (Pipe A Oss) → Chunk → Pipe A Oss → Run (Pipe A Oss)
  unfolding open_audio_fd is_unset write_chunk write_failed finish_device
  oss_push audio inlet chunk p =
      let opened = inlet.pull 1 (record p { sink = open_audio_fd audio chunk p.sink }) in
      let (n, oss) = write_chunk chunk p.sink in
      let canceled = inlet.cancel (record p { sink = finish_device oss }) in
      let more = inlet.pull 1 (record p { sink = oss }) in
      if is_unset p.sink.fd && not p.sink.finished
      then opened
      else if write_failed n
      then canceled
      else more

  unfoldable pub driver_oss : Audio → SinkLogic Chunk (Pipe A Oss)
  unfolding oss_push
  driver_oss audio = record {
    on_connect = λ inlet p. inlet.pull 1 p;
    on_push = oss_push audio;
    on_upstream_finish = λ p. ok p;
    on_upstream_failure = λ p. ok p;
  }

-- `create_logic` of oss.c
unfoldable pub oss_create : List (Option ℕ) → Oss
oss_create writes = record {
  fd = none;
  finished = false;
  writes = writes;
  played = [];
  closed = [];
}
