-- ===== src/Server/Wav.antt =====
-- sas-server/src/formats/wav.c: the source that reads a WAVE file.
use sas.Base.{
  ℕ, zero, suc, ◌%◌, true, false, List, [], ◌∷◌, ◌++◌, Option, none, some, Run, ok, ◌>>=◌, ltb,
  ◌==◌, ◌&&◌, not, if◌then◌else◌, length, take, drop,
}
use sas.Base.Words.{u8_mod}
use sas.Rxc.Long.{is_positive}
use sas.Rxc.Connection.{Pipe, Outlet, SourceLogic}
use sas.Transport.{Endian}
use sas.Transport.Wire.{load16, load32}
use sas.Server.Address.{same_bytes}
use sas.Server.Session.{ReadResult, bytes, failed, File, Wav, Out, World}

-- `WaveHeader`, by the offsets of its fields: `sc_len` stands behind a byte of padding.
pub record WaveHeader : Type 0 where
  pub main_chunk : List ℕ
  pub chunk_type : List ℕ
  pub format : ℕ
  pub chans : ℕ
  pub sample_fq : ℕ
  pub bit_p_spl : ℕ

abbrev pub wave_header_size : ℕ
wave_header_size = 44

unfoldable pub wave_header_of : Endian → List ℕ → WaveHeader
unfolding load16 load32
wave_header_of e b = record {
  main_chunk = take 4 b;
  chunk_type = take 7 (drop 8 b);
  format = load16 e b 20;
  chans = load16 e b 22;
  sample_fq = load32 e b 24;
  bit_p_spl = load16 e b 34;
}

abbrev pub riff : List ℕ
riff = b'R' ∷ b'I' ∷ b'F' ∷ b'F' ∷ []

abbrev pub wavefmt : List ℕ
wavefmt = b'W' ∷ b'A' ∷ b'V' ∷ b'E' ∷ b'f' ∷ b'm' ∷ b't' ∷ []

abbrev pub pcm_code : ℕ
pcm_code = 1

-- read(2): the result, and what the file still has to give
unfoldable pub read : File → ReadResult × File
read [] = (bytes [], [])
read (r ∷ rest) = (r, rest)

-- What the read leaves in `wh`: bytes that it did not write keep the values of the stack, `junk`.
unfoldable pub header_read : List ℕ → ReadResult → List ℕ
header_read junk (bytes b) = b ++ drop (length b) junk
header_read junk (failed e) = junk

-- `errno` after it: a read that fails sets it
unfoldable pub read_errno : ReadResult → ℕ → ℕ
read_errno (bytes b) errno = errno
read_errno (failed e) errno = e

-- `sas_formats_wav`: `errno`, and the source, where `none` is NULL. The checks are made on what `wh` holds, whether or not the
-- read gave that many bytes.
unfoldable pub formats_wav : Endian → List ℕ → ℕ → File → ℕ → ℕ × Option Wav
unfolding wave_header_of read read_errno header_read same_bytes
formats_wav e junk fd file errno =
    let (r, rest) = read file in
    let wh = wave_header_of e (header_read junk r) in
    let source : Wav = record {
      fd = fd;
      file = rest;
      finished = false;
      sample_rate = wh.sample_fq;
      sample_size = wh.bit_p_spl % u8_mod;
      channels = wh.chans % u8_mod;
    } in
    let checked : Option Wav =
      if not (same_bytes wh.main_chunk riff && same_bytes wh.chunk_type wavefmt)
      then none
      else if not (wh.format == pcm_code)
      then none
      else if ltb 2 wh.chans
      then none
      else some source in
    (read_errno r errno, checked)

-- `close(source->fd)`
unfoldable pub close_fd : ℕ → World → World
close_fd fd world = record world { closed = fd ∷ world.closed }

abbrev pub WavPipe : Type 0
WavPipe = Pipe Wav Out

close_source : WavPipe → WavPipe
unfolding close_fd
close_source p = record p {
  source = record (p.source) { finished = true };
  sink = record (p.sink) { world = close_fd p.source.fd p.sink.world };
}

-- `errno` after a read that failed
set_errno : ℕ → WavPipe → WavPipe
set_errno e p = record p { sink = record (p.sink) { world = record (p.sink.world) { errno = e } } }

-- the `for` of on_pull; a chunk is the bytes that were read
unfoldable pub pull_loop : ℕ → Outlet (List ℕ) WavPipe → WavPipe → Run WavPipe
unfolding read close_source set_errno
pull_loop zero out p = ok p
pull_loop (suc n) out p =
    let (result, rest) = read p.source.file in
    let p' : WavPipe = record p { source = record (p.source) { file = rest } } in
    elim result [
      | bytes [] ↦ out.complete (close_source p')
      | bytes (b ∷ bs) ↦ (do (taken, p'') ← out.emit (b ∷ bs) p'; pull_loop n out p'')
      | failed e ↦ (do p'' ← out.fail (set_errno e p'); ok (close_source p''))
    ]

unfoldable pub wav_logic : SourceLogic (List ℕ) WavPipe
wav_logic = record {
  on_pull = λ out n p.
      let pulled = pull_loop (if is_positive n then n else 0) out p in
      if p.source.finished then out.complete p else pulled;
  on_downstream_finish = λ p. ok p;
}
