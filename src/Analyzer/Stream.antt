-- ===== src/Analyzer/Stream.antt =====
-- `PhraseChunkStreamBuf` of src/result_analyzer/ResultAnalyzer.cpp: a range of the file as a document of
-- its own, in blocks.
pub mod Draining
mod Tests
use pi_poetry.Base.{
  ℕ, zero, suc, ◌+◌, ◌-◌, min, Bool, true, false, List, [], ◌∷◌, ◌++◌, ltb, if◌then◌else◌, length,
  take, drop, Bytes, bytes,
}

pub data Phase : Type 0 where
  prefix body suffix done : Phase

-- `file` is what is left of the file from its position on, `get` the bytes from `gptr` to `egptr`.
pub record PhraseChunkStreamBuf : Type 0 where
  pub file : Bytes
  pub remaining : ℕ
  pub phase : Phase
  pub get : Bytes

abbrev pub chunk_buffer_size : ℕ
chunk_buffer_size = 65536

abbrev pub phrases_prefix : Bytes
phrases_prefix = bytes "{\"phrases\":["

abbrev pub phrases_suffix : Bytes
phrases_suffix = bytes "]}"

abbrev pub opened : Bytes → ℕ → ℕ → PhraseChunkStreamBuf
opened file start end = record {
  file = drop start file;
  remaining = if ltb start end then end - start else 0;
  phase = prefix;
  get = [];
}

-- The call of `underflow` in the phase `Suffix`.
abbrev pub to_suffix : PhraseChunkStreamBuf → PhraseChunkStreamBuf
to_suffix s = record s { phase = done; get = phrases_suffix }

-- A block of the file, or its end.
abbrev pub with_block : PhraseChunkStreamBuf → Bytes → Bytes → PhraseChunkStreamBuf
with_block s [] rest = to_suffix (record s { file = rest; remaining = 0 })
with_block s (c ∷ got) rest = record s {
  file = rest;
  remaining = s.remaining - length (c ∷ got);
  get = c ∷ got;
}

abbrev pub read_body : PhraseChunkStreamBuf → ℕ → PhraseChunkStreamBuf
read_body s zero = to_suffix s
read_body s (suc n) =
    let to_read = min (suc n) chunk_buffer_size in
    with_block s (take to_read s.file) (drop to_read s.file)

abbrev pub next_block : PhraseChunkStreamBuf → Phase → PhraseChunkStreamBuf
next_block s prefix = record s { phase = body; get = phrases_prefix }
next_block s body = read_body s s.remaining
next_block s suffix = to_suffix s
next_block s done = s

-- `underflow`, which returns the first byte of `get`, or the end of the stream when that is empty.
abbrev pub underflow_of : PhraseChunkStreamBuf → Bytes → PhraseChunkStreamBuf
underflow_of s [] = next_block s s.phase
underflow_of s (c ∷ get) = s

unfoldable pub underflow : PhraseChunkStreamBuf → PhraseChunkStreamBuf
underflow s = underflow_of s s.get

-- What a reader gets, byte by byte, until the end of the stream; the fuel bounds the number of bytes.
abbrev pub then_rest : PhraseChunkStreamBuf → Bytes → (PhraseChunkStreamBuf → Bytes) → Bytes
then_rest s [] rest = []
then_rest s (c ∷ get) rest = c ∷ rest (record s { get = get })

unfoldable pub read_all : ℕ → PhraseChunkStreamBuf → Bytes
unfolding underflow
read_all zero s = []
read_all (suc fuel) s = let t = underflow s in then_rest t t.get (read_all fuel)
