-- ===== src/BufferFd.antt =====
-- bufferfd.h and bufferfd.cpp: `read_bufferfd` and `write_bufferfd`, over the system calls of a file
-- descriptor.
pub mod Read
pub mod Write
pub mod Partial
pub mod Objects
use rsyncrypto.Prelude.{
  ℕ, zero, suc, ◌+◌, ◌-◌, ◌<◌, ◌≤◌, Bool, true, false, Bytes, [], ◌++◌, Result, ok, err, Error,
  ◌>>=◌, Option, none, some, ◌==◌, ltb, leb, u64, min, if◌then◌else◌, length, take, drop, get_or,
  set, ◌≡◌,
}

-- `autofd::read` and `autofd::write`: a read gives at most the bytes asked for, a write tells how
-- many of the bytes were taken; both throw what the system call reports.
pub record Fd : Type 1 where
  pub State : Type 0
  pub read : State → ℕ → Result (Bytes × State)
  pub write : State → Bytes → Result (ℕ × State)

-- `memcpy(buffer+at, bytes, …)`
abbrev pub patch : Bytes → ℕ → Bytes → Bytes
patch buffer at bytes = take at buffer ++ (bytes ++ drop (at + length bytes) buffer)

-- `for( int i=0; i<diff; ++i ) buffer[i]=buffer[i+diff];` with `n` rounds left.
unfoldable pub shift : ℕ → ℕ → ℕ → Bytes → Bytes
shift zero i diff buffer = buffer
shift (suc n) i diff buffer = shift n (i + 1) diff (set buffer i (get_or buffer (i + diff) 0))

module _ (F : Fd) where
  pub record ReadBuffer : Type 0 where
    pub buf_size : ℕ
    pub buffer : Bytes
    pub startpos : ℕ
    pub endpos : ℕ
    pub fd : F.State

  -- `read_bufferfd::buffer_copy`
  unfoldable pub buffer_copy : ReadBuffer → ℕ → Bytes × ReadBuffer
  buffer_copy r count =
      let copysize = min (u64 (r.endpos + 0x10000000000000000 - r.startpos)) count in
      (take copysize (drop r.startpos r.buffer), record r { startpos = r.startpos + copysize })

  -- `read_bufferfd::read`
  unfoldable pub read : ReadBuffer → ℕ → Result (Bytes × ReadBuffer)
  unfolding buffer_copy
  read r count =
      if ltb r.startpos r.endpos
      then ok (buffer_copy r count)
      else (F.read r.fd r.buf_size >>= λ got.
          let r' : ReadBuffer = record r {
            buffer = patch r.buffer 0 got.0;
            startpos = 0;
            endpos = length got.0;
            fd = got.1;
          } in
          ok (if ltb 0 (length got.0) then buffer_copy r' count else ([], r')))

  pub record WriteBuffer : Type 0 where
    pub buf_size : ℕ
    pub buffer : Bytes
    pub buffill : ℕ
    pub error : Bool
    pub fd : F.State

  -- `write_bufferfd::flush`: the buffer behind it, and what it throws.
  unfoldable pub flush : WriteBuffer → WriteBuffer × Option Error
  unfolding shift
  flush w =
      if ltb 0 w.buffill
      then elim (F.write w.fd (take w.buffill w.buffer)) [
        | err e ↦ (record w { error = true }, some e)
        | ok (count, fd) ↦
            let diff = w.buffill - count in
            if count == w.buffill
            then (record w { buffill = 0; error = false; fd = fd }, none)
            else (record w { buffer = shift diff 0 diff w.buffer; buffill = diff; fd = fd }, none)
      ]
      else (w, none)

  -- The bytes that did not fit, after the buffer was flushed.
  unfoldable pub write_rest : WriteBuffer × Option Error → Bytes → WriteBuffer × Option Error
  write_rest (w, some e) rest = (w, some e)
  write_rest (w, none) rest =
      (record w { buffer = patch w.buffer 0 rest; buffill = length rest }, none)

  -- A block too long to be cached.
  unfoldable pub write_through : WriteBuffer × Option Error → Bytes → WriteBuffer × Option Error
  write_through (w, some e) bytes = (w, some e)
  write_through (w, none) bytes = elim (F.write w.fd bytes) [
    | err e ↦ (w, some e)
    | ok (count, fd) ↦ (record w { fd = fd }, none)
  ]

  -- `write_bufferfd::write`; no caller reads its result.
  unfoldable pub write : WriteBuffer → Bytes → WriteBuffer × Option Error
  unfolding flush write_rest write_through
  write w bytes =
      let buffree = w.buf_size - w.buffill in
      let fill = min buffree (length bytes) in
      let rest = drop fill bytes in
      let filled = record w {
        buffer = patch w.buffer w.buffill (take fill bytes);
        buffill = w.buffill + fill;
      } in
      if ltb (buffree + w.buf_size) (length bytes)
      then write_through (flush w) bytes
      else if ltb 0 (length rest)
      then write_rest (flush filled) rest
      else (filled, none)
