-- ===== src/Tests/Buffers.antt =====
-- The theorems on the buffers at concrete descriptors.
use rsyncrypto.Prelude.{
  ℕ, zero, suc, ◌<◌, ◌≤◌, false, Bytes, [], ◌∷◌, ◌++◌, ok, none, length, take, drop, ◌≡◌, refl, sym,
  arith, length-take, take-append-drop,
}
use rsyncrypto.BufferFd
use rsyncrypto.BufferFd.{
  Fd, ReadBuffer, WriteBuffer, shift, buffer_copy, flush, write_rest, write_through,
}
use rsyncrypto.BufferFd.Read.{IsReader, IsReadable, Reads, read_lem}
use rsyncrypto.BufferFd.Write.{IsWholeWriter, IsWritable}
use rsyncrypto.BufferFd.Objects.{write_bufferfd, writes, destroy, destroy-writes}

-- A descriptor over a byte string, which a write makes longer.
abbrev tape : Fd
tape = record {
  State = Bytes;
  read = λ s n. ok (take n s, drop n s);
  write = λ s b. ok (length b, s ++ b);
}

abbrev whole : Bytes → Bytes
whole s = s

tape-takes :
    (s s' : Bytes) (n : ℕ) (b : Bytes) → tape.read s n ≡ ok (b, s') → (s ≡ b ++ s') × (length b ≤ n)
tape-takes s s' n b e =
    let x : take n s ≡ b = cc in
    let y : drop n s ≡ s' = cc in
    (rw (← x, ← y) (sym (take-append-drop n s)), rw (← x) (omega (arith, length-take n s)))

none_taken : (n : ℕ) (s : Bytes) → 0 < n → length (take n s) ≡ 0 → s ≡ []
none_taken n [] p e = refl
none_taken zero (x ∷ s) p e = absurd (omega arith)
none_taken (suc n) (x ∷ s) p e = absurd (omega arith)

tape-stops :
    (s s' : Bytes) (n : ℕ) (b : Bytes) → tape.read s n ≡ ok (b, s') → 0 < n → length b ≡ 0 → s ≡ []
tape-stops s s' n b e p z = let x : take n s ≡ b = cc in none_taken n s p (rw x z)

tape-IsReader : IsReader tape whole
tape-IsReader = record { takes = tape-takes; stops = tape-stops }

tape-IsWholeWriter : IsWholeWriter tape whole
tape-IsWholeWriter = record {
  takes = λ s s' n b e. let x : s ++ b ≡ s' = cc in let y : length b ≡ n = cc in (sym x, sym y);
}

abbrev reading : ReadBuffer tape
reading = record {
  buf_size = 4;
  buffer = 9 ∷ 8 ∷ 7 ∷ 6 ∷ [];
  startpos = 3;
  endpos = 4;
  fd = 5 ∷ 4 ∷ [];
}

reading-IsReadable : IsReadable tape whole tape-IsReader reading
reading-IsReadable = record {
  ordered = omega arith;
  inside = omega arith;
  size_is = refl;
  size_pos = omega arith;
  size_fits = omega arith;
}

read_once : BufferFd.read tape reading 3 ≡ ok (6 ∷ [], record reading { startpos = 4 })
unfolding BufferFd.read buffer_copy
read_once = refl

read_lem_example :
    Reads tape whole tape-IsReader reading 3 (6 ∷ []) (record reading { startpos = 4 })
read_lem_example =
    read_lem tape whole tape-IsReader reading (record reading { startpos = 4 }) 3 (6 ∷ [])
      reading-IsReadable (omega arith) read_once

abbrev writing : WriteBuffer tape
writing = record {
  buf_size = 4;
  buffer = 1 ∷ 2 ∷ 3 ∷ 0 ∷ [];
  buffill = 3;
  error = false;
  fd = 9 ∷ [];
}

writing-IsWritable : IsWritable tape whole tape-IsWholeWriter writing
writing-IsWritable = record { fill_le = omega arith; size_is = refl }

abbrev flushed : WriteBuffer tape
flushed = record writing { buffill = 0; fd = 9 ∷ 1 ∷ 2 ∷ 3 ∷ [] }

flush_once : flush tape writing ≡ (flushed, none)
unfolding flush
flush_once = refl

abbrev written : WriteBuffer tape
written = record {
  buf_size = 4;
  buffer = 5 ∷ 6 ∷ 3 ∷ 4 ∷ [];
  buffill = 2;
  error = false;
  fd = 9 ∷ 1 ∷ 2 ∷ 3 ∷ 4 ∷ [];
}

write_once : BufferFd.write tape writing (4 ∷ 5 ∷ 6 ∷ []) ≡ (written, none)
unfolding BufferFd.write flush write_rest write_through
write_once = refl

-- A descriptor that takes one byte at a time.
abbrev narrow : Fd
narrow = record {
  State = Bytes;
  read = λ s n. ok (take n s, drop n s);
  write = λ s b. ok (1, s ++ take 1 b);
}

abbrev three : WriteBuffer narrow
three = record { buf_size = 4; buffer = 1 ∷ 2 ∷ 3 ∷ 0 ∷ []; buffill = 3; error = false; fd = [] }

-- Two writes to a stream of four bytes over what was there, and its end.
abbrev memory : Bytes
memory = 9 ∷ 9 ∷ 9 ∷ 9 ∷ []

writes_both :
    (writes tape (write_bufferfd tape memory (7 ∷ []) 4) ((1 ∷ 2 ∷ 3 ∷ []) ∷ (4 ∷ 5 ∷ []) ∷ [])).1
    ≡ none
unfolding writes write_bufferfd BufferFd.write flush write_rest write_through
writes_both = refl

ends_both :
    (destroy tape
      (writes tape
        (write_bufferfd tape memory (7 ∷ []) 4)
        ((1 ∷ 2 ∷ 3 ∷ []) ∷ (4 ∷ 5 ∷ []) ∷ [])).0).1
    ≡ none
unfolding destroy writes write_bufferfd BufferFd.write flush write_rest write_through shift
ends_both = refl

destroy-writes_example :
    (destroy tape
      (writes tape
        (write_bufferfd tape memory (7 ∷ []) 4)
        ((1 ∷ 2 ∷ 3 ∷ []) ∷ (4 ∷ 5 ∷ []) ∷ [])).0).0.fd
    ≡ 7 ∷ 1 ∷ 2 ∷ 3 ∷ 4 ∷ 5 ∷ []
destroy-writes_example =
    destroy-writes tape whole tape-IsWholeWriter memory (7 ∷ []) 4
      ((1 ∷ 2 ∷ 3 ∷ []) ∷ (4 ∷ 5 ∷ []) ∷ []) refl writes_both ends_both
