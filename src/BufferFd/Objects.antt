-- ===== src/BufferFd/Objects.antt =====
-- The constructors, the assignments and the destructor of `read_bufferfd` and `write_bufferfd` in
-- bufferfd.h.
use rsyncrypto.Prelude.{
  ℕ, false, Bytes, List, [], ◌∷◌, ◌++◌, Result, ok, err, Error, Option, none, some, if◌then◌else◌,
  length, ◌≡◌, refl, sym, ◌∙◌, ap, subst, arith, append-nil, append_assoc,
}
use rsyncrypto.BufferFd
use rsyncrypto.BufferFd.{Fd, ReadBuffer, WriteBuffer, flush, write_rest, write_through, patch}
use rsyncrypto.BufferFd.Write.{IsWholeWriter, IsWritable, given, flush_lem, write_lem}

-- A buffer just made holds what its memory held.
module _ (F : Fd) (memory : Bytes) where
  -- `read_bufferfd( const autofd &rhs, size_t bufsize )`
  unfoldable pub read_bufferfd : F.State → ℕ → ReadBuffer F
  read_bufferfd rhs bufsize = record {
    buf_size = bufsize;
    buffer = memory;
    startpos = 0;
    endpos = 0;
    fd = rhs;
  }

  -- `read_bufferfd::operator=`: both objects. The buffer is taken from `rhs`.
  unfoldable pub assign_read : ReadBuffer F → ReadBuffer F → ReadBuffer F × ReadBuffer F
  assign_read this rhs = (
    record {
      buf_size = rhs.buf_size;
      buffer = rhs.buffer;
      startpos = rhs.startpos;
      endpos = rhs.endpos;
      fd = rhs.fd;
    },
    record rhs { buffer = [] },
  )

  -- `write_bufferfd( const autofd &rhs, size_t bufsize )`
  unfoldable pub write_bufferfd : F.State → ℕ → WriteBuffer F
  write_bufferfd rhs bufsize = record {
    buf_size = bufsize;
    buffer = memory;
    buffill = 0;
    error = false;
    fd = rhs;
  }

module _ (F : Fd) where
  -- `write_bufferfd( write_bufferfd &rhs )`: the new object, unless it throws, and `rhs` behind it.
  unfoldable pub copy_write : WriteBuffer F → Result (WriteBuffer F) × WriteBuffer F
  unfolding flush
  copy_write rhs =
      let (rhs', x) = flush F rhs in
      elim x [
        | some e ↦ (err e, rhs')
        | none ↦ (
          ok (record {
            buf_size = rhs'.buf_size;
            buffer = rhs'.buffer;
            buffill = 0;
            error = false;
            fd = rhs'.fd;
          }),
          record rhs' { buffer = [] },
        )
      ]

  -- `write_bufferfd::operator=`: both objects, and what it throws.
  unfoldable pub assign_write :
      WriteBuffer F → WriteBuffer F → (WriteBuffer F × WriteBuffer F) × Option Error
  unfolding flush
  assign_write this rhs =
      let (this', x) = flush F this in
      let (rhs', y) = flush F rhs in
      elim x [
        | some e ↦ ((this', rhs), some e)
        | none ↦ elim y [
          | some e ↦ ((this', rhs'), some e)
          | none ↦ ((record this' { error = false; fd = rhs'.fd }, rhs'), none)
        ]
      ]

  -- `~write_bufferfd`
  unfoldable pub destroy : WriteBuffer F → WriteBuffer F × Option Error
  unfolding flush
  destroy w = if w.error then (w, none) else flush F w

  -- `write_bufferfd::clear`, with `close` for `autofd::clear`.
  unfoldable pub clear : (F.State → F.State) → WriteBuffer F → WriteBuffer F × Option Error
  unfolding flush
  clear close w =
      let (w', x) = flush F w in
      elim x [ some e ↦ (w', some e) | none ↦ (record w' { fd = close w'.fd }, none) ]

  -- Calls of `write`, one after another.
  unfoldable pub writes : WriteBuffer F → List Bytes → WriteBuffer F × Option Error
  unfolding BufferFd.write
  writes w [] = (w, none)
  writes w (bytes ∷ more) =
      let (w', x) = BufferFd.write F w bytes in
      let rest = writes w' more in elim x [ some e ↦ (w', some e) | none ↦ rest ]

abbrev pub joined : List Bytes → Bytes
joined [] = []
joined (bytes ∷ more) = bytes ++ joined more

module _ (F : Fd) where
  flush-no_error :
      (w : WriteBuffer F) → (flush F w).1 ≡ none → w.error ≡ false → (flush F w).0.error ≡ false
  unfolding flush
  flush-no_error w e h = ground arith

  write-no_error :
      (w : WriteBuffer F) (bytes : Bytes)
      → (BufferFd.write F w bytes).1 ≡ none
      → w.error ≡ false
      → (BufferFd.write F w bytes).0.error ≡ false
  unfolding BufferFd.write write_rest write_through flush
  write-no_error w bytes e h = ground arith

module _ (F : Fd) (log : F.State → Bytes) (W : IsWholeWriter F log) where
  -- A stream in order whose destructor flushes.
  record IsAlive (w : WriteBuffer F) : Type 0 where
    writable : IsWritable F log W w
    no_error : w.error ≡ false

  one-IsAlive :
      (w : WriteBuffer F) (bytes : Bytes)
      → IsAlive w
      → (BufferFd.write F w bytes).1 ≡ none
      → IsAlive (BufferFd.write F w bytes).0
        × (given F log W (BufferFd.write F w bytes).0 ≡ given F log W w ++ bytes)
  one-IsAlive w bytes v e =
      let w' = (BufferFd.write F w bytes).0 in
      let (v', g) = write_lem F log W w w' bytes v.writable (ap (λ x. (w', x)) e) in
      (record { writable = v'; no_error = write-no_error F w bytes e v.no_error }, g)

  stopped-writes :
      (w : WriteBuffer F) (bytes : Bytes) (more : List Bytes)
      → (writes F w (bytes ∷ more)).1 ≡ none
      → (BufferFd.write F w bytes).1 ≡ none
  unfolding writes
  stopped-writes w bytes more e = ground arith

  next-writes :
      (w : WriteBuffer F) (bytes : Bytes) (more : List Bytes)
      → (BufferFd.write F w bytes).1 ≡ none
      → writes F w (bytes ∷ more) ≡ writes F (BufferFd.write F w bytes).0 more
  unfolding writes
  next-writes w bytes more e = ground arith

  writes-IsAlive :
      (w : WriteBuffer F) (chunks : List Bytes)
      → IsAlive w
      → (writes F w chunks).1 ≡ none
      → IsAlive (writes F w chunks).0
        × (given F log W (writes F w chunks).0 ≡ given F log W w ++ joined chunks)
  unfolding writes
  writes-IsAlive w [] v e = (v, sym (append-nil (given F log W w)))
  writes-IsAlive w (bytes ∷ more) v e =
      let stop = stopped-writes w bytes more e in
      let next = next-writes w bytes more stop in
      let w1 = (BufferFd.write F w bytes).0 in
      let (v1, g1) = one-IsAlive w bytes v stop in
      let (v2, g2) = writes-IsAlive w1 more v1 (ap (λ r. r.1) (sym next) ∙ e) in
      subst (λ r. IsAlive r.0 × (given F log W r.0 ≡ given F log W w ++ joined (bytes ∷ more)))
        (sym next)
        (
          v2,
          g2 ∙ ap (λ x. x ++ joined more) g1 ∙ append_assoc (given F log W w) bytes (joined more),
        )

  destroy-flush : (w : WriteBuffer F) → w.error ≡ false → destroy F w ≡ flush F w
  unfolding destroy
  destroy-flush w e = rw (e) refl

  made-IsAlive :
      (memory : Bytes) (fd : F.State) (bufsize : ℕ)
      → length memory ≡ bufsize
      → IsAlive (write_bufferfd F memory fd bufsize)
        × (given F log W (write_bufferfd F memory fd bufsize) ≡ log fd)
  unfolding write_bufferfd
  made-IsAlive memory fd bufsize h = (
    record { writable = record { fill_le = omega arith; size_is = h }; no_error = refl },
    append-nil (log fd),
  )

  -- If each write call takes all it is given, the memory of the buffer has its size, and neither
  -- the writes nor the destructor throw: behind a new write_bufferfd, any writes and the
  -- destructor, the descriptor has got exactly the bytes of the writes, in their order.
  pub destroy-writes :
      (memory : Bytes) (fd : F.State) (bufsize : ℕ) (chunks : List Bytes)
      → length memory ≡ bufsize
      → (writes F (write_bufferfd F memory fd bufsize) chunks).1 ≡ none
      → (destroy F (writes F (write_bufferfd F memory fd bufsize) chunks).0).1 ≡ none
      → log (destroy F (writes F (write_bufferfd F memory fd bufsize) chunks).0).0.fd
        ≡ log fd ++ joined chunks
  destroy-writes memory fd bufsize chunks h e d =
      let w = (writes F (write_bufferfd F memory fd bufsize) chunks).0 in
      let (v, g) = made-IsAlive memory fd bufsize h in
      let (v', g') = writes-IsAlive (write_bufferfd F memory fd bufsize) chunks v e in
      let flushes = destroy-flush w v'.no_error in
      let (ok_then, empty, l, size) =
        flush_lem F log W w (flush F w).0 v'.writable
          (ap (λ x. ((flush F w).0, x)) (ap (λ r. r.1) (sym flushes) ∙ d)) in
      ap (λ r. log r.0.fd) flushes ∙ l ∙ g' ∙ ap (λ x. x ++ joined chunks) g
