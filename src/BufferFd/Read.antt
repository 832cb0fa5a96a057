-- ===== src/BufferFd/Read.antt =====
-- `read_bufferfd` gives the bytes of the descriptor, in order.
use rsyncrypto.Prelude.{
  ℕ, ◌+◌, ◌-◌, ◌<◌, ◌≤◌, true, false, Bytes, [], ◌++◌, ok, ◌>>=◌, returned_lem, ltb, u64, min,
  if◌then◌else◌, length, take, drop, ◌≡◌, refl, sym, ◌∙◌, ap, arith, length-append, length-take,
  length-drop, take_split, drop-drop, take-append_exact, append_assoc, ap₂, Bool-cases, ◌⊎◌, inl,
  inr,
}
use rsyncrypto.BufferFd
use rsyncrypto.BufferFd.{Fd, ReadBuffer, buffer_copy, patch}

-- What a read call does: a prefix of what is left, and nothing only at the end of the file.
pub record IsReader (F : Fd) (left : F.State → Bytes) : Type 0 where
  pub takes :
      (s s' : F.State) (n : ℕ) (b : Bytes)
      → F.read s n ≡ ok (b, s')
      → (left s ≡ b ++ left s') × (length b ≤ n)
  pub stops :
      (s s' : F.State) (n : ℕ) (b : Bytes)
      → F.read s n ≡ ok (b, s')
      → 0 < n
      → length b ≡ 0
      → left s ≡ []

module _ (F : Fd) (left : F.State → Bytes) (R : IsReader F left) where
  pub record IsReadable (r : ReadBuffer F) : Type 0 where
    pub ordered : r.startpos ≤ r.endpos
    pub inside : r.endpos ≤ length r.buffer
    pub size_is : length r.buffer ≡ r.buf_size
    pub size_pos : 0 < r.buf_size
    pub size_fits : r.buf_size < 0x10000000000000000

  -- What is still to come.
  abbrev pub pending : ReadBuffer F → Bytes
  pending r = take (r.endpos - r.startpos) (drop r.startpos r.buffer) ++ left r.fd

  buffer_copy_lem :
      (r : ReadBuffer F) (count : ℕ)
      → IsReadable r
      → let (b, r') = buffer_copy F r count in
        IsReadable r'
        × (pending r ≡ b ++ pending r')
        × (length b ≤ count)
        × (length b ≡ min (r.endpos - r.startpos) count)
  unfolding buffer_copy
  buffer_copy_lem r count v =
      let held : u64 (r.endpos + 0x10000000000000000 - r.startpos) ≡ r.endpos - r.startpos =
        omega (arith, v.ordered, v.inside, v.size_is, v.size_fits) in
      let c = min (r.endpos - r.startpos) count in
      let rest = drop r.startpos r.buffer in
      let n = length-take c rest in
      let m = length-drop r.startpos r.buffer in
      let left_over : r.endpos - r.startpos - c ≡ r.endpos - (r.startpos + c) = omega arith in
      rw held (
        record {
          ordered = omega (arith, v.ordered);
          inside = v.inside;
          size_is = v.size_is;
          size_pos = v.size_pos;
          size_fits = v.size_fits;
        },
        ap (λ (x : Bytes). x ++ left r.fd)
              (take_split c (r.endpos - r.startpos) rest (omega arith)
                ∙ ap₂ (λ (k : ℕ) (x : Bytes). take c rest ++ take k x) left_over
                    (drop-drop c r.startpos r.buffer))
            ∙ append_assoc (take c rest)
                (take (r.endpos - (r.startpos + c)) (drop (r.startpos + c) r.buffer)) (left r.fd),
        omega (arith, n),
        omega (arith, n, m, v.inside, v.ordered),
      )

  abbrev fetched : ReadBuffer F → Bytes × F.State → ReadBuffer F
  fetched r got = record r {
    buffer = patch r.buffer 0 got.0;
    startpos = 0;
    endpos = length got.0;
    fd = got.1;
  }

  read_held :
      (r : ReadBuffer F) (count : ℕ)
      → ltb r.startpos r.endpos ≡ true
      → BufferFd.read F r count ≡ ok (buffer_copy F r count)
  unfolding BufferFd.read
  read_held r count h = rw h

  read_fetch :
      (r : ReadBuffer F) (count : ℕ)
      → ltb r.startpos r.endpos ≡ false
      → BufferFd.read F r count ≡ (
          F.read r.fd r.buf_size >>= λ got. ok (
            if ltb 0 (length got.0)
            then buffer_copy F (fetched r got) count
            else ([], fetched r got)))
  unfolding BufferFd.read
  read_fetch r count h = rw h

  length-patch :
      (buffer bytes : Bytes)
      → length bytes ≤ length buffer
      → length (patch buffer 0 bytes) ≡ length buffer
  length-patch buffer bytes h = omega (
    arith,
    length-append bytes (drop (0 + length bytes) buffer),
    length-drop (0 + length bytes) buffer,
  )

  module _ (r : ReadBuffer F) (v : IsReadable r) (s' : F.State) (got : Bytes)
      (e : F.read r.fd r.buf_size ≡ ok (got, s')) where
    fetched-IsReadable : IsReadable (fetched r (got, s'))
    fetched-IsReadable =
        let (_, n) = R.takes r.fd s' r.buf_size got e in
        let same = length-patch r.buffer got (omega (arith, n, v.size_is)) in
        record {
          ordered = omega arith;
          inside = omega (arith, n, same, v.size_is);
          size_is = omega (arith, same, v.size_is);
          size_pos = v.size_pos;
          size_fits = v.size_fits;
        }

    pending-fetched : pending (fetched r (got, s')) ≡ left r.fd
    pending-fetched =
        let (w, _) = R.takes r.fd s' r.buf_size got e in
        ap (λ (x : Bytes). x ++ left s') (take-append_exact got _ (length got - 0) (omega arith))
        ∙ sym w

  -- Nothing is held: what is to come is what is left in the file.
  pending-empty : (r : ReadBuffer F) → ltb r.startpos r.endpos ≡ false → pending r ≡ left r.fd
  pending-empty r h = let none : r.endpos - r.startpos ≡ 0 = ground arith in rw none refl

  -- The four things that a read call promises.
  abbrev pub Reads : ReadBuffer F → ℕ → Bytes → ReadBuffer F → Type 0
  Reads r count b r' =
      IsReadable r'
      × (pending r ≡ b ++ pending r')
      × (length b ≤ count)
      × ((0 < length b) ⊎ (pending r ≡ []))

  copy-Reads :
      (r r' : ReadBuffer F) (count : ℕ) (b : Bytes)
      → IsReadable r
      → 0 < count
      → ltb r.startpos r.endpos ≡ true
      → buffer_copy F r count ≡ (b, r')
      → Reads r count b r'
  copy-Reads r r' count b v pos h p =
      let (w, q, n, m) = rw p at (buffer_copy_lem r count v) in
      let some : 0 < r.endpos - r.startpos = ground arith in
      (w, q, n, inl (omega (arith, m, some, pos)))

  fetch-Reads :
      (r r' : ReadBuffer F) (count : ℕ) (b got : Bytes) (s' : F.State)
      → IsReadable r
      → 0 < count
      → ltb r.startpos r.endpos ≡ false
      → F.read r.fd r.buf_size ≡ ok (got, s')
      → (if ltb 0 (length got)
          then buffer_copy F (fetched r (got, s')) count
          else ([], fetched r (got, s')))
        ≡ (b, r')
      → Reads r count b r'
  fetch-Reads r r' count b got s' v pos h q e =
      let v' = fetched-IsReadable r v s' got q in
      let same = pending-empty r h ∙ sym (pending-fetched r v s' got q) in
      elim (Bool-cases (ltb 0 (length got))) [
        | inl some ↦
            rw same (copy-Reads (fetched r (got, s')) r' count b v' pos some (rw some at e))
        | inr none ↦
            let empty : length got ≡ 0 = ground arith in
            let end : left r.fd ≡ [] = R.stops r.fd s' r.buf_size got q v.size_pos empty in
            let nothing : pending r ≡ [] = pending-empty r h ∙ end in
            let all : [] ≡ pending (fetched r (got, s')) = sym nothing ∙ same in
            let p : ([], fetched r (got, s')) ≡ (b, r') = rw none at e in
            let b_is : [] ≡ b = ap (λ (x : Bytes × ReadBuffer F). x.0) p in
            let r_is : fetched r (got, s') ≡ r' = ap (λ (x : Bytes × ReadBuffer F). x.1) p in
            rw (← b_is, ← r_is) (v', nothing ∙ all, omega arith, inr nothing)
      ]

  -- If each read call gives a prefix of what is left, and nothing only at the end, a read of at
  -- least one byte that does not throw on a buffer in order gives the next bytes, at most as many
  -- as asked for, leaves the rest to come, and leaves the buffer in order; it gives at least one
  -- byte unless nothing was to come.
  pub read_lem :
      (r r' : ReadBuffer F) (count : ℕ) (b : Bytes)
      → IsReadable r
      → 0 < count
      → BufferFd.read F r count ≡ ok (b, r')
      → Reads r count b r'
  read_lem r r' count b v pos e = elim (Bool-cases (ltb r.startpos r.endpos)) [
    | inl h ↦ copy-Reads r r' count b v pos h (cc (sym (read_held r count h) ∙ e))
    | inr h ↦
        let ((got, s'), q, w) =
          returned_lem (F.read r.fd r.buf_size) _ (b, r') (sym (read_fetch r count h) ∙ e) in
        fetch-Reads r r' count b got s' v pos h q (cc w)
  ]
