-- ===== src/BufferFd/Partial.antt =====
-- What `flush` keeps when the write call took only a part.
use rsyncrypto.Prelude.{
  ℕ, suc, ◌+◌, ◌-◌, ◌<◌, ◌≤◌, Bytes, [], ◌∷◌, ◌++◌, ok, none, length, take, drop, get_or, set, ◌≡◌,
  refl, ◌∙◌, ap, arith, length-append, length-take, length-drop, take-append-drop,
  take-append_exact, get_or-append_exact, set-append_exact, append_assoc,
}
use rsyncrypto.BufferFd.{Fd, WriteBuffer, flush, shift}

shift_step :
    (n i diff : ℕ) (b : Bytes)
    → shift (suc n) i diff b ≡ shift n (i + 1) diff (set b i (get_or b (i + diff) 0))
unfolding shift
shift_step n i diff b = refl

shift_zero : (i diff : ℕ) (b : Bytes) → shift 0 i diff b ≡ b
unfolding shift
shift_zero i diff b = refl

-- The loop copies the second of two stretches of the same length over the first.
shift_over :
    (xs ys pre mid post : Bytes) (i diff : ℕ)
    → length pre ≡ i
    → length xs ≡ length ys
    → length pre + length xs + length mid ≡ i + diff
    → shift (length xs) i diff (pre ++ (xs ++ (mid ++ (ys ++ post))))
      ≡ pre ++ (ys ++ (mid ++ (ys ++ post)))
shift_over [] [] pre mid post i diff p n e = shift_zero i diff (pre ++ (mid ++ post))
shift_over [] (y ∷ ys) pre mid post i diff p n e = absurd (omega arith)
shift_over (x ∷ xs) [] pre mid post i diff p n e = absurd (omega arith)
shift_over (x ∷ xs) (y ∷ ys) pre mid post i diff p n e =
    let front : Bytes = pre ++ (x ∷ (xs ++ mid)) in
    let tail : Bytes = ys ++ post in
    let turned : pre ++ (x ∷ (xs ++ (mid ++ (y ∷ tail)))) ≡ front ++ (y ∷ tail) =
      simp append_assoc in
    let at_diff : length front ≡ i + diff =
      length-append pre (x ∷ (xs ++ mid)) ∙ omega (arith, length-append xs mid, e) in
    let read : get_or (pre ++ (x ∷ (xs ++ (mid ++ (y ∷ tail))))) (i + diff) 0 ≡ y =
      rw turned (get_or-append_exact front y tail (i + diff) 0 at_diff) in
    let written = set-append_exact pre x (xs ++ (mid ++ (y ∷ tail))) i y p in
    let again =
      shift_over xs ys (pre ++ (y ∷ [])) (mid ++ (y ∷ [])) post (i + 1) diff
        (omega (arith, length-append pre (y ∷ []), p)) (omega arith)
        (omega (arith, length-append pre (y ∷ []), length-append mid (y ∷ []), e)) in
    shift_step (length xs) i diff (pre ++ (x ∷ (xs ++ (mid ++ (y ∷ tail)))))
    ∙ rw (read, written) (simp append_assoc at again)

partial-eq :
    (F : Fd) (w : WriteBuffer F) (count : ℕ) (fd : F.State)
    → F.write w.fd (take w.buffill w.buffer) ≡ ok (count, fd)
    → count < w.buffill
    → flush F w ≡ (
      record w {
        buffer = shift (w.buffill - count) 0 (w.buffill - count) w.buffer;
        buffill = w.buffill - count;
        fd = fd;
      },
      none,
    )
unfolding flush
partial-eq F w count fd e less = ground arith

-- The bytes behind the loop of `flush`.
shift_front :
    (b : Bytes) (diff : ℕ)
    → diff + diff ≤ length b
    → take diff (shift diff 0 diff b) ≡ take diff (drop diff b)
shift_front b diff room =
    let xs : Bytes = take diff b in
    let ys : Bytes = take diff (drop diff b) in
    let post : Bytes = drop diff (drop diff b) in
    let n : length xs ≡ diff = omega (arith, length-take diff b, room) in
    let m : length ys ≡ diff =
      omega (arith, length-take diff (drop diff b), length-drop diff b, room) in
    let split : xs ++ (ys ++ post) ≡ b =
      ap (λ (z : Bytes). xs ++ z) (take-append-drop diff (drop diff b)) ∙ take-append-drop diff b in
    let moved = shift_over xs ys [] [] post 0 diff refl (omega (arith, n, m)) (omega (arith, n)) in
    ap (take diff) (rw (n, split) at moved) ∙ take-append_exact ys (ys ++ post) diff m

-- If the write call took fewer bytes than the buffer holds, and the buffer has room for twice the
-- rest: flush does not throw, and keeps as many bytes as were not taken; but these are the bytes
-- from that number on, and not those from the number of taken bytes on.
pub flush_partial :
    (F : Fd) (w : WriteBuffer F) (count : ℕ) (fd : F.State)
    → F.write w.fd (take w.buffill w.buffer) ≡ ok (count, fd)
    → count < w.buffill
    → let diff = w.buffill - count in
      diff + diff ≤ length w.buffer
      → ((flush F w).1 ≡ none)
        × ((flush F w).0.buffill ≡ diff)
        × ((flush F w).0.fd ≡ fd)
        × (take diff (flush F w).0.buffer ≡ take diff (drop diff w.buffer))
flush_partial F w count fd e less room =
    rw (partial-eq F w count fd e less)
      (refl, refl, refl, shift_front w.buffer (w.buffill - count) room)
