-- ===== src/BufferFd/Write.antt =====
-- `write_bufferfd` hands the bytes to the descriptor in order, if every write call takes all it is
-- given.
use rsyncrypto.Prelude.{
  ℕ, ◌+◌, ◌-◌, ◌≤◌, true, false, Bytes, ◌++◌, Result, ok, err, Error, Option, none, some, ltb, min,
  length, take, drop, ◌≡◌, refl, sym, ◌∙◌, ap, subst, arith, length-append, length-take,
  length-drop, take-append-drop, take-append_exact, take_all, append_assoc, append-nil, Bool-cases,
  inl, inr,
}
use rsyncrypto.BufferFd
use rsyncrypto.BufferFd.{Fd, WriteBuffer, flush, write_rest, write_through, patch}

-- A write call that succeeds has taken all the bytes.
pub record IsWholeWriter (F : Fd) (log : F.State → Bytes) : Type 0 where
  pub takes :
      (s s' : F.State) (n : ℕ) (b : Bytes)
      → F.write s b ≡ ok (n, s')
      → (log s' ≡ log s ++ b) × (n ≡ length b)

module _ (F : Fd) (log : F.State → Bytes) (W : IsWholeWriter F log) where
  pub record IsWritable (w : WriteBuffer F) : Type 0 where
    pub fill_le : w.buffill ≤ w.buf_size
    pub size_is : length w.buffer ≡ w.buf_size

  -- All that was given to the buffer so far.
  abbrev pub given : WriteBuffer F → Bytes
  given w = log w.fd ++ take w.buffill w.buffer

  abbrev pub Flushed : WriteBuffer F → WriteBuffer F → Type 0
  Flushed w w' =
      IsWritable w' × (w'.buffill ≡ 0) × (log w'.fd ≡ given w) × (w'.buf_size ≡ w.buf_size)

  flush_empty : (w : WriteBuffer F) → ltb 0 w.buffill ≡ false → flush F w ≡ (w, none)
  unfolding flush
  flush_empty w h = rw h

  flush_whole :
      (w : WriteBuffer F) (fd : F.State)
      → ltb 0 w.buffill ≡ true
      → F.write w.fd (take w.buffill w.buffer) ≡ ok (w.buffill, fd)
      → flush F w ≡ (record w { buffill = 0; error = false; fd = fd }, none)
  unfolding flush
  flush_whole w fd h e = ground arith

  flush_err :
      (w : WriteBuffer F) (x : Error)
      → ltb 0 w.buffill ≡ true
      → F.write w.fd (take w.buffill w.buffer) ≡ err x
      → flush F w ≡ (record w { error = true }, some x)
  unfolding flush
  flush_err w x h e = ground arith

  -- If each write call takes all it is given, a flush that does not throw on a buffer in order has
  -- handed everything on, and leaves it empty and in order.
  pub flush_lem : (w w' : WriteBuffer F) → IsWritable w → flush F w ≡ (w', none) → Flushed w w'
  flush_lem w w' v e = elim (Bool-cases (ltb 0 w.buffill)) [
    | inl h ↦ go h (F.write w.fd (take w.buffill w.buffer)) refl
    | inr h ↦
        let z : w.buffill ≡ 0 = ground arith in
        let p = sym (flush_empty w h) ∙ e in
        let same : w ≡ w' = ap (λ (x : WriteBuffer F × Option Error). x.0) p in
        subst (Flushed w) same (v, z, rw z (sym (append-nil (log w.fd))), refl)
  ]
    where
      go :
          ltb 0 w.buffill ≡ true
          → (r : Result (ℕ × F.State)) → F.write w.fd (take w.buffill w.buffer) ≡ r
          → Flushed w w'
      go h (err x) q = cc (sym (flush_err w x h q) ∙ e)
      go h (ok (n, fd)) q =
          let (l, m) = W.takes w.fd fd n (take w.buffill w.buffer) q in
          let all : n ≡ w.buffill =
            omega (arith, m, length-take w.buffill w.buffer, v.size_is, v.fill_le) in
          let p = sym (flush_whole w fd h (rw all at q)) ∙ e in
          let same : record w { buffill = 0; error = false; fd = fd } ≡ w' =
            ap (λ (x : WriteBuffer F × Option Error). x.0) p in
          subst (Flushed w) same
            (record { fill_le = omega arith; size_is = v.size_is }, refl, l, refl)

  -- The cases of `write`.
  through-eq :
      (w : WriteBuffer F) (bytes : Bytes)
      → ltb (w.buf_size - w.buffill + w.buf_size) (length bytes) ≡ true
      → BufferFd.write F w bytes ≡ write_through F (flush F w) bytes
  unfolding BufferFd.write
  through-eq w bytes h = rw h

  abbrev filled : WriteBuffer F → Bytes → WriteBuffer F
  filled w bytes =
      let fill = min (w.buf_size - w.buffill) (length bytes) in
      record w { buffer = patch w.buffer w.buffill (take fill bytes); buffill = w.buffill + fill }

  abbrev rest_of : WriteBuffer F → Bytes → Bytes
  rest_of w bytes = drop (min (w.buf_size - w.buffill) (length bytes)) bytes

  rest-eq :
      (w : WriteBuffer F) (bytes : Bytes)
      → ltb (w.buf_size - w.buffill + w.buf_size) (length bytes) ≡ false
      → ltb 0 (length (rest_of w bytes)) ≡ true
      → BufferFd.write F w bytes ≡ write_rest F (flush F (filled w bytes)) (rest_of w bytes)
  unfolding BufferFd.write
  rest-eq w bytes h k = rw (h, k)

  fill-eq :
      (w : WriteBuffer F) (bytes : Bytes)
      → ltb (w.buf_size - w.buffill + w.buf_size) (length bytes) ≡ false
      → ltb 0 (length (rest_of w bytes)) ≡ false
      → BufferFd.write F w bytes ≡ (filled w bytes, none)
  unfolding BufferFd.write
  fill-eq w bytes h k = rw (h, k)

  -- What is copied behind the bytes that are there.
  filled_lem :
      (w : WriteBuffer F) (bytes : Bytes)
      → IsWritable w
      → let fill = min (w.buf_size - w.buffill) (length bytes) in
        IsWritable (filled w bytes) × (given (filled w bytes) ≡ given w ++ take fill bytes)
  filled_lem w bytes v =
      let fill = min (w.buf_size - w.buffill) (length bytes) in
      let old : Bytes = take w.buffill w.buffer in
      let new : Bytes = take fill bytes in
      let behind : Bytes = drop (w.buffill + length new) w.buffer in
      let n : length old ≡ w.buffill =
        omega (arith, length-take w.buffill w.buffer, v.size_is, v.fill_le) in
      let m : length new ≡ fill = omega (arith, length-take fill bytes) in
      let whole : length (old ++ new) ≡ w.buffill + fill =
        length-append old new ∙ omega (arith, n, m) in
      (
        record {
          fill_le = omega (arith, v.fill_le);
          size_is =
              length-append old (new ++ behind)
              ∙ omega (
                arith,
                length-append new behind,
                length-drop (w.buffill + length new) w.buffer,
                n,
                m,
                v.size_is,
                v.fill_le,
              );
        },
        ap (λ (x : Bytes). log w.fd ++ take (w.buffill + fill) x)
              (sym (append_assoc old new behind))
            ∙ ap (λ (x : Bytes). log w.fd ++ x)
                (take-append_exact (old ++ new) behind (w.buffill + fill) whole)
            ∙ sym (append_assoc (log w.fd) old new),
      )

  -- What a buffer holds after it was flushed and given more, which fits.
  refill_lem :
      (u : WriteBuffer F) (rest : Bytes)
      → IsWritable u
      → length rest ≤ u.buf_size
      → let u' = record u { buffer = patch u.buffer 0 rest; buffill = length rest } in
        IsWritable u' × (given u' ≡ log u.fd ++ rest)
  refill_lem u rest v h =
      let behind : Bytes = drop (0 + length rest) u.buffer in
      (
        record {
          fill_le = h;
          size_is = omega (
            arith,
            length-append rest behind,
            length-drop (0 + length rest) u.buffer,
            v.size_is,
            h,
          );
        },
        ap (λ (x : Bytes). log u.fd ++ x) (take-append_exact rest behind (length rest) refl),
      )

  refilled :
      (u : WriteBuffer F) (rest : Bytes) {r : WriteBuffer F × Option Error}
      → write_rest F (u, none) rest ≡ r
      → (record u { buffer = patch u.buffer 0 rest; buffill = length rest }, none) ≡ r
  unfolding write_rest
  refilled u rest e = e

  rest_failed :
      (u w' : WriteBuffer F) (x : Error) (b : Bytes) → ¬ (write_rest F (u, some x) b ≡ (w', none))
  unfolding write_rest
  rest_failed u w' x b e = cc

  through_failed :
      (u w' : WriteBuffer F) (x : Error) (b : Bytes)
      → ¬ (write_through F (u, some x) b ≡ (w', none))
  unfolding write_through
  through_failed u w' x b e = cc

  through_ok :
      (u : WriteBuffer F) (bytes : Bytes) (n : ℕ) (fd : F.State)
      → F.write u.fd bytes ≡ ok (n, fd)
      → write_through F (u, none) bytes ≡ (record u { fd = fd }, none)
  unfolding write_through
  through_ok u bytes n fd h = rw (write_through, h)

  through_err :
      (u : WriteBuffer F) (bytes : Bytes) (x : Error)
      → F.write u.fd bytes ≡ err x
      → write_through F (u, none) bytes ≡ (u, some x)
  unfolding write_through
  through_err u bytes x h = rw (write_through, h)

  write_through_lem :
      (u w' : WriteBuffer F) (bytes : Bytes)
      → IsWritable u
      → u.buffill ≡ 0
      → write_through F (u, none) bytes ≡ (w', none)
      → IsWritable w' × (given w' ≡ log u.fd ++ bytes)
  write_through_lem u w' bytes v z p = go (F.write u.fd bytes) refl
    where
      go :
          (r : Result (ℕ × F.State))
          → F.write u.fd bytes ≡ r
          → IsWritable w' × (given w' ≡ log u.fd ++ bytes)
      go (err x) q = absurd (cc (sym (through_err u bytes x q) ∙ p))
      go (ok (n, fd)) q =
          let l = (W.takes u.fd fd n bytes q).0 in
          subst (λ (y : WriteBuffer F). IsWritable y × (given y ≡ log u.fd ++ bytes))
            (ap (λ (x : WriteBuffer F × Option Error). x.0) (sym (through_ok u bytes n fd q) ∙ p))
            (record { fill_le = v.fill_le; size_is = v.size_is }, rw z (append-nil (log fd) ∙ l))

  -- If each write call takes all it is given, a write that does not throw on a buffer in order
  -- leaves the buffer in order, and has put the bytes behind all that was given before: in the
  -- buffer or in the descriptor.
  pub write_lem :
      (w w' : WriteBuffer F) (bytes : Bytes)
      → IsWritable w
      → BufferFd.write F w bytes ≡ (w', none)
      → IsWritable w' × (given w' ≡ given w ++ bytes)
  write_lem w w' bytes v e =
      elim (Bool-cases (ltb (w.buf_size - w.buffill + w.buf_size) (length bytes))) [
        | inl h ↦ through (flush F w) refl (sym (through-eq w bytes h) ∙ e)
        | inr h ↦ elim (Bool-cases (ltb 0 (length (rest_of w bytes)))) [
          | inl k ↦ rest h k (flush F (filled w bytes)) refl (sym (rest-eq w bytes h k) ∙ e)
          | inr k ↦
              let (v', g) = filled_lem w bytes v in
              let none_left : length (rest_of w bytes) ≡ 0 = ground arith in
              let all : take (min (w.buf_size - w.buffill) (length bytes)) bytes ≡ bytes =
                take_all bytes (min (w.buf_size - w.buffill) (length bytes)) (
                  omega (
                    arith,
                    none_left,
                    length-drop (min (w.buf_size - w.buffill) (length bytes)) bytes,
                  )) in
              subst (λ (y : WriteBuffer F). IsWritable y × (given y ≡ given w ++ bytes))
                (ap (λ (x : WriteBuffer F × Option Error). x.0) (sym (fill-eq w bytes h k) ∙ e))
                (v', g ∙ ap (λ (x : Bytes). given w ++ x) all)
        ]
      ]
    where
      through :
          (r : WriteBuffer F × Option Error)
          → flush F w ≡ r
          → write_through F r bytes ≡ (w', none)
          → IsWritable w' × (given w' ≡ given w ++ bytes)
      through (u, some x) q p = absurd (through_failed u w' x bytes p)
      through (u, none) q p =
          let (v', z, l, b) = flush_lem w u v q in
          let (v'', g) = write_through_lem u w' bytes v' z p in
          (v'', g ∙ ap (λ (x : Bytes). x ++ bytes) l)

      rest :
          ltb (w.buf_size - w.buffill + w.buf_size) (length bytes) ≡ false
          → ltb 0 (length (rest_of w bytes)) ≡ true
          → (r : WriteBuffer F × Option Error) → flush F (filled w bytes) ≡ r
          → write_rest F r (rest_of w bytes) ≡ (w', none)
          → IsWritable w' × (given w' ≡ given w ++ bytes)
      rest h k (u, some x) q p = absurd (rest_failed u w' x (rest_of w bytes) p)
      rest h k (u, none) q p =
          let fill = min (w.buf_size - w.buffill) (length bytes) in
          let (v1, g1) = filled_lem w bytes v in
          let (v2, z, l, b) = flush_lem (filled w bytes) u v1 q in
          let short : length bytes ≤ w.buf_size - w.buffill + w.buf_size = ground arith in
          let fits : length (rest_of w bytes) ≤ u.buf_size =
            omega (arith, length-drop fill bytes, b, short) in
          let (v3, g3) = refill_lem u (rest_of w bytes) v2 fits in
          subst (λ (y : WriteBuffer F). IsWritable y × (given y ≡ given w ++ bytes))
            (ap (λ (x : WriteBuffer F × Option Error). x.0) (refilled u (rest_of w bytes) p))
            (
              v3,
              g3
                  ∙ ap (λ (x : Bytes). x ++ rest_of w bytes) (l ∙ g1)
                  ∙ append_assoc (given w) (take fill bytes) (rest_of w bytes)
                  ∙ ap (λ (x : Bytes). given w ++ x) (take-append-drop fill bytes),
            )
