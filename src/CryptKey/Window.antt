-- ===== src/CryptKey/Window.antt =====
-- `calc_boundry` against its meaning: a boundary is a property of the last `sum_span` bytes and of
-- the number of bytes since the start.
use rsyncrypto.Prelude.{
  ℕ, ◌+◌, ◌%◌, ◌<◌, Bool, ◌&&◌, Bytes, IsByte, ◌==◌, ltb, ◌≡◌, refl, sym, ap, ◌∙◌, [], ◌∷◌, ◌++◌,
  reverse, append_assoc, length, take, All, sum, sum-append, sum-reverse, length-append,
  length-reverse, arith, take-append_exact, take_all, Bool-cases, inl, inr,
}
use rsyncrypto.CryptKey.{Header, PtBuf, init_encrypt, calc_boundry, IsUsable}
use rsyncrypto.CryptKey.Tracks.{Tracks, Tracks-loc_lt, init_encrypt-Tracks, calc_boundry-Tracks}

-- The bytes read since the start, the last one first, end a block.
unfoldable pub ends_block : Header → Bytes → Bool
ends_block h hist =
    ltb h.sum_min_dist (length hist) && (sum (take h.sum_span hist) % h.sum_mod == 0)

verdict :
    (h : Header) (p : PtBuf) (c : ℕ)
    → (calc_boundry h p c).1 ≡ (
        (calc_boundry h p c).0.ptbuf_may_rotate
        && ((calc_boundry h p c).0.ptbuf_sum % h.sum_mod == 0))
unfolding calc_boundry
verdict h p c = refl

module _ (h : Header) (u : IsUsable h) where
  -- The window of a full ring, and the whole history before that.
  window : {p : PtBuf} {hist : Bytes} → Tracks h hist p → sum (take h.sum_span hist) ≡ p.ptbuf_sum
  window {p} {hist} t = elim (Bool-cases p.ptbuf_sub) [
    | inl s ↦
        let w : hist ≡ (t.front ++ reverse t.back) ++ t.older =
          rw s at t.hist_is ∙ sym (append_assoc t.front (reverse t.back) t.older) in
        let n : length (t.front ++ reverse t.back) ≡ h.sum_span =
          length-append t.front (reverse t.back)
          ∙ ap (◌+◌ (length t.front)) (length-reverse t.back)
          ∙ t.size_is in
        rw (w, take-append_exact (t.front ++ reverse t.back) t.older h.sum_span n)
          (sum-append t.front (reverse t.back)
            ∙ ap (◌+◌ (sum t.front)) (sum-reverse t.back)
            ∙ sym (rw s at t.sum_is))
    | inr s ↦
        let w : hist ≡ t.front = rw s at t.hist_is in
        rw (w, take_all t.front h.sum_span (omega (arith, t.size_is)))
          (omega (arith, rw s at t.sum_is))
  ]

  -- The verdict of `calc_boundry` depends on the history alone: never on what the ring held before
  -- the start, and never on a wrap of the machine words.
  pub calc_boundry-ends_block :
      (p : PtBuf) (hist : Bytes) (c : ℕ)
      → IsByte c
      → Tracks h hist p
      → (calc_boundry h p c).1 ≡ ends_block h (c ∷ hist)
  unfolding ends_block
  calc_boundry-ends_block p hist c byte t =
      let t' = calc_boundry-Tracks h u p hist c byte t in verdict h p c ∙ rw (window t', t'.may_is)

-- The state behind a history of bytes, the last one first.
unfoldable pub read_all : Header → PtBuf → Bytes → PtBuf
read_all h p [] = p
read_all h p (c ∷ hist) = (calc_boundry h (read_all h p hist) c).0

read_all-Tracks :
    (h : Header) (u : IsUsable h) (p : PtBuf) (hist : Bytes)
    → length p.plaintext_buffer ≡ h.sum_span
    → All IsByte p.plaintext_buffer
    → All IsByte hist
    → Tracks h hist (read_all h (init_encrypt p) hist)
unfolding read_all
read_all-Tracks h u p [] e ring bytes = init_encrypt-Tracks h u p e ring
read_all-Tracks h u p (c ∷ hist) e ring bytes =
    calc_boundry-Tracks h u (read_all h (init_encrypt p) hist) hist c bytes.0
      (read_all-Tracks h u p hist e ring bytes.1)

-- After init_encrypt and any bytes, with a usable header and a ring of sum_span bytes: the next
-- call of calc_boundry writes inside the ring, and it answers true exactly when more than
-- sum_min_dist bytes have come since the start and the sum of the last sum_span of them, the new
-- one included, is divisible by sum_mod.
pub calc_boundry-read_all :
    (h : Header) (u : IsUsable h) (p : PtBuf) (hist : Bytes) (c : ℕ)
    → length p.plaintext_buffer ≡ h.sum_span
    → All IsByte p.plaintext_buffer
    → All IsByte (c ∷ hist)
    → let q = read_all h (init_encrypt p) hist in
      (q.ptbuf_loc < length q.plaintext_buffer)
      × ((calc_boundry h q c).1 ≡ (
          ltb h.sum_min_dist (length (c ∷ hist))
          && (sum (take h.sum_span (c ∷ hist)) % h.sum_mod == 0)))
unfolding ends_block
calc_boundry-read_all h u p hist c e ring bytes =
    let t = read_all-Tracks h u p hist e ring bytes.1 in
    (Tracks-loc_lt t, calc_boundry-ends_block h u _ hist c bytes.0 t)
