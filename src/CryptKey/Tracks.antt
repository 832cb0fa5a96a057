-- ===== src/CryptKey/Tracks.antt =====
-- What the ring of `calc_boundry` holds, after any bytes since the start.
use rsyncrypto.Prelude.{
  ℕ, ◌+◌, ◌<◌, true, Bytes, IsByte, ltb, u64, get_or, if◌then◌else◌, ◌≡◌, refl, sym, ap, ◌∙◌, [],
  ◌∷◌, ◌++◌, reverse, append-nil, append_assoc, length, All, sum, sum-nil, sum-cons, sum-reverse,
  sum_bound, get_or-append_exact, set-append_exact, length-append, length-reverse, arith,
  Bool-cases, inl, inr, All-reverse,
}
use mathlib.Core.List.{reverse-append, reverse-reverse}
use rsyncrypto.CryptKey.{Header, PtBuf, init_encrypt, calc_boundry, IsUsable}

-- The ring holds the bytes since its last wrap, `front`, and behind them those from before it.
-- `sub` says that the ring has wrapped since the start: then `back` is part of the window.
pub record Tracks (h : Header) (hist : Bytes) (p : PtBuf) : Type 0 where
  pub front : Bytes
  pub back : Bytes
  pub older : Bytes
  pub ring : p.plaintext_buffer ≡ reverse front ++ back
  pub loc_is : p.ptbuf_loc ≡ length front
  pub back_pos : 0 < length back
  pub size_is : length front + length back ≡ h.sum_span
  pub sum_is : p.ptbuf_sum ≡ sum front + (if p.ptbuf_sub then sum back else 0)
  pub hist_is : hist ≡ (if p.ptbuf_sub then front ++ (reverse back ++ older) else front)
  pub may_is : p.ptbuf_may_rotate ≡ ltb h.sum_min_dist (length hist)
  pub count_is : p.ptbuf_count ≡ u64 (length hist)
  pub front_bytes : All IsByte front
  pub back_bytes : All IsByte back

-- The accesses to the ring stay inside it.
pub Tracks-loc_lt :
    {h : Header} {hist : Bytes} {p : PtBuf}
    → Tracks h hist p
    → p.ptbuf_loc < length p.plaintext_buffer
Tracks-loc_lt {h} {hist} {p} t = rw (t.ring) (
    omega
      (arith, length-append (reverse t.front) t.back, length-reverse t.front, t.loc_is, t.back_pos))

module _ (h : Header) (u : IsUsable h) where
  -- A fresh start tracks the empty history, whatever bytes the ring still holds.
  pub init_encrypt-Tracks :
      (p : PtBuf)
      → length p.plaintext_buffer ≡ h.sum_span
      → All IsByte p.plaintext_buffer
      → Tracks h [] (init_encrypt p)
  unfolding init_encrypt
  init_encrypt-Tracks p e bytes = record {
    front = [];
    back = p.plaintext_buffer;
    older = [];
    ring = refl;
    loc_is = refl;
    back_pos = omega (arith, u.span_pos);
    size_is = omega arith;
    sum_is = ground (arith, sum-nil);
    hist_is = refl;
    may_is = ground arith;
    count_is = refl;
    front_bytes = tt;
    back_bytes = bytes;
  }

  module _ (p : PtBuf) (hist : Bytes) (c : ℕ) (byte : IsByte c) where
    may_step :
        p.ptbuf_may_rotate ≡ ltb h.sum_min_dist (length hist)
        → p.ptbuf_count ≡ u64 (length hist)
        → (calc_boundry h p c).0.ptbuf_may_rotate ≡ ltb h.sum_min_dist (length (c ∷ hist))
    unfolding calc_boundry
    may_step m k = ground (arith, u.dist_fits)

    -- The sum never wraps, so it is the sum of the window.
    sum_step :
        (front back : Bytes) (b : ℕ)
        → p.plaintext_buffer ≡ reverse front ++ (b ∷ back)
        → p.ptbuf_loc ≡ length front
        → length front + length (b ∷ back) ≡ h.sum_span
        → p.ptbuf_sum ≡ sum front + (if p.ptbuf_sub then sum (b ∷ back) else 0)
        → All IsByte front
        → All IsByte (b ∷ back)
        → (calc_boundry h p c).0.ptbuf_sum ≡ sum (c ∷ front) + (if p.ptbuf_sub then sum back else 0)
    unfolding calc_boundry
    sum_step front back b ring loc size total fb bb =
        let here : get_or p.plaintext_buffer p.ptbuf_loc 0 ≡ b =
          rw (ring)
            (get_or-append_exact (reverse front) b back _ 0 (length-reverse front ∙ sym loc)) in
        ground (
          arith,
          here,
          sum-cons c front,
          sum-cons b back,
          sum_bound front fb,
          sum_bound back bb.1,
          bb.0,
          u.span_fits,
        )

  module _ (p : PtBuf) (hist : Bytes) (c : ℕ) (byte : IsByte c) where
    ring_step :
        (front back : Bytes) (b : ℕ)
        → p.plaintext_buffer ≡ reverse front ++ (b ∷ back)
        → p.ptbuf_loc ≡ length front
        → (calc_boundry h p c).0.plaintext_buffer ≡ reverse (c ∷ front) ++ back
    unfolding calc_boundry
    ring_step front back b ring loc = rw (ring) (
        set-append_exact (reverse front) b back _ c (length-reverse front ∙ sym loc)
        ∙ sym (append_assoc (reverse front) (c ∷ []) back)
        ∙ ap (λ (xs : Bytes). xs ++ back) (sym (reverse-append (c ∷ []) front)))

    sum_of_step :
        (t : Tracks h hist p) (b : ℕ) (back : Bytes)
        → t.back ≡ b ∷ back
        → (calc_boundry h p c).0.ptbuf_sum
          ≡ sum (c ∷ t.front) + (if p.ptbuf_sub then sum back else 0)
    sum_of_step t b back e =
        sum_step p hist c byte t.front back b (rw e at t.ring) t.loc_is (rw e at t.size_is)
          (rw e at t.sum_is) t.front_bytes (rw e at t.back_bytes)

    -- The place of the write is the last one of the ring.
    wrap_control :
        p.ptbuf_loc + 1 ≡ h.sum_span
        → ((calc_boundry h p c).0.ptbuf_loc ≡ 0) × ((calc_boundry h p c).0.ptbuf_sub ≡ true)
    unfolding calc_boundry
    wrap_control e = ground (arith, u.span_fits)

    -- It is not.
    inner_control :
        p.ptbuf_loc + 1 < h.sum_span
        → ((calc_boundry h p c).0.ptbuf_loc ≡ p.ptbuf_loc + 1)
          × ((calc_boundry h p c).0.ptbuf_sub ≡ p.ptbuf_sub)
    unfolding calc_boundry
    inner_control e = ground (arith, u.span_fits)

    count_step :
        p.ptbuf_count ≡ u64 (length hist)
        → (calc_boundry h p c).0.ptbuf_count ≡ u64 (length (c ∷ hist))
    unfolding calc_boundry
    count_step e = omega arith

    wrap_step :
        (t : Tracks h hist p) (b : ℕ) → t.back ≡ b ∷ [] → Tracks h (c ∷ hist) (calc_boundry h p c).0
    wrap_step t b e =
        let size = rw e at t.size_is in
        let (loc', sub') = wrap_control (omega (arith, size, t.loc_is)) in
        record {
          front = [];
          back = reverse (c ∷ t.front);
          older = if p.ptbuf_sub then b ∷ t.older else [];
          ring = ring_step t.front [] b (rw (← e) t.ring) t.loc_is ∙ append-nil _;
          loc_is = loc';
          back_pos = omega (arith, length-reverse (c ∷ t.front));
          size_is = omega (arith, length-reverse (c ∷ t.front), size);
          sum_is = ground (arith, sub', sum_of_step t b [] e, sum-nil, sum-reverse (c ∷ t.front));
          hist_is = rw (sub', reverse-reverse (c ∷ t.front)) (ap (◌∷◌ c) (wrap_hist t b e));
          may_is = may_step p hist c byte t.may_is t.count_is;
          count_is = count_step t.count_is;
          front_bytes = tt;
          back_bytes = All-reverse IsByte (c ∷ t.front) (byte, t.front_bytes);
        }
      where
        wrap_hist :
            (t : Tracks h hist p) (b : ℕ)
            → t.back ≡ b ∷ []
            → hist ≡ t.front ++ (if p.ptbuf_sub then b ∷ t.older else [])
        wrap_hist t b e = elim (Bool-cases p.ptbuf_sub) [
          | inl s ↦ rw s (rw (s, e) at t.hist_is)
          | inr s ↦ rw (s, append-nil) (rw s at t.hist_is)
        ]

    inner_step :
        (t : Tracks h hist p) (b d : ℕ) (back : Bytes)
        → t.back ≡ b ∷ d ∷ back
        → Tracks h (c ∷ hist) (calc_boundry h p c).0
    inner_step t b d back e =
        let size = rw e at t.size_is in
        let (loc', sub') = inner_control (omega (arith, size, t.loc_is)) in
        record {
          front = c ∷ t.front;
          back = d ∷ back;
          older = b ∷ t.older;
          ring = ring_step t.front (d ∷ back) b (rw (← e) t.ring) t.loc_is;
          loc_is = omega (arith, loc', t.loc_is);
          back_pos = omega arith;
          size_is = omega (arith, size);
          sum_is = rw sub' (sum_of_step t b (d ∷ back) e);
          hist_is = rw sub' (inner_hist t b (d ∷ back) e);
          may_is = may_step p hist c byte t.may_is t.count_is;
          count_is = count_step t.count_is;
          front_bytes = (byte, t.front_bytes);
          back_bytes = (rw e at t.back_bytes).1;
        }
      where
        inner_hist :
            (t : Tracks h hist p) (b : ℕ) (back : Bytes)
            → t.back ≡ b ∷ back
            → c ∷ hist ≡ (
                if p.ptbuf_sub
                then (c ∷ t.front) ++ (reverse back ++ (b ∷ t.older))
                else c ∷ t.front)
        inner_hist t b back e = elim (Bool-cases p.ptbuf_sub) [
          | inl s ↦
              rw s (ap (◌∷◌ c) (rw (s, e, reverse-append (b ∷ []) back, append_assoc) at t.hist_is))
          | inr s ↦ rw s (ap (◌∷◌ c) (rw s at t.hist_is))
        ]

    -- One byte further.
    pub calc_boundry-Tracks : Tracks h hist p → Tracks h (c ∷ hist) (calc_boundry h p c).0
    calc_boundry-Tracks t = go t.back refl
      where
        go : (back : Bytes) → t.back ≡ back → Tracks h (c ∷ hist) (calc_boundry h p c).0
        go [] e = absurd (omega (arith, t.back_pos, ap length e))
        go (b ∷ []) e = wrap_step t b e
        go (b ∷ d ∷ back) e = inner_step t b d back e
