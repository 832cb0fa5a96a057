-- ===== src/Crypto/Blocks.antt =====
-- The loop of `decrypt_file` over one block that `encrypt_file` wrote: the last one, and one with
-- more behind it.
use rsyncrypto.Prelude.{
  ℕ, suc, ◌+◌, ◌-◌, ◌<◌, ◌≤◌, Bool, true, false, Bytes, [], ◌∷◌, ◌++◌, reverse, ◌==◌, if◌then◌else◌,
  length, take, replicate, ◌≡◌, refl, ◌∙◌, ap, arith, take-append_exact, take_all, length-append,
  append_assoc,
}
use rsyncrypto.CryptKey.{IsUsable}
use rsyncrypto.AesCrypt.{Aes, AesKey, IsCbc, padded, length-padded, block_size}
use rsyncrypto.Crypto.{DecryptState, scan}
use rsyncrypto.Crypto.Position.{Fixed, IsIdle, IsAt, IsAt-IsIdle}
use rsyncrypto.Crypto.Stream.{emit, trailer_of, leftover}
use rsyncrypto.Crypto.Scan.{all_zero-drop}
use rsyncrypto.Crypto.Round.{opened, round-eq}
use rsyncrypto.Crypto.Loop.{length-trailer_of, Gives, loop-round, loop-done, length-emit}

module _ (a : Aes) (f : Fixed) (L : IsCbc a f.secret) (u : IsUsable f.header) where
  -- What the loop has when it comes to the bytes `pend ++ stream`, of which `pend` is known not to
  -- end a block.
  pub record Waits (st_size fuel : ℕ) (s : DecryptState) (ivec hist pend stream : Bytes)
      : Type 0 where
    pub at : IsAt f ivec hist s.new_block s.header
    pub not_done : s.done ≡ false
    pub unread :
        s.unread
        ≡ emit a f ivec (reverse pend ++ hist) pend stream
          ++ trailer_of a f (leftover f.header (reverse pend ++ hist) pend stream)
    pub size : st_size ≡ s.currpos + length s.unread
    pub fuel_left : length s.unread < fuel

  module _ (st_size fuel : ℕ) (s : DecryptState) (ivec hist chunk : Bytes)
      (at : IsAt f ivec hist s.new_block s.header) (not_done : s.done ≡ false)
      (size : st_size ≡ s.currpos + length s.unread) (fuel_left : length s.unread < suc fuel)
      (pos : 0 < length chunk) (fits : length chunk ≤ block_size) where
    abbrev pub cipher : Bytes
    cipher = (a.cbc_encrypt f.secret ivec chunk).0

    pub length-rest :
        (rest : Bytes) → s.unread ≡ cipher ++ rest → length s.unread ≡ block_size + length rest
    length-rest rest e =
        ap length e
        ∙ length-append cipher rest
        ∙ ap (λ (n : ℕ). n + length rest) (L.length-encrypt ivec chunk pos fits)

    -- The last block, with the trailer behind it.
    pub last_block :
        (k : AesKey) (i n : ℕ) (border : Bool) (unread : s.unread ≡ cipher ++ trailer_of a f n)
        → scan (opened a f L u s ivec hist chunk _ at pos fits unread).0 (padded chunk)
          ≡ (k, i, border)
        → IsIdle f k
        → length chunk ≤ i
        → n < block_size
        → 0 < fuel
        → Gives a f L u
            (suc fuel)
            st_size
            s
            (s.written ++ take (if n == 0 then block_size else n) (padded chunk))
    last_block k i n border unread e idle far small more =
        let done : (length (trailer_of a f n) == block_size) ≡ true =
          ground (arith, length-trailer_of a f L u n) in
        let zeros = all_zero-drop chunk (block_size - length chunk) i far in
        loop-round a f L u fuel st_size s _ _ not_done (omega (arith, length-rest _ unread))
          (round-eq a f L u s ivec hist chunk _ at pos fits unread st_size size
              (omega (arith, length-trailer_of a f L u n)) (rw e zeros)
            ∙ rw (e, done))
          (loop-done a f L u fuel st_size n
            (record {
              header = k;
              buffer = padded chunk;
              new_block = border;
              done = true;
              currpos = s.currpos + block_size;
              unread = trailer_of a f n;
              written = s.written;
            })
            more refl idle small refl)

    -- A block with more behind it.
    mid_block :
        (k : AesKey) (border : Bool) (ivec' hist' cs zeros : Bytes)
        (unread : s.unread
          ≡ cipher
            ++ (emit a f ivec' hist' [] cs ++ trailer_of a f (leftover f.header hist' [] cs)))
        → scan (opened a f L u s ivec hist chunk _ at pos fits unread).0 (padded chunk)
          ≡ (k, length chunk, border)
        → IsAt f ivec' hist' border k
        → 0 < length cs
        → ((s' : DecryptState)
            → 0 < length cs
            → Waits st_size fuel s' ivec' hist' [] cs
            → Gives a f L u fuel st_size s' (s'.written ++ (cs ++ zeros)))
        → Gives a f L u (suc fuel) st_size s (s.written ++ (chunk ++ (cs ++ zeros)))
    mid_block k border ivec' hist' cs zeros unread e at' more next =
        let blocks = emit a f ivec' hist' [] cs in
        let n = leftover f.header hist' [] cs in
        let long : length (blocks ++ trailer_of a f n) ≡ length blocks + block_size =
          length-append blocks (trailer_of a f n)
          ∙ ap (◌+◌ (length blocks)) (length-trailer_of a f L u n) in
        let some_block : block_size ≤ length blocks =
          length-emit a f L u cs ivec' hist' [] (omega (arith, more)) (omega arith) in
        let not_last : (length (blocks ++ trailer_of a f n) == block_size) ≡ false =
          ground (arith, long, some_block) in
        let far = all_zero-drop chunk (block_size - length chunk) (length chunk) (omega arith) in
        let whole = length-rest _ unread in
        let s' : DecryptState = record {
          header = k;
          buffer = padded chunk;
          new_block = border;
          done = false;
          currpos = s.currpos + block_size;
          unread = blocks ++ trailer_of a f n;
          written = s.written ++ chunk;
        } in
        loop-round a f L u fuel st_size s s' _ not_done (omega (arith, whole))
          (round-eq a f L u s ivec hist chunk _ at pos fits unread st_size size
              (omega (arith, long)) (rw e far)
            ∙ rw (
              e,
              not_last,
              take-append_exact chunk (replicate (block_size - length chunk) 0) _ refl,
            ))
          (rw append_assoc at (
            next s' more (record {
              at = at';
              not_done = refl;
              unread = refl;
              size = omega (arith, whole);
              fuel_left = omega (arith, whole);
            })))

    -- A block that was written whole, or cut.
    pub block :
        (k : AesKey) (border : Bool) (ivec' hist' cs : Bytes) (z : ℕ)
        (unread : s.unread
          ≡ cipher
            ++ (emit a f ivec' hist' [] cs ++ trailer_of a f (leftover f.header hist' [] cs)))
        → scan (opened a f L u s ivec hist chunk _ at pos fits unread).0 (padded chunk)
          ≡ (k, length chunk, border)
        → IsAt f ivec' hist' border k
        → ((s' : DecryptState)
            → 0 < length cs
            → Waits st_size fuel s' ivec' hist' [] cs
            → Gives a f L u fuel st_size s' (s'.written ++ (cs ++ replicate z 0)))
        → Gives a f L u (suc fuel) st_size s (
            s.written
            ++ (chunk
                ++ (cs ++ replicate (if length cs == 0 then block_size - length chunk else z) 0)))
    unfolding emit leftover
    block k border ivec' hist' [] z unread e at' next =
        let n = length-rest _ unread in
        rw (take_all (padded chunk) block_size (omega (arith, length-padded chunk fits))) at (
          last_block k (length chunk) 0 border unread e (IsAt-IsIdle f u k ivec' hist' border at')
            (omega arith) (omega arith) (omega (arith, n, length-trailer_of a f L u 0)))
    block k border ivec' hist' (d ∷ ds) z unread e at' next =
        let more : (length (d ∷ ds) == 0) ≡ false = ground arith in
        rw more
          (mid_block k border ivec' hist' (d ∷ ds) (replicate z 0) unread e at' (omega arith) next)
