-- ===== src/Crypto/Stream.antt =====
-- The bytes of the stream, block by block: what is written and how many bytes the trailer reports.
use rsyncrypto.Prelude.{
  ℕ, ◌<◌, true, false, Bytes, [], ◌∷◌, ◌++◌, ltb, leb, if◌then◌else◌, length, ◌≡◌, arith,
}
use rsyncrypto.CryptKey.{Header}
use rsyncrypto.CryptKey.Window.{ends_block}
use rsyncrypto.AesCrypt.{Aes, block_size}
use rsyncrypto.Crypto.Position.{Fixed}

-- The bytes of the last block that are reported in the trailer: 0 after a whole or a cut block.
unfoldable pub leftover : Header → Bytes → Bytes → Bytes → ℕ
leftover h hist pend [] = length pend
leftover h hist pend (c ∷ cs) =
    let cut = leftover h [] [] cs in
    let full = leftover h (c ∷ hist) [] cs in
    let more = leftover h (c ∷ hist) (pend ++ (c ∷ [])) cs in
    if ends_block h (c ∷ hist)
    then cut
    else if leb block_size (length (pend ++ (c ∷ [])))
    then full
    else more

module _ (a : Aes) (f : Fixed) where
  -- The blocks for the bytes `pend ++ stream`, of which `pend` begins the current block.
  unfoldable pub emit : Bytes → Bytes → Bytes → Bytes → Bytes
  emit ivec hist pend [] = if ltb 0 (length pend) then (a.cbc_encrypt f.secret ivec pend).0 else []
  emit ivec hist pend (c ∷ cs) =
      let block = pend ++ (c ∷ []) in
      let (out, ivec') = a.cbc_encrypt f.secret ivec block in
      let cut = out ++ emit f.iv [] [] cs in
      let full = out ++ emit ivec' (c ∷ hist) [] cs in
      let more = emit ivec (c ∷ hist) block cs in
      if ends_block f.header (c ∷ hist)
      then cut
      else if leb block_size (length block)
      then full
      else more

  abbrev pub trailer_of : ℕ → Bytes
  trailer_of n = (a.cbc_encrypt f.secret f.iv (n ∷ [])).0

  -- All that stands behind the header.
  unfoldable pub stream_of : Bytes → Bytes
  stream_of stream = emit f.iv [] [] stream ++ trailer_of (leftover f.header [] [] stream)

-- The three ways of a byte, as equations: the block is cut there, it is full, or it goes on.
module _ (h : Header) (hist pend cs : Bytes) (c : ℕ) where
  pub leftover_cut :
      ends_block h (c ∷ hist) ≡ true → leftover h hist pend (c ∷ cs) ≡ leftover h [] [] cs
  unfolding leftover
  leftover_cut e = rw e

  module _ (e : ends_block h (c ∷ hist) ≡ false) where
    pub leftover_full :
        leb block_size (length (pend ++ (c ∷ []))) ≡ true
        → leftover h hist pend (c ∷ cs) ≡ leftover h (c ∷ hist) [] cs
    unfolding leftover
    leftover_full n = rw (e, n)

    pub leftover_more :
        leb block_size (length (pend ++ (c ∷ []))) ≡ false
        → leftover h hist pend (c ∷ cs) ≡ leftover h (c ∷ hist) (pend ++ (c ∷ [])) cs
    unfolding leftover
    leftover_more n = rw (e, n)

module _ (a : Aes) (f : Fixed) (ivec hist pend : Bytes) where
  pub emit_end : 0 < length pend → emit a f ivec hist pend [] ≡ (a.cbc_encrypt f.secret ivec pend).0
  unfolding emit
  emit_end pos = let some : ltb 0 (length pend) ≡ true = ground arith in rw some

  module _ (c : ℕ) (cs : Bytes) where
    abbrev pub next_block : Bytes × Bytes
    next_block = a.cbc_encrypt f.secret ivec (pend ++ (c ∷ []))

    pub emit_cut :
        ends_block f.header (c ∷ hist) ≡ true
        → emit a f ivec hist pend (c ∷ cs) ≡ next_block.0 ++ emit a f f.iv [] [] cs
    unfolding emit
    emit_cut e = rw e

    module _ (e : ends_block f.header (c ∷ hist) ≡ false) where
      pub emit_full :
          leb block_size (length (pend ++ (c ∷ []))) ≡ true
          → emit a f ivec hist pend (c ∷ cs)
            ≡ next_block.0 ++ emit a f next_block.1 (c ∷ hist) [] cs
      unfolding emit
      emit_full n = rw (e, n)

      pub emit_more :
          leb block_size (length (pend ++ (c ∷ []))) ≡ false
          → emit a f ivec hist pend (c ∷ cs) ≡ emit a f ivec (c ∷ hist) (pend ++ (c ∷ [])) cs
      unfolding emit
      emit_more n = rw (e, n)
