-- ===== src/Crypto/Round.antt =====
-- One round of the loop of `decrypt_file` on a block that `encrypt_file` wrote.
use rsyncrypto.Prelude.{
  ℕ, ◌+◌, ◌<◌, ◌≤◌, true, false, Bytes, ◌++◌, ok, ◌==◌, ltb, leb, if◌then◌else◌, length, take, drop,
  ◌≡◌, ◌∙◌, ap, arith, take-append_exact, drop-append_exact, length-append,
}
use rsyncrypto.CryptKey.{IsUsable}
use rsyncrypto.AesCrypt.{Aes, AesKey, IsCbc, padded, block_size, init_encrypt, decrypt_block}
use rsyncrypto.Crypto.{DecryptState, scan, all_zero, decrypt_round}
use rsyncrypto.Crypto.Position.{
  Fixed, IsAt, IsOn, resume-IsOn, decrypt_block-out, decrypt_block-IsOn,
}

module _ (a : Aes) (f : Fixed) (L : IsCbc a f.secret) (u : IsUsable f.header) where
  module _ (s : DecryptState) (ivec hist chunk rest : Bytes)
      (at : IsAt f ivec hist s.new_block s.header) (pos : 0 < length chunk)
      (fits : length chunk ≤ block_size)
      (unread : s.unread ≡ (a.cbc_encrypt f.secret ivec chunk).0 ++ rest) where
    abbrev cipher : Bytes
    cipher = (a.cbc_encrypt f.secret ivec chunk).0

    abbrev pub opened : AesKey × Bytes
    opened = decrypt_block a (if s.new_block then init_encrypt s.header else s.header) cipher

    length-cipher : length cipher ≡ block_size
    length-cipher = L.length-encrypt ivec chunk pos fits

    pub opened-padded : opened.1 ≡ padded chunk
    opened-padded =
        decrypt_block-out f u a _ ivec hist cipher
          (resume-IsOn f u s.header ivec hist s.new_block at)
        ∙ ap (λ (p : Bytes × Bytes). p.0) (L.decrypt-encrypt ivec chunk pos fits)

    pub opened-IsOn : IsOn f (a.cbc_encrypt f.secret ivec chunk).1 hist opened.0
    opened-IsOn = rw (L.decrypt-encrypt ivec chunk pos fits) at (
        decrypt_block-IsOn f u a _ ivec hist cipher
          (resume-IsOn f u s.header ivec hist s.new_block at))

    pub round-eq :
        (st_size : ℕ)
        → st_size ≡ s.currpos + length s.unread
        → block_size ≤ length rest
        → all_zero (drop (scan opened.0 (padded chunk)).1 (padded chunk)) ≡ true
        → decrypt_round a st_size s
          ≡ ok (record {
            header = (scan opened.0 (padded chunk)).0;
            buffer = padded chunk;
            new_block = (scan opened.0 (padded chunk)).2;
            done = length rest == block_size;
            currpos = s.currpos + block_size;
            unread = rest;
            written =
                if length rest == block_size
                then s.written
                else s.written ++ take (scan opened.0 (padded chunk)).1 (padded chunk);
          })
    unfolding decrypt_round
    round-eq st_size e more zeros =
        let taken : take block_size s.unread ≡ cipher =
          rw (unread) (take-append_exact cipher rest block_size length-cipher) in
        let dropped : drop block_size s.unread ≡ rest =
          rw (unread) (drop-append_exact cipher rest block_size length-cipher) in
        let size : length s.unread ≡ block_size + length rest =
          ap length unread
          ∙ length-append cipher rest
          ∙ ap (λ (n : ℕ). n + length rest) length-cipher in
        let last : leb st_size (s.currpos + block_size + block_size) ≡ (length rest == block_size) =
          ground arith in
        let even : ltb st_size (s.currpos + block_size + block_size) ≡ false = ground arith in
        rw (taken, dropped, opened-padded, length-cipher, zeros, last, even) (ground arith)
