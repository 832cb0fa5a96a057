-- ===== src/Crypto.antt =====
-- crypto.cpp: the encrypted stream behind the header, as `encrypt_file` writes it and `decrypt_file`
-- reads it. What goes through the pipes to and from gzip is a byte string.
pub mod Position
pub mod Stream
pub mod Emit
pub mod Scan
pub mod Round
pub mod Loop
pub mod Blocks
pub mod Zeros
pub mod RoundTrip
pub mod Overrun
pub mod Restart
pub mod Fuel
pub mod Keeps
use rsyncrypto.Prelude.{
  ℕ, zero, suc, ◌+◌, ◌-◌, Bool, true, false, not, ◌&&◌, ◌||◌, Bytes, List, [], ◌∷◌, ◌++◌, Result,
  ok, err, Error, ◌>>=◌, ◌==◌, ltb, leb, if◌then◌else◌, length, take, drop,
}
use rsyncrypto.AesCrypt.{
  Aes, AesKey, init_encrypt, calc_boundry, encrypt_block, decrypt_block, block_size,
}

-- The variables of the loop in `encrypt_file`: `buffer` is the first `i` bytes of the buffer, and
-- `written` is what has been written to `tofd` behind the place of the header.
pub record EncryptState : Type 0 where
  pub header : AesKey
  pub buffer : Bytes
  pub new_block : Bool
  pub written : Bytes

-- The variables of the loop in `decrypt_file`: `unread` is what is left of the file.
pub record DecryptState : Type 0 where
  pub header : AesKey
  pub buffer : Bytes
  pub new_block : Bool
  pub done : Bool
  pub currpos : ℕ
  pub unread : Bytes
  pub written : Bytes

-- `for( i=0; i<block_size && !new_block; ++i ) new_block=header->calc_boundry(buffer[i]);`
pub scan : AesKey → Bytes → AesKey × ℕ × Bool
scan k [] = (k, 0, false)
scan k (c ∷ cs) =
    let (k', border) = calc_boundry k c in
    let rest = scan k' cs in if border then (k', 1, true) else (rest.0, rest.1 + 1, rest.2)

-- The loops that refuse a byte other than 0.
pub all_zero : Bytes → Bool
all_zero [] = true
all_zero (c ∷ cs) = c == 0 && all_zero cs

module _ (a : Aes) where
  -- One round of the loop of `encrypt_file`, on the byte that was read.
  unfoldable pub encrypt_byte : EncryptState → ℕ → EncryptState
  encrypt_byte s c =
      let k = if s.new_block then init_encrypt s.header else s.header in
      let (k', border) = calc_boundry k c in
      let buffer = s.buffer ++ (c ∷ []) in
      if leb block_size (length buffer) || border
      then (let (k'', out) = encrypt_block a k' buffer in
          record { header = k''; buffer = []; new_block = border; written = s.written ++ out })
      else record { header = k'; buffer = buffer; new_block = border; written = s.written }

  unfoldable pub encrypt_loop : EncryptState → Bytes → EncryptState
  encrypt_loop s [] = s
  encrypt_loop s (c ∷ cs) = encrypt_loop (encrypt_byte s c) cs

  -- Some leftover bytes, and the block that says how many of the last block count.
  unfoldable pub encrypt_end : EncryptState → AesKey × Bytes
  encrypt_end s =
      let (k, out) =
        if ltb 0 (length s.buffer) then encrypt_block a s.header s.buffer else (s.header, []) in
      let (k', trailer) = encrypt_block a (init_encrypt k) (length s.buffer ∷ []) in
      (k', s.written ++ (out ++ trailer))

  -- All that is written behind the header for the output of gzip.
  unfoldable pub encrypt_stream : AesKey → Bytes → AesKey × Bytes
  encrypt_stream k stream =
      encrypt_end
        (encrypt_loop (record { header = k; buffer = []; new_block = true; written = [] }) stream)

  -- The body of the loop of `decrypt_file`, on what `read` put into the buffer.
  unfoldable pub decrypt_round : ℕ → DecryptState → Result DecryptState
  decrypt_round st_size s =
      let cipher = take block_size s.unread in
      let currpos = s.currpos + length cipher in
      let k = if s.new_block then init_encrypt s.header else s.header in
      let (k', plain) = decrypt_block a k cipher in
      let (k'', i, border) = scan k' plain in
      let done = leb st_size (currpos + block_size) in
      let s' : DecryptState = record {
        header = k'';
        buffer = plain;
        new_block = border;
        done = done;
        currpos = currpos;
        unread = drop block_size s.unread;
        written = if done then s.written else s.written ++ take i plain;
      } in
      if ltb (length cipher) block_size
      then err Error.unexpected_file_end
      else if done && ltb st_size (currpos + block_size)
      then err Error.uneven_file_end
      else if all_zero (drop i plain)
      then ok s'
      else err Error.error_in_stream

  -- `while( !done && (numread=fromfd.read( buffer.get(), block_size))!=0 )`, on fuel.
  unfoldable pub decrypt_loop : ℕ → ℕ → DecryptState → Result DecryptState
  decrypt_loop zero st_size s = err Error.out_of_fuel
  decrypt_loop (suc fuel) st_size s = elim (s.done || length s.unread == 0) [
    | true ↦ ok s
    | false ↦ decrypt_round st_size s >>= λ s'. decrypt_loop fuel st_size s'
  ]

  -- `buffer2`, and the write of the last block.
  unfoldable pub trailer : DecryptState → Bytes → Result Bytes
  trailer s [] = err Error.unexpected_end_past_checks
  trailer s (n ∷ rest) =
      if not (all_zero rest)
      then err Error.error_in_trailer
      else if leb block_size n
      then err Error.error_in_trailer_2
      else ok (s.written ++ take (if n == 0 then block_size else n) s.buffer)

  unfoldable pub decrypt_end : DecryptState → Result (AesKey × Bytes)
  decrypt_end s =
      let cipher = take block_size s.unread in
      let (k, plain) = decrypt_block a (init_encrypt s.header) cipher in
      if not (length cipher == block_size)
      then err Error.unexpected_end_past_checks
      else trailer s plain >>= λ out. ok (k, out)

  -- What is written to gunzip, from the place of the first block, the size of the file and the
  -- bytes from that place on.
  unfoldable pub decrypt_stream : AesKey → ℕ → ℕ → Bytes → Result (AesKey × Bytes)
  decrypt_stream k currpos st_size bytes =
      decrypt_loop (suc (length bytes)) st_size (record {
        header = k;
        buffer = [];
        new_block = true;
        done = false;
        currpos = currpos;
        unread = bytes;
        written = [];
      })
      >>= decrypt_end
