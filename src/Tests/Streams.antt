-- ===== src/Tests/Streams.antt =====
-- The theorems on the stream at concrete data.
use rsyncrypto.Prelude.{
  ℕ, true, false, ◌&&◌, ◌==◌, ltb, ◌<◌, ◌%◌, ◌+◌, Bytes, IsByte, [], ◌∷◌, ◌++◌, ok, err, Error, All,
  length, take, replicate, sum, ◌≡◌, ◌≢◌, refl, arith,
}
use rsyncrypto.CryptKey
use rsyncrypto.CryptKey.Window.{calc_boundry-read_all, ends_block, read_all}
use rsyncrypto.AesCrypt.{AesKey}
use rsyncrypto.AesCrypt.Toy.{toy, toy-IsCbc}
use rsyncrypto.KeyFile.RoundTrip.{reread}
use rsyncrypto.Crypto.{encrypt_stream, decrypt_stream}
use rsyncrypto.Crypto.Stream.{emit, leftover, stream_of}
use rsyncrypto.Crypto.Emit.{encrypt_stream-stream_of}
use rsyncrypto.Crypto.Zeros.{overrun}
use rsyncrypto.Crypto.RoundTrip.{decrypt_stream-encrypt_stream}
use rsyncrypto.Crypto.Restart.{ends_at, encrypt_stream-append}
use rsyncrypto.Crypto.Fuel.{decrypt_stream-ne-out_of_fuel}
use rsyncrypto.CryptFile.RoundTrip.{fixed, reread-IsIdle}
use rsyncrypto.Tests.Data.{
  are_bytes-All, small, small-IsUsable, ring, key, key-IsIdle, zeros, zeros-IsMemory, heap,
}

abbrev few : Bytes
few = 1 ∷ 2 ∷ 1 ∷ 1 ∷ []

few-bytes : All IsByte few
few-bytes = are_bytes-All few refl

-- The second byte ends a block: both are over the minimal distance, and their sum is 3.
calc_boundry-read_all_example :
    let q = read_all small (CryptKey.init_encrypt (ring 2)) (1 ∷ []) in
    (q.ptbuf_loc < length q.plaintext_buffer)
    × ((CryptKey.calc_boundry small q 2).1
        ≡ (ltb 1 (length {A = ℕ} (2 ∷ 1 ∷ [])) && (sum (take 2 (2 ∷ 1 ∷ [])) % 3 == 0)))
calc_boundry-read_all_example =
    calc_boundry-read_all small small-IsUsable (ring 2) (1 ∷ []) 2 refl
      (are_bytes-All (0 ∷ 0 ∷ []) refl) (are_bytes-All (2 ∷ 1 ∷ []) refl)

encrypt_stream-stream_of_example : (encrypt_stream toy key few).1 ≡ stream_of toy (fixed key) few
encrypt_stream-stream_of_example =
    encrypt_stream-stream_of toy (fixed key) small-IsUsable key few few-bytes key-IsIdle

decrypt_stream-encrypt_stream_example :
    let written = (encrypt_stream toy key few).1 in
    (k : AesKey) × (decrypt_stream toy (reread zeros key) 42 (42 + length written) written
      ≡ ok (k, few ++ replicate (overrun small [] [] few) 0))
decrypt_stream-encrypt_stream_example =
    decrypt_stream-encrypt_stream toy (fixed key) (toy-IsCbc key.secret_key) small-IsUsable key
      (reread zeros key) 42 few key-IsIdle (reread-IsIdle zeros zeros-IsMemory heap key) few-bytes
      (omega arith)

two_left : 0 < leftover small [] [] few
unfolding leftover ends_block sum
two_left = omega arith

one_quiet : ends_block small (1 ∷ []) ≡ false
unfolding ends_block
one_quiet = refl

two_ends : ends_block small (2 ∷ 1 ∷ []) ≡ true
unfolding ends_block sum
two_ends = refl

at_two : ends_at small [] (1 ∷ 2 ∷ []) ≡ true
unfolding ends_at ends_block sum
at_two = refl

encrypt_stream-append_example :
    (encrypt_stream toy key (1 ∷ 2 ∷ few)).1
    ≡ emit toy (fixed key) (replicate 16 7) [] [] (1 ∷ 2 ∷ []) ++ (encrypt_stream toy key few).1
encrypt_stream-append_example =
    encrypt_stream-append toy (fixed key) small-IsUsable key key (1 ∷ 2 ∷ []) few key-IsIdle
      key-IsIdle (are_bytes-All (1 ∷ 2 ∷ []) refl) few-bytes at_two

decrypt_stream-ne-out_of_fuel_example : decrypt_stream toy key 42 1000 few ≢ err Error.out_of_fuel
decrypt_stream-ne-out_of_fuel_example = decrypt_stream-ne-out_of_fuel toy key 42 1000 few
