-- ===== src/KeyFile/Word.antt =====
-- Words in network order.
use rsyncrypto.Prelude.{ℕ, ◌<◌, Bytes, ◌++◌, ok, ◌≡◌, ap, arith}
use rsyncrypto.KeyFile.{be32, be16, read_be32, read_be16}

pub read_be32-be32 : (n : ℕ) (rest : Bytes) → n < 0x100000000 → read_be32 (be32 n ++ rest) ≡ ok n
unfolding be32 read_be32
read_be32-be32 n rest h = ap ok (omega arith)

pub read_be16-be16 : (n : ℕ) (rest : Bytes) → n < 0x10000 → read_be16 (be16 n ++ rest) ≡ ok n
unfolding be16 read_be16
read_be16-be16 n rest h = ap ok (omega arith)
