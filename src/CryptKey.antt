-- ===== src/CryptKey.antt =====
-- crypt_key.h and crypt_key.cpp: the header of a key, and the rolling sum over the plaintext that
-- decides where the cipher is started anew.
pub mod Tracks
pub mod Window
use rsyncrypto.Prelude.{
  ℕ, ◌+◌, ◌-◌, ◌*◌, ◌%◌, ◌<◌, Bool, true, false, ◌&&◌, Bytes, ◌==◌, u64, get_or, set, if◌then◌else◌,
}

-- `key::ext_key_header`. A cypher is its number in `CYPHER_TYPES`, and `CYPHER_AES` is 0.
pub record Header : Type 0 where
  pub version : ℕ
  pub cypher : ℕ
  pub key_size : ℕ
  pub sum_span : ℕ
  pub sum_mod : ℕ
  pub sum_min_dist : ℕ

abbrev pub version_magic_1 : ℕ
version_magic_1 = 0xD657EA1C

abbrev pub cypher_aes : ℕ
cypher_aes = 0

-- The private members of `key` behind the header.
pub record PtBuf : Type 0 where
  pub plaintext_buffer : Bytes
  pub ptbuf_loc : ℕ
  pub ptbuf_count : ℕ
  pub ptbuf_sum : ℕ
  pub ptbuf_sub : Bool
  pub ptbuf_may_rotate : Bool

-- `key::init_encrypt`: the buffer keeps its bytes.
unfoldable pub init_encrypt : PtBuf → PtBuf
init_encrypt p = record p {
  ptbuf_loc = 0;
  ptbuf_count = 0;
  ptbuf_sum = 0;
  ptbuf_sub = false;
  ptbuf_may_rotate = false;
}

-- The new `ptbuf_sum`, an `unsigned long`.
abbrev add_and_drop : PtBuf → ℕ → ℕ
add_and_drop p byte =
    let added = u64 (p.ptbuf_sum + byte) in
    if p.ptbuf_sub
    then u64 (added + 0x10000000000000000 - get_or p.plaintext_buffer p.ptbuf_loc 0)
    else added

-- `key::calc_boundry`: the state behind the byte, and whether a block ends there.
unfoldable pub calc_boundry : Header → PtBuf → ℕ → PtBuf × Bool
calc_boundry h p byte =
    let sum' = add_and_drop p byte in
    let loc' = u64 (p.ptbuf_loc + 1) in
    let at_end = loc' == h.sum_span in
    let may' = if p.ptbuf_count == h.sum_min_dist then true else p.ptbuf_may_rotate in
    (
      record {
        plaintext_buffer = set p.plaintext_buffer p.ptbuf_loc byte;
        ptbuf_loc = if at_end then 0 else loc';
        ptbuf_count = u64 (p.ptbuf_count + 1);
        ptbuf_sum = sum';
        ptbuf_sub = if at_end then true else p.ptbuf_sub;
        ptbuf_may_rotate = may';
      },
      may' && (sum' % h.sum_mod == 0),
    )

-- What the arithmetic needs of a header: no empty window and no division by zero, and the widths
-- of the fields.
pub record IsUsable (h : Header) : Type 0 where
  pub span_pos : 0 < h.sum_span
  pub span_fits : h.sum_span < 0x100000000
  pub mod_pos : 0 < h.sum_mod
  pub dist_fits : h.sum_min_dist < 0x100000000
