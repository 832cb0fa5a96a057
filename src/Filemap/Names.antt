-- ===== src/Filemap/Names.antt =====
-- The names in the encrypted directory: `autofd::combine_paths`, `bin2hex` and
-- `filemap::nest_name`.
use rsyncrypto.Prelude.{
  ℕ, zero, suc, ◌+◌, ◌-◌, ◌/◌, ◌%◌, ◌<◌, not, ◌&&◌, Bytes, IsByte, [], ◌∷◌, ◌++◌, reverse, ◌==◌,
  ltb, if◌then◌else◌, Result, ok, err, Error, length, take, get_or, All, arith,
}
use rsyncrypto.Filemap.{dirsep_c}
use rsyncrypto.Recover.{is_hex}
use rsyncrypto.Recover.Records.{IsHex}

-- `for( i=0; right[i]==DIRSEP_C; ++i )`
unfoldable pub trim_leading : Bytes → Bytes
trim_leading [] = []
trim_leading (c ∷ rest) = if c == dirsep_c then trim_leading rest else c ∷ rest

-- The same loop from the end, which keeps the first character.
unfoldable pub trim_trailing : Bytes → Bytes
unfolding trim_leading
trim_trailing [] = []
trim_trailing (c ∷ rest) = c ∷ reverse (trim_leading (reverse rest))

-- `autofd::combine_paths`; `last` is the character before the end.
unfoldable pub combine_paths : Bytes → Bytes → Bytes
unfolding trim_leading trim_trailing
combine_paths left right =
    let ret = trim_trailing left in
    let last = get_or ret (length ret - 1) 0 in
    (if ltb 0 (length ret) && not (last == dirsep_c) then ret ++ dirsep_c ∷ [] else ret)
    ++ trim_leading right

-- `convertable[n]`
unfoldable pub hex_digit : ℕ → ℕ
hex_digit n = if ltb n 10 then 48 + n else 55 + n

unfoldable pub bin2hex : Bytes → Bytes
unfolding hex_digit
bin2hex [] = []
bin2hex (b ∷ bytes) = hex_digit (b / 16) ∷ hex_digit (b % 16) ∷ bin2hex bytes

-- The loop of `nest_name`: with `name` as it came, and `nestlevel` rounds to go. A round takes
-- `nestlevel` characters from `name.c_str()`, whose last one is the NUL behind the name: it reads behind
-- that if the nesting is deeper. Up to there `c_str()` of what it takes is the front of the name.
unfoldable pub nest_loop : Bytes → ℕ → Bytes → Result Bytes
unfolding combine_paths
nest_loop name zero retval = ok retval
nest_loop name (suc nestlevel) retval =
    let nested = nest_loop name nestlevel (combine_paths (take (suc nestlevel) name) retval) in
    if ltb (length name) nestlevel then err Error.out_of_bounds else nested

unfoldable pub nest_name : ℕ → Bytes → Result Bytes
unfolding nest_loop
nest_name nenest name = nest_loop name nenest name

-- The name that bin2hex makes of bytes consists of the hexadecimal digits that rsyncrypto_recover
-- accepts in an encrypted name.
pub bin2hex-IsHex : (bytes : Bytes) → All IsByte bytes → All IsHex (bin2hex bytes)
unfolding bin2hex hex_digit is_hex
bin2hex-IsHex [] h = tt
bin2hex-IsHex (b ∷ bytes) h = (
  digit-IsHex (b / 16) (omega (arith, h.0)),
  (digit-IsHex (b % 16) (omega arith), bin2hex-IsHex bytes h.1),
)
  where
    digit-IsHex : (n : ℕ) → n < 16 → IsHex (hex_digit n)
    digit-IsHex n k = ground arith
