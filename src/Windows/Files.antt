-- ===== src/Windows/Files.antt =====
-- Files in win32/autofd.cpp: how one is opened, its size and position. `CreateFile` and
-- `SetFilePointer` are known by what they give.
use rsyncrypto.Prelude.{
  ℕ, ◌+◌, ◌*◌, ◌/◌, ◌%◌, ◌<◌, ◌≤◌, Bool, true, false, ◌&&◌, ltb, if◌then◌else◌, ◌≡◌, ◌≢◌, ◌↔◌, ◌⊎◌,
  inl, inr, arith,
}

-- The flags of `open` that `autofd::autofd` reads.
pub record Flags : Type 0 where
  pub o_creat : Bool
  pub o_excl : Bool
  pub o_trunc : Bool

pub data Disposition : Type 0 where
  create_new create_always open_always truncate_existing open_existing : Disposition

-- The `CHECK_MASK`s of `autofd::autofd`.
unfoldable pub disposition : Flags → Disposition
disposition flags =
    if flags.o_creat && flags.o_excl
    then Disposition.create_new
    else if flags.o_creat && flags.o_trunc
    then Disposition.create_always
    else if flags.o_creat
    then Disposition.open_always
    else if flags.o_trunc
    then Disposition.truncate_existing
    else Disposition.open_existing

-- What opening a file may do to it.
pub data Effect : Type 0 where
  fails created kept emptied : Effect

-- What the documentation of CreateFile says of a disposition, for a file that exists or does not.
unfoldable pub create_file : Disposition → Bool → Effect
create_file Disposition.create_new exists = if exists then Effect.fails else Effect.created
create_file Disposition.create_always exists = if exists then Effect.emptied else Effect.created
create_file Disposition.open_always exists = if exists then Effect.kept else Effect.created
create_file Disposition.truncate_existing exists = if exists then Effect.emptied else Effect.fails
create_file Disposition.open_existing exists = if exists then Effect.kept else Effect.fails

-- What POSIX says of the flags of `open`.
unfoldable pub posix_open : Flags → Bool → Effect
posix_open flags exists =
    if exists
    then (if flags.o_creat && flags.o_excl
        then Effect.fails
        else if flags.o_trunc
        then Effect.emptied
        else Effect.kept)
    else if flags.o_creat
    then Effect.created
    else Effect.fails

-- The disposition does to a file, there or not, what the flags of open ask for.
pub disposition-posix_open :
    (flags : Flags) (exists : Bool)
    → create_file (disposition flags) exists ≡ posix_open flags exists
unfolding create_file disposition posix_open
disposition-posix_open flags exists = ground arith

-- `st_size` of `autofd::stat` and `autofd::fstat`, from the two words of the size.
unfoldable pub st_size : ℕ → ℕ → ℕ
st_size high low = high * 0x100000000 + low

-- A word that is taken as a `LONG`, widened to 64 bits.
unfoldable pub widened : ℕ → ℕ
widened low = if ltb low 0x80000000 then low else 0xFFFFFFFF00000000 + low

-- `autofd::lseek`, of the file's position behind the call; `|=` with a negative low word overwrites
-- the high one.
unfoldable pub lseek : ℕ → ℕ
unfolding widened
lseek position =
    let offsethigh = position / 0x100000000 in
    let offsetlow = position % 0x100000000 in
    if ltb offsetlow 0x80000000 then offsethigh * 0x100000000 + offsetlow else widened offsetlow

lt_or_ge : (n m : ℕ) → (n < m) ⊎ (m ≤ n)
lt_or_ge n m = ground arith

lseek_low : (position : ℕ) → position % 0x100000000 < 0x80000000 → lseek position ≡ position
unfolding lseek
lseek_low position h =
    let low : ltb (position % 0x100000000) 0x80000000 ≡ true = ground arith in rw (low) omega arith

lseek_high :
    (position : ℕ)
    → 0x80000000 ≤ position % 0x100000000
    → position < 0x8000000000000000
    → lseek position ≢ position
unfolding lseek widened
lseek_high position h k =
    let high : ltb (position % 0x100000000) 0x80000000 ≡ false = ground arith in
    rw (high) omega arith

-- For a position of 63 bits, lseek of win32 returns the position exactly if the lower half of it
-- is below 2^31.
pub lseek-position :
    (position : ℕ)
    → position < 0x8000000000000000
    → (lseek position ≡ position) ↔ (position % 0x100000000 < 0x80000000)
lseek-position position h = (
  λ e. elim (lt_or_ge (position % 0x100000000) 0x80000000) [
    | inl low ↦ low
    | inr high ↦ absurd (lseek_high position high h e)
  ],
  lseek_low position,
)
