-- ===== src/Recover.antt =====
-- recover.cpp: the program that rebuilds a file map which rsyncrypto 1.07 has corrupted. What it
-- prints on the error stream is left out.
pub mod Line
pub mod Refinement
pub mod Records
pub mod Restoring
use rsyncrypto.Prelude.{
  ℕ, zero, suc, ◌+◌, ◌≤◌, Bool, true, false, ◌&&◌, ◌||◌, Bytes, [], ◌∷◌, ◌++◌, ◌==◌, leb,
  if◌then◌else◌, take, set, replicate, length,
}

pub data State : Type 0 where
  dirsep ciphername space plainname invalid rsync107_invalid : State

-- `struct file_record`; `crypt` is the array of 32.
pub record FileRecord : Type 0 where
  pub sep : ℕ
  pub crypt : Bytes
  pub plain : Bytes

-- The variables of the loop.
pub record Machine : Type 0 where
  pub state : State
  pub line_state : ℕ
  pub entry : FileRecord

unfoldable pub is_hex : ℕ → Bool
is_hex ch = (leb 48 ch && leb ch 57) || (leb 65 ch && leb ch 70)

unfoldable pub is_dirsep : ℕ → Bool
is_dirsep ch = ch == 47 || ch == 92

-- What is printed for a record.
unfoldable pub printed : ℕ → Bytes → Bytes → Bytes
printed sep crypt plain = sep ∷ (crypt ++ (32 ∷ (plain ++ 0 ∷ [])))

-- `switch( state )`: the variables after it and what goes to the output.
unfoldable pub dispatch : State → Machine → ℕ → Machine × Bytes
unfolding is_hex is_dirsep printed
dispatch dirsep m ch =
    let e : FileRecord = record { sep = m.entry.sep; crypt = m.entry.crypt; plain = [] } in
    if is_dirsep ch
    then (
      record {
        state = ciphername;
        line_state = 0;
        entry = record { sep = ch; crypt = m.entry.crypt; plain = [] };
      },
      [],
    )
    else if ch == 0
    then (record m { entry = e }, [])
    else if ch == 32
    then (record m { state = rsync107_invalid; entry = e }, [])
    else (record m { state = invalid; entry = e }, [])
dispatch ciphername m ch =
    if is_hex ch
    then (
      record {
        state = if m.line_state + 1 == 32 then space else ciphername;
        line_state = m.line_state + 1;
        entry = record {
          sep = m.entry.sep;
          crypt = set m.entry.crypt m.line_state ch;
          plain = m.entry.plain;
        };
      },
      [],
    )
    else (record m { state = invalid }, [])
dispatch space m ch =
    if ch == 32 then (record m { state = plainname }, []) else (record m { state = invalid }, [])
dispatch plainname m ch =
    if ch == 0
    then (
      record m { state = dirsep },
      (if length m.entry.plain == 0
          then []
          else printed m.entry.sep (take 32 m.entry.crypt) m.entry.plain),
    )
    else (
      record m {
        entry = record {
          sep = m.entry.sep;
          crypt = m.entry.crypt;
          plain = m.entry.plain ++ ch ∷ [];
        };
      },
      [],
    )
dispatch invalid m ch = (m, [])
dispatch rsync107_invalid m ch =
    if ch == 0 then (record m { state = dirsep }, []) else (record m { state = invalid }, [])

-- `if( state==INVALID && ch=='\0' )`
unfoldable pub restart : State → ℕ → State
restart dirsep ch = dirsep
restart ciphername ch = ciphername
restart space ch = space
restart plainname ch = plainname
restart invalid ch = if ch == 0 then dirsep else invalid
restart rsync107_invalid ch = rsync107_invalid

unfoldable pub step : Machine → ℕ → Machine × Bytes
unfolding dispatch restart
step m ch =
    let (m', out) = dispatch m.state m ch in (record m' { state = restart m'.state ch }, out)

-- `while( offset<map.getsize() )`: all that is printed.
unfoldable pub run : Machine → Bytes → Bytes
unfolding step
run m [] = []
run m (ch ∷ rest) = let (m', out) = step m ch in out ++ run m' rest

-- The loop from its start: the record is not initialised.
unfoldable pub recover : FileRecord → Bytes → Bytes
unfolding run
recover uninitialised map =
    run (record { state = dirsep; line_state = 0; entry = uninitialised }) map
