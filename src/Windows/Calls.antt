-- ===== src/Windows/Calls.antt =====
-- The members of `autofd` in win32/autofd.cpp that make one or two calls of the system, from what those
-- give.
use rsyncrypto.Prelude.{
  ℕ, Bool, true, false, not, Bytes, [], ◌∷◌, Result, ◌>>=◌, ok, err, Error, Option, some, ◌==◌,
  if◌then◌else◌, ◌≡◌, ◌<◌, ap₂,
}
use rsyncrypto.Filemap.Naming.{Mode, s_ifreg, s_ifdir, s_iflnk}
use rsyncrypto.Windows.Errors.{error_to_errno, broken_pipe}
use rsyncrypto.Windows.Files.{Flags, Disposition, disposition, st_size}
use rsyncrypto.Windows.Times.{Filetime, ft2ut, ut2ft, ft2ut-ut2ft}

-- What a call gives, or the error behind it.
pub data Outcome (A : Type 0) : Type 0 where
  gives : A → Outcome A
  fails_with : ℕ → Outcome A

unfoldable pub outcome : {A : Type 0} → Outcome A → Result A
unfolding error_to_errno
outcome (gives a) = ok a
outcome (fails_with error) = err (Error.system (error_to_errno error))

-- `flags&O_ACCMODE`
pub data Accmode : Type 0 where
  o_rdonly o_wronly o_rdwr : Accmode

-- `GENERIC_READ` and `GENERIC_WRITE`
pub record Access : Type 0 where
  pub generic_read : Bool
  pub generic_write : Bool

unfoldable pub access : Accmode → Access
access o_rdonly = record { generic_read = true; generic_write = false }
access o_wronly = record { generic_read = false; generic_write = true }
access o_rdwr = record { generic_read = true; generic_write = true }

-- `autofd( const char *, int, mode_t, bool )`: whether the name is that of a directory, and what
-- `CreateFile` gives.
unfoldable pub open_file : Bool → Flags → Accmode → (Access → Disposition → Outcome ℕ) → Result ℕ
unfolding access disposition outcome
open_file is_directory flags mode create =
    if is_directory
    then err (Error.system 21)
    else outcome (create (access mode) (disposition flags))

-- `autofd::read`: the bytes, and `f_eof` behind it.
unfoldable pub read : Outcome Bytes → Bool → Result (Bytes × Bool)
unfolding error_to_errno
read (gives []) f_eof = ok ([], true)
read (gives (b ∷ bytes)) f_eof = ok (b ∷ bytes, f_eof)
read (fails_with error) f_eof =
    if not (error == broken_pipe) then err (Error.system (error_to_errno error)) else ok ([], true)

-- `autofd::write`
unfoldable pub write : Outcome ℕ → Result ℕ
unfolding outcome
write written = outcome written

-- `WIN32_FILE_ATTRIBUTE_DATA`, as far as it is read.
pub record FileAttributes : Type 0 where
  pub reparse_point : Bool
  pub is_directory : Bool
  pub last_access_time : Filetime
  pub creation_time : Filetime
  pub last_write_time : Filetime
  pub size_high : ℕ
  pub size_low : ℕ

pub record Stat : Type 0 where
  pub st_mode : Mode
  pub st_atime : Option ℕ
  pub st_ctime : Option ℕ
  pub st_mtime : Option ℕ
  pub st_bytes : ℕ

-- `autofd::stat`, and `lstat`
unfoldable pub stat : Outcome FileAttributes → Result Stat
unfolding outcome ft2ut st_size
stat data_of = outcome data_of >>= λ d. ok (record {
  st_mode = if d.reparse_point then s_iflnk else if d.is_directory then s_ifdir else s_ifreg;
  st_atime = ft2ut d.last_access_time;
  st_ctime = ft2ut d.creation_time;
  st_mtime = ft2ut d.last_write_time;
  st_bytes = st_size d.size_high d.size_low;
})

-- `autofd::fstat`; an open file is no directory.
unfoldable pub fstat : Outcome FileAttributes → Result Stat
unfolding outcome ft2ut st_size
fstat info = outcome info >>= λ d. ok (record {
  st_mode = s_ifreg;
  st_atime = ft2ut d.last_access_time;
  st_ctime = ft2ut d.creation_time;
  st_mtime = ft2ut d.last_write_time;
  st_bytes = st_size d.size_high d.size_low;
})

-- `autofd::utimes`, once the file is open: the times that `SetFileTime` is given.
unfoldable pub utimes : ℕ → ℕ → FileAttributes → FileAttributes
unfolding ut2ft
utimes atime mtime d = record d { last_access_time = ut2ft atime; last_write_time = ut2ft mtime }

-- For times before 2106: once utimes of win32 has set the times of access and modification, stat
-- gives exactly these times, and the rest as before.
pub stat-utimes :
    (atime mtime : ℕ) (d : FileAttributes)
    → atime < 0x100000000
    → mtime < 0x100000000
    → stat (gives (utimes atime mtime d))
      ≡ (stat (gives d) >>= λ s. ok (record s { st_atime = some atime; st_mtime = some mtime }))
unfolding stat outcome utimes
stat-utimes atime mtime d ha hm =
    ap₂
      (λ a m. ok (record {
        st_mode = if d.reparse_point then s_iflnk else if d.is_directory then s_ifdir else s_ifreg;
        st_atime = a;
        st_ctime = ft2ut d.creation_time;
        st_mtime = m;
        st_bytes = st_size d.size_high d.size_low;
      }))
      ((ft2ut-ut2ft atime).0 ha) ((ft2ut-ut2ft mtime).0 hm)
