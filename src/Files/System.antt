-- ===== src/Files/System.antt =====
-- The file system as the code calls it, and what the code keeps in global variables: the options of
-- rsyncrypto.h, the maps of filemap.cpp and the log of changes.
use rsyncrypto.Prelude.{
  ℕ, Bool, false, Bytes, List, [], ◌∷◌, ◌++◌, Result, ok, err, Error, Option, ◌==◌, if◌then◌else◌,
}
use rsyncrypto.Filemap.{Maps}
use rsyncrypto.Filemap.Naming.{Mode}
use rsyncrypto.Paths.{mkpath_dirs}
use rsyncrypto.Action.{Action, ◌>>◌, pure}

-- The members of `struct stat` that the code reads.
pub record Stat : Type 0 where
  pub st_mode : Mode
  pub st_uid : ℕ
  pub st_atime : ℕ
  pub st_mtime : ℕ

-- `startup_options` behind parse_cmdline: what an option that takes a file names, if it is there; for
-- one that takes nothing, whether it is there; and the numbers, which are not negative.
pub record Options : Type 0 where
  pub fr : Bool
  pub fk : Bool
  pub noarch : Bool
  pub risky_writes : Bool
  pub recurse : Bool
  pub filelist : Option Bytes
  pub decrypt : Bool
  pub changed : Bool
  pub del : Bool
  pub delkey : Bool
  pub nameenc : Option Bytes
  pub export_changes : Bool
  pub src : Bytes
  pub dst : Bytes
  pub key : Bytes
  pub master : Bytes
  pub keysize : ℕ
  pub rollwin : ℕ
  pub rollsens : ℕ
  pub rollmin : ℕ
  pub trim : ℕ
  pub nenest : ℕ
  pub mod_win : ℕ
  pub noatime : ℕ

-- The system calls, with their error numbers; 0 is success. An open file is its name. `open_file` opens
-- a file for reading, and `read_file` reads an open one to its end; `open_read` is both at once, where
-- the code does nothing in between. `random` gives what RAND_bytes gives at each call, by the number of
-- the call and of the bytes that are asked for. `extend` is the `lseek` and the write of one byte that make a
-- file at least as long as the number says, and `poke` overwrites the front of an open file.
pub record Os : Type 1 where
  pub State : Type 0
  pub open_read : Bool → Bytes → State → Result Bytes × State
  pub open_file : Bool → Bytes → State → ℕ × State
  pub read_file : Bytes → State → Result Bytes × State
  pub read_stdin : State → Bytes × State
  pub create : Bool → Bytes → State → ℕ × State
  pub poke : Bytes → Bytes → State → State
  pub extend : Bytes → ℕ → State → ℕ × State
  pub mkdir : Bytes → State → ℕ × State
  pub utimes : Bytes → ℕ → ℕ → State → ℕ × State
  pub rename : Bytes → Bytes → State → ℕ × State
  pub lstat : Bytes → State → Result Stat
  pub stat : Bytes → State → Result Stat
  pub fstat : Bytes → State → Result Stat
  pub unlink : Bytes → State → ℕ × State
  pub rmdir : Bytes → State → ℕ × State
  pub readdir : Bytes → State → Result (List Bytes)
  pub euid : State → ℕ
  pub random : State → (ℕ → ℕ → Option Bytes) × State

-- ENOENT, EEXIST and ENOTDIR of Linux.
abbrev pub no_entry : ℕ
no_entry = 2

abbrev pub exists_already : ℕ
exists_already = 17

abbrev pub not_directory : ℕ
not_directory = 20

unfoldable pub enoent : Error → Bool
enoent (Error.system n) = n == no_entry
enoent _ = false

module _ (F : Os) where
  pub record World : Type 0 where
    pub os : F.State
    pub maps : Maps
    pub changes : List Bytes

  -- A call that gives a status: `if( …!=0 ) throw rscerror( …, errno )`.
  abbrev pub checked : ℕ × F.State → World → Result (Unit {0}) × World
  checked (n, s) w = (if n == 0 then ok tt else err (Error.system n), record w { os = s })

  unfoldable pub open_read : Bool → Bytes → Action World Bytes
  open_read noatime p w = let (r, s) = F.open_read noatime p w.os in (r, record w { os = s })

  unfoldable pub open_file : Bool → Bytes → Action World (Unit {0})
  open_file noatime p w = checked (F.open_file noatime p w.os) w

  -- An error of `read` is a value: the caller says what it has written by then.
  unfoldable pub read_file : Bytes → Action World (Result Bytes)
  read_file p w = let (r, s) = F.read_file p w.os in (ok r, record w { os = s })

  unfoldable pub open_stdin : Action World Bytes
  open_stdin w = let (b, s) = F.read_stdin w.os in (ok b, record w { os = s })

  unfoldable pub create : Bool → Bytes → Action World (Unit {0})
  create trunc p w = checked (F.create trunc p w.os) w

  unfoldable pub poke : Bytes → Bytes → Action World (Unit {0})
  poke p b w = (ok tt, record w { os = F.poke p b w.os })

  unfoldable pub extend : Bytes → ℕ → Action World (Unit {0})
  extend p n w = checked (F.extend p n w.os) w

  unfoldable pub utimes : Bytes → ℕ → ℕ → Action World (Unit {0})
  utimes p at mt w = checked (F.utimes p at mt w.os) w

  -- `autofd::mv`
  unfoldable pub mv : Bytes → Bytes → Action World (Unit {0})
  mv src dst w = checked (F.rename src dst w.os) w

  -- A directory of `autofd::mkpath`.
  unfoldable pub mkdir : Bytes → Action World (Unit {0})
  mkdir p w = let (n, s) = F.mkdir p w.os in checked (if n == exists_already then 0 else n, s) w

  unfoldable pub mkdirs : List Bytes → Action World (Unit {0})
  unfolding mkdir
  mkdirs [] = pure tt
  mkdirs (p ∷ ps) = mkdir p >> mkdirs ps

  -- `autofd::mkpath`
  unfoldable pub mkpath : Bytes → Action World (Unit {0})
  unfolding mkdirs
  mkpath p = mkdirs (mkpath_dirs p)

  unfoldable pub lstat : Bytes → Action World Stat
  lstat p w = (F.lstat p w.os, w)

  unfoldable pub stat : Bytes → Action World Stat
  stat p w = (F.stat p w.os, w)

  -- `autofd::rmdir`: a directory that is not there is no error.
  unfoldable pub rmdir : Bytes → Action World (Unit {0})
  rmdir p w = let (n, s) = F.rmdir p w.os in checked (if n == no_entry then 0 else n, s) w

  -- The constructor of `autodir`; the directory is read at once.
  unfoldable pub opendir : Bytes → Action World (List Bytes)
  opendir p w = (F.readdir p w.os, w)

  unfoldable pub fstat : Bytes → Action World Stat
  fstat p w = (F.fstat p w.os, w)

  unfoldable pub euid : Action World ℕ
  euid w = (ok (F.euid w.os), w)

  unfoldable pub random : Action World (ℕ → ℕ → Option Bytes)
  random w = let (r, s) = F.random w.os in (ok r, record w { os = s })

  -- `if( changes_log.get()!=NULL )`
  unfoldable pub noted : Options → Bytes → Action World (Unit {0})
  noted o p w = (ok tt, if o.export_changes then record w { changes = w.changes ++ p ∷ [] } else w)
