-- ===== src/CommandLine.antt =====
-- main.cpp and rsyncrypto.h: the options of the command line, and what the program does with them.
pub mod Run
pub mod Checks
pub mod Whole
use rsyncrypto.Prelude.{
  ℕ, Bool, true, false, not, ◌&&◌, ◌||◌, Bytes, bytes_eq, [], ◌∷◌, Result, ok, err, Error, ◌>>=◌,
  Option, none, some, ◌==◌, if◌then◌else◌,
}
use rsyncrypto.Files.System.{Options}

-- `startup_options` as `arg_parse` leaves it: for an option that takes nothing, whether it is there;
-- for the others the argument, if the option is there. The verbosity only changes what is printed.
pub record Arguments : Type 0 where
  pub help : Bool
  pub version : Bool
  pub fr : Bool
  pub fk : Bool
  pub noarch : Bool
  pub risky_writes : Bool
  pub recurse : Bool
  pub decrypt : Bool
  pub changed : Bool
  pub del : Bool
  pub delkey : Bool
  pub filelist : Option Bytes
  pub nameenc : Option Bytes
  pub export_changes : Option Bytes
  pub keysize : Option ℕ
  pub rollwin : Option ℕ
  pub rollsens : Option ℕ
  pub rollmin : Option ℕ
  pub trim : Option ℕ
  pub nenest : Option ℕ
  pub mod_win : Option ℕ
  pub noatime : Option ℕ
  pub src : Bytes
  pub dst : Bytes
  pub key : Bytes
  pub master : Bytes

-- `EXISTS`
abbrev pub exists : {A : Type 0} → Option A → Bool
exists none = false
exists (some value) = true

-- `VAL`, with the value that is there if the option is not given.
abbrev pub val : ℕ → Option ℕ → ℕ
val preset none = preset
val preset (some value) = value

-- The checks for `EXISTS(decrypt)`.
unfoldable pub check_decrypt : Arguments → Result (Unit {0})
check_decrypt a =
    if exists a.keysize
    then err Error.key_size_for_decryption
    else if a.fr || a.fk
    then err Error.force_with_decrypt
    else if bytes_eq a.src (45 ∷ []) && (not (exists a.filelist) && not a.noarch)
    then err Error.need_no_archive_mode
    else if exists a.export_changes
    then err Error.log_export_in_decrypt
    else ok tt

-- The options as they are used, with the values of the constructor of `startup_options` and those that
-- `parse_cmdline` fills in.
unfoldable pub with_defaults : Arguments → Options
with_defaults a = record {
  fr = a.fr;
  fk = a.fk;
  noarch = a.noarch;
  risky_writes = a.risky_writes;
  recurse = a.recurse;
  filelist = a.filelist;
  decrypt = a.decrypt;
  changed = a.changed;
  del = a.del || a.delkey;
  delkey = a.delkey;
  nameenc = a.nameenc;
  export_changes = exists a.export_changes;
  src = a.src;
  dst = a.dst;
  key = a.key;
  master = a.master;
  keysize = val 0 a.keysize;
  rollwin = val 8192 a.rollwin;
  rollsens = val (val 8192 a.rollmin) a.rollsens;
  rollmin = val 8192 a.rollmin;
  trim = val 1 a.trim;
  nenest = val 0 a.nenest;
  mod_win = val 0 a.mod_win;
  noatime = val 1 a.noatime;
}

-- Whether the program prints something and exits, or goes on.
pub data Parsed : Type 0 where
  exits : Parsed
  runs : Options → Parsed

-- `parse_cmdline`, and the `--version` and `--help` of `main` behind it; `nerrors` is what `arg_parse`
-- returns.
unfoldable pub parse_cmdline : ℕ → Arguments → Result Parsed
unfolding check_decrypt with_defaults
parse_cmdline nerrors a =
    if not (nerrors == 0)
    then ok exits
    else if exists a.trim && (not a.recurse && not (exists a.filelist))
    then err Error.cannot_trim_names
    else if exists a.nameenc && (not a.recurse && not (exists a.filelist))
    then err Error.cannot_encrypt_names
    else ((if a.decrypt then check_decrypt a else ok tt) >>= λ checked.
        if a.version || a.help then ok exits else ok (runs (with_defaults a)))
