-- ===== src/Dirs.antt =====
-- The directories and lists of files of file.cpp. What is done with each file, `encryptfunc`, and the
-- functions that make the names, `namefunc` and `prefix_func`, are arguments, as in the code.
pub mod Stays
pub mod Deletes
pub mod Errors
pub mod Depth
pub mod Unchanged
use rsyncrypto.Prelude.{
  ℕ, zero, suc, ◌+◌, ◌-◌, Bool, true, false, not, ◌&&◌, ◌||◌, Bytes, bytes_eq, List, [], ◌∷◌, ◌++◌,
  Result, ok, err, Error, Option, none, some, ◌==◌, ltb, if◌then◌else◌, length, take, drop, get_or,
}
use rsyncrypto.Filemap.{Maps, Dict, FileMap, dirsep_c}
use rsyncrypto.Filemap.Names.{combine_paths}
use rsyncrypto.Filemap.Naming.{Mode, s_ifreg, s_ifdir, s_iflnk, other}
use rsyncrypto.Filemap.Range.{group_entries}
use rsyncrypto.Paths.{calc_trim, is_absolute}
use rsyncrypto.Action.{Action, ◌>>=◌, ◌>>◌, pure, throw, gets, lift, try_catch, when}
use rsyncrypto.Files.System.{
  Os, World, Options, Stat, lstat, stat, open_read, open_stdin, opendir, mkpath,
}
use rsyncrypto.Deletion.{file_delete, enc_file_delete}

-- `s.c_str()+offset`
unfoldable pub from_offset : ℕ → Bytes → Result Bytes
from_offset offset s = if ltb (length s) offset then err Error.out_of_bounds else ok (drop offset s)

-- `!EXISTS(changed) || !statsuccess || abs(dststat.st_mtime-status.st_mtime)>VAL(mod_win)`
unfoldable pub is_due : Options → ℕ → Option Stat → Bool
is_due o mtime none = true
is_due o mtime (some dststat) =
    not o.changed || ltb o.mod_win ((dststat.st_mtime - mtime) + (mtime - dststat.st_mtime))

-- `readline` until the end of the file.
unfoldable pub read_lines : Bytes → List Bytes
read_lines [] = [] ∷ []
read_lines (c ∷ rest) = elim (read_lines rest) [
  | [] ↦ (c ∷ []) ∷ []
  | line ∷ more ↦ if c == 10 then [] ∷ line ∷ more else (c ∷ line) ∷ more
]

module _ (F : Os) where
  abbrev pub EncryptFunc : Type 0
  EncryptFunc = Bytes → Bytes → Bytes → Option Stat → Action (World F) (Unit {0})

  abbrev pub NameFunc : Type 0
  NameFunc = Bytes → Bytes → Mode → Action (World F) Bytes

  -- `try { … } catch( const rscerror & ) { error=true; }`
  unfoldable pub failed : Action (World F) (Unit {0}) → Action (World F) Bool
  failed m = try_catch (m >> pure false) (λ e. pure true)

  -- All of them, each within a `try`; at the end the error that was put off.
  unfoldable pub each :
      {A : Type 0} → (A → Action (World F) (Unit {0})) → Bool → List A → Action (World F) (Unit {0})
  unfolding failed
  each body error [] = if error then throw Error.delayed_error else pure tt
  each body error (x ∷ xs) = do this_failed ← failed (body x); each body (error || this_failed) xs

  -- The `lstat` of the destination, if there is one.
  unfoldable pub existing : Bytes → Action (World F) (Option Stat)
  existing dst = try_catch (lstat F dst >>= λ dststat. pure (some dststat)) (λ e. pure none)

  module _ (o : Options) where
    module _ (op : EncryptFunc) where
      -- A regular file in a directory: the error of `op` is printed.
      unfoldable pub regular_file : Bytes → Bytes → Bytes → Stat → Action (World F) (Unit {0})
      unfolding existing is_due
      regular_file src dst key_file status = do
        dststat ← existing dst
        when (is_due o status.st_mtime dststat)
            (try_catch (op src dst key_file (some status)) (λ e. pure tt))

      -- An entry of the directory.
      unfoldable pub visit :
          (Bytes → Action (World F) (Unit {0}))
          → ℕ
          → Bool
          → NameFunc
          → NameFunc
          → Bytes
          → Bytes
          → Bytes
          → Bytes
          → Action (World F) (Unit {0})
      unfolding regular_file from_offset combine_paths
      visit descend src_offset op_handle_dir dstname keyname src_dir dst_dir key_dir d_name = do
        src_filename ← pure (combine_paths src_dir d_name)
        status ← lstat F src_filename
        right ← lift (from_offset src_offset src_filename)
        dst_filename ← dstname dst_dir right status.st_mode
        key_filename ← keyname key_dir right status.st_mode
        when (not (length dst_filename == 0)) (elim status.st_mode [
          | s_ifreg ↦ regular_file src_filename dst_filename key_filename status
          | s_ifdir ↦
              when (not (bytes_eq d_name (46 ∷ [])) && not (bytes_eq d_name (46 ∷ 46 ∷ []))) (do
                descend src_filename
                when op_handle_dir (op src_filename dst_filename key_filename (some status)))
          | s_iflnk ↦ pure tt
          | other ↦ pure tt
        ])

      -- `recurse_dir_enc`, on fuel: one unit for each level of directories.
      unfoldable pub recurse_dir_enc :
          ℕ → ℕ → Bool → NameFunc → NameFunc → Bytes → Bytes → Bytes → Action (World F) (Unit {0})
      unfolding visit each
      recurse_dir_enc zero src_offset op_handle_dir dstname keyname dst_dir key_dir src_dir =
          throw Error.out_of_fuel
      recurse_dir_enc (suc fuel) src_offset op_handle_dir dstname keyname dst_dir key_dir src_dir =
          do
            ents ← opendir F src_dir
            each
                (visit
                  (recurse_dir_enc fuel src_offset op_handle_dir dstname keyname dst_dir key_dir)
                  src_offset op_handle_dir dstname keyname src_dir dst_dir key_dir)
                false ents

    -- Every entry of them, until the first error.
    unfoldable pub in_turn :
        (Bytes × FileMap → Action (World F) (Unit {0})) → Dict FileMap → Action (World F) (Unit {0})
    in_turn op [] = pure tt
    in_turn op (i ∷ rest) = op i >> in_turn op rest

    -- `virt_recurse_dir_enc`: the first error ends it.
    unfoldable pub virt_recurse_dir_enc :
        (Bytes × FileMap → Action (World F) (Unit {0})) → Bytes → Action (World F) (Unit {0})
    unfolding group_entries
    virt_recurse_dir_enc op dir_sig_part = do
      namemap ← gets (λ (w : World F). w.maps.namemap)
      in_turn op (group_entries dir_sig_part namemap)

    module _ (remove : Bytes → Action (World F) Bool) (op : EncryptFunc)
        (dstname keyname : NameFunc) where
      -- `EXISTS(del)`
      unfoldable pub delete_missing : ℕ → Bytes → ℕ → Bytes → Bytes → Action (World F) (Unit {0})
      unfolding recurse_dir_enc virt_recurse_dir_enc from_offset combine_paths
      delete_missing fuel src_dir src_offset dst_dir key_dir =
          let src_dst_name = take src_offset src_dir in
          lift (from_offset src_offset src_dir) >>= λ right. elim o.nameenc [
            | none ↦
                recurse_dir_enc (λ src dst key st. file_delete F remove o src dst key) fuel
                  (length dst_dir) true dstname keyname src_dst_name key_dir
                  (combine_paths dst_dir right)
            | some map ↦
                virt_recurse_dir_enc (enc_file_delete F remove o dst_dir src_dst_name key_dir) right
          ]

      -- `real_dir_encrypt`
      unfoldable pub real_dir_encrypt : ℕ → Bytes → ℕ → Bytes → Bytes → Action (World F) (Unit {0})
      unfolding recurse_dir_enc delete_missing from_offset
      real_dir_encrypt fuel src_dir rel dst_dir key_dir = do
        significant ← lift (from_offset rel src_dir)
        trimmed ← lift (calc_trim significant o.trim)
        right ← lift (from_offset (trimmed + rel) src_dir)
        dst ← dstname dst_dir right s_ifdir
        mkpath F dst
        key ← keyname key_dir right s_ifdir
        mkpath F key
        recurse_dir_enc op fuel (trimmed + rel) false dstname keyname dst_dir key_dir src_dir
        when o.del (delete_missing fuel src_dir (trimmed + rel) dst_dir key_dir)

      -- `dir_encrypt`
      unfoldable pub dir_encrypt : ℕ → Bytes → Bytes → Bytes → Action (World F) (Unit {0})
      unfolding real_dir_encrypt
      dir_encrypt fuel src_dir dst_dir key_dir = real_dir_encrypt fuel src_dir 0 dst_dir key_dir

      module _ (prefix_op : Bytes → Bytes → Bool → Bytes) (srcnameop : NameFunc) where
        -- A file of the list.
        unfoldable pub listed_file : Bytes → Bytes → Bytes → Stat → Action (World F) (Unit {0})
        unfolding existing is_due
        listed_file src dstfile keyfile srcstat = do
          dststat ← existing dstfile
          when (is_due o srcstat.st_mtime dststat) (op src dstfile keyfile (some srcstat))

        -- A line of the list that is not empty.
        unfoldable pub listed : ℕ → Bytes → Bytes → Bytes → Bytes → Action (World F) (Unit {0})
        unfolding listed_file real_dir_encrypt calc_trim is_absolute
        listed fuel src_arg dst_dir key_dir line = do
          is_dir ← pure (get_or line (length line - 1) 0 == dirsep_c)
          src_offset ← lift (calc_trim line o.trim)
          srcname ← pure (drop src_offset line)
          src ←
              srcnameop (prefix_op src_arg (take src_offset line) (is_absolute line)) srcname
                s_ifreg
          st_mode ← pure (if is_dir then s_ifdir else s_ifreg)
          dstfile ← dstname dst_dir srcname st_mode
          keyfile ← keyname key_dir srcname st_mode
          srcstat ← stat F src
          if is_dir
              then (if ltb (length src) (length srcname)
                  then throw Error.out_of_bounds
                  else real_dir_encrypt fuel src (length src - length srcname) dst_dir key_dir)
              else listed_file src dstfile keyfile srcstat

        -- The lines, each of which is read before the next file is processed in the code.
        unfoldable pub listed_lines :
            ℕ → List Bytes → Bytes → Bytes → Bytes → Action (World F) (Unit {0})
        unfolding listed each
        listed_lines fuel names src_arg dst_dir key_dir =
            each
              (λ srcname.
                when (not (length srcname == 0)) (listed fuel src_arg dst_dir key_dir srcname))
              false names

        -- `filelist_encrypt`; the list is read at once.
        unfoldable pub filelist_encrypt :
            ℕ → Bytes → Bytes → Bytes → Bytes → Action (World F) (Unit {0})
        unfolding listed_lines read_lines
        filelist_encrypt fuel filelist src_arg dst_dir key_dir = do
          list ← (if bytes_eq filelist (45 ∷ []) then open_stdin F else open_read F false filelist)
          listed_lines fuel (read_lines list) src_arg dst_dir key_dir
