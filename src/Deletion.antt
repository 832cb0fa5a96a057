-- ===== src/Deletion.antt =====
-- The deletion of encrypted files whose plaintext is gone: `autofd::unlink` of autofd.h, `file_delete`
-- of file.cpp and `filemap::enc_file_delete` of filemap.cpp. The two take the `unlink` that they call
-- as an argument, which says whether there was a file to delete.
pub mod Safe
pub mod Paired
pub mod Unlink
use rsyncrypto.Prelude.{
  ℕ, zero, suc, Bool, true, false, ◌||◌, Bytes, bytes_eq, List, [], ◌∷◌, Result, ok, err, Error,
  ◌==◌, if◌then◌else◌,
}
use rsyncrypto.Filemap.{Maps, Dict, FileMap}
use rsyncrypto.Filemap.Names.{combine_paths, nest_name}
use rsyncrypto.Filemap.Naming.{Mode, s_ifreg, s_ifdir, s_iflnk, other}
use rsyncrypto.Action.{Action, ◌>>=◌, ◌>>◌, pure, throw, lift, modify, catch, when, rescue}
use rsyncrypto.Files.System.{
  Os, World, Options, Stat, noted, lstat, rmdir, enoent, no_entry, not_directory,
}

-- `err.errornum()==ENOENT || err.errornum()==ENOTDIR`
unfoldable pub is_gone : Error → Bool
unfolding enoent
is_gone (Error.system n) = enoent (Error.system n) || n == not_directory
is_gone _ = false

-- `m.erase(…)`, of a map in which no key stands twice.
unfoldable pub erase : {V : Type 0} → Bytes → Dict V → Dict V
erase k [] = []
erase k ((k', v) ∷ m) = let rest = erase k m in if bytes_eq k k' then rest else (k', v) ∷ rest

module _ (F : Os) where
  -- `autofd::unlink`, on fuel: in the class, the name `unlink` is the function itself.
  unfoldable pub unlink : ℕ → Bytes → Action (World F) Bool
  unlink zero pathname = throw Error.out_of_fuel
  unlink (suc fuel) pathname = do success ← unlink fuel pathname; pure success

  module _ (remove : Bytes → Action (World F) Bool) where
    -- `if( EXISTS(delkey) ) autofd::unlink( key_file );`
    unfoldable pub delete_key : Options → Bytes → Action (World F) (Unit {0})
    delete_key o key_file = when o.delkey (remove key_file >> pure tt)

    -- The switch on the type of the file to delete.
    unfoldable pub delete_it : Options → Bytes → Bytes → Mode → Action (World F) (Unit {0})
    unfolding delete_key
    delete_it o source_file key_file s_ifdir = do
      noted F o source_file
      rmdir F source_file
      when o.delkey (rmdir F key_file)
    delete_it o source_file key_file s_ifreg = do
      noted F o source_file
      there ← remove source_file
      if there then delete_key o key_file else throw (Error.system no_entry)
    delete_it o source_file key_file s_iflnk = do
      noted F o source_file
      there ← remove source_file
      if there then delete_key o key_file else throw (Error.system no_entry)
    delete_it o source_file key_file other = throw Error.unhandled_file_type

    -- `file_delete`
    unfoldable pub file_delete : Options → Bytes → Bytes → Bytes → Action (World F) (Unit {0})
    unfolding delete_it
    file_delete o source_file dst_file key_file = catch (lstat F dst_file >> pure tt) (λ e.
        if enoent e
        then (do status ← lstat F source_file; delete_it o source_file key_file status.st_mode)
        else throw e)

    -- What becomes of the maps when the key is deleted.
    unfoldable pub forget : Bytes → Bytes → Maps → Maps
    unfolding erase
    forget plainname ciphername m = record {
      namemap = erase plainname m.namemap;
      reversemap = erase ciphername m.reversemap;
    }

    -- `filemap::enc_file_delete`, for the entry with this key, behind `nest_name`.
    unfoldable pub delete_nested :
        Options → Bytes → Bytes → Bytes → Bytes × FileMap → Bytes → Action (World F) (Unit {0})
    unfolding is_gone forget combine_paths
    delete_nested o source_dir dst_dir key_dir (k, item) ciphername =
        let src_file = combine_paths source_dir ciphername in
        let key_file = combine_paths key_dir ciphername in
        catch (lstat F (combine_paths dst_dir item.plainname) >> pure tt) (λ e.
          if is_gone e
          then (do
            noted F o src_file
            remove src_file
            when o.delkey (do
              remove key_file
              modify (λ (w : World F). record w { maps = forget k item.ciphername w.maps })))
          else throw e)

    unfoldable pub enc_file_delete :
        Options → Bytes → Bytes → Bytes → Bytes × FileMap → Action (World F) (Unit {0})
    unfolding delete_nested nest_name
    enc_file_delete o source_dir dst_dir key_dir (k, item) =
        lift (nest_name o.nenest item.ciphername) >>= λ ciphername.
        delete_nested o source_dir dst_dir key_dir (k, item) ciphername
