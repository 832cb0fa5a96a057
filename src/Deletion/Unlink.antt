-- ===== src/Deletion/Unlink.antt =====
-- `autofd::unlink` calls itself.
use rsyncrypto.Prelude.{ℕ, zero, suc, Bool, Bytes, ok, err, Error, ◌≡◌, refl, ap}
use rsyncrypto.Filemap.Naming.{s_ifreg}
use rsyncrypto.Action.{proceed}
use rsyncrypto.Files.System.{Os, World, Options, Stat, noted, lstat, enoent, no_entry}
use rsyncrypto.Deletion.{unlink, delete_it, file_delete}

module _ (F : Os) where
  unlink_endless :
      (fuel : ℕ) (p : Bytes) (w : World F) → unlink F fuel p w ≡ (err Error.out_of_fuel, w)
  unfolding unlink
  unlink_endless zero p w = refl
  unlink_endless (suc fuel) p w =
      ap (λ r. proceed (λ (b : Bool) w'. (ok b, w')) r) (unlink_endless fuel p w)

  -- With the unlink of autofd.h, for a regular encrypted file whose plaintext is gone, file_delete
  -- reports the file but never returns, whatever the fuel: nothing is deleted, because unlink
  -- calls itself.
  pub file_delete-unlink :
      (fuel : ℕ) (o : Options) (source_file dst_file key_file : Bytes) (w : World F) (status : Stat)
      → F.lstat dst_file w.os ≡ err (Error.system no_entry)
      → F.lstat source_file w.os ≡ ok status
      → status.st_mode ≡ s_ifreg
      → file_delete F (unlink F fuel) o source_file dst_file key_file w
        ≡ (err Error.out_of_fuel, (noted F o source_file w).1)
  unfolding file_delete delete_it lstat enoent noted
  file_delete-unlink fuel o source_file dst_file key_file w status gone there is =
      rw (gone) (
        rw (there)
          (rw (is) (rw (unlink_endless fuel source_file (noted F o source_file w).1) refl)))
