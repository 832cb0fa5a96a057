-- ===== src/Dirs/Deletes.antt =====
-- What `--delete` can reach.
use rsyncrypto.Prelude.{ℕ, Bool, true, false, Bytes, Option, none, length, take, ◌≡◌, refl}
use rsyncrypto.Filemap.Names.{combine_paths}
use rsyncrypto.Filemap.Naming.{Mode}
use rsyncrypto.Action.{Action, lift}
use rsyncrypto.Action.Rules.{>>=-Stays}
use rsyncrypto.Files.System.{Os, World, Options}
use rsyncrypto.Deletion.{file_delete}
use rsyncrypto.Deletion.Safe.{IsDeletion, SameFile, SameFile-IsPreorder, file_delete-Leaves}
use rsyncrypto.Dirs.{EncryptFunc, NameFunc, from_offset, delete_missing}
use rsyncrypto.Dirs.Stays.{recurse_dir_enc-Keeps}

module _ (F : Os) (contents : F.State → Bytes → Option Bytes)
    (remove : Bytes → Action (World F) Bool) (L : IsDeletion F contents remove) (o : Options)
    (op : EncryptFunc F) (dstname keyname : NameFunc F) (inside : Bytes → Bool)
    (closed : (d name : Bytes) → inside d ≡ true → inside (combine_paths d name) ≡ true) (q : Bytes)
    (dstname_same : (l r : Bytes) (mode : Mode) (w : World F)
      → contents (dstname l r mode w).1.os q ≡ contents w.os q)
    (keyname_same : (l r : Bytes) (mode : Mode) (w : World F)
      → contents (keyname l r mode w).1.os q ≡ contents w.os q) where
  -- For a set of names that contains the destination directory and is closed under combine_paths,
  -- without name encryption and --delete-keys: the pass of real_dir_encrypt that deletes what is
  -- missing leaves every file outside the set as it was, whatever it finds and however it ends, if
  -- two different names are two files and the functions for the names leave the file alone.
  pub delete_missing_outside :
      (fuel src_offset : ℕ) (src_dir dst_dir key_dir : Bytes) (w : World F)
      → o.nameenc ≡ none
      → o.delkey ≡ false
      → inside dst_dir ≡ true
      → inside q ≡ false
      → contents
          (delete_missing F o remove op dstname keyname fuel src_dir src_offset dst_dir key_dir
            w).1.os
          q
        ≡ contents w.os q
  unfolding delete_missing
  delete_missing_outside fuel src_offset src_dir dst_dir key_dir w plain keys h out =
      (>>=-Stays (SameFile F contents remove L q) (SameFile-IsPreorder F contents remove L q)
          (lift (from_offset src_offset src_dir)) _ (record { stays = λ w'. refl })
          (λ right. rw plain (
            recurse_dir_enc-Keeps F (SameFile F contents remove L q)
              (SameFile-IsPreorder F contents remove L q) o
              (λ src dst key st. file_delete F remove o src dst key) dstname keyname inside closed
              (λ src dst key st i.
                file_delete-Leaves F contents remove L q o src dst key (λ e. cc (rw e at i, out))
                  (λ k. absurd (cc (k, keys))))
              (λ l r mode. record { stays = dstname_same l r mode })
              (λ l r mode. record { stays = keyname_same l r mode }) fuel (length dst_dir) true
              (take src_offset src_dir) key_dir (combine_paths dst_dir right)
              (closed dst_dir right h)))).stays
        w
