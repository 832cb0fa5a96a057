-- ===== src/Deletion/Safe.antt =====
-- What `file_delete` leaves alone.
use rsyncrypto.Prelude.{
  Bool, true, false, Bytes, Result, ok, err, Error, Option, if◌then◌else◌, ◌≡◌, ◌≢◌, ◌⊎◌, refl, ◌∙◌,
  ap, arith, Bool-cases, inl, inr,
}
use rsyncrypto.Filemap.Naming.{Mode, s_ifreg, s_ifdir, s_iflnk, other}
use rsyncrypto.Action.{Action, ◌>>=◌, ◌>>◌, pure, throw}
use rsyncrypto.Action.Rules.{
  IsPreorder, Stays, pure-Stays, throw-Stays, >>=-Stays, catch-Stays, if-Stays,
}
use rsyncrypto.Files.System.{Os, World, Options, Stat, noted, lstat, rmdir, enoent, no_entry}
use rsyncrypto.Deletion.{delete_key, delete_it, file_delete}

-- Two different names are two files, and a directory that is removed has no files in it.
pub record IsDeletion (F : Os) (contents : F.State → Bytes → Option Bytes)
    (remove : Bytes → Action (World F) Bool) : Type 0 where
  pub remove_other :
      (p q : Bytes) (w : World F) → p ≢ q → contents (remove p w).1.os q ≡ contents w.os q
  pub rmdir_same : (p q : Bytes) (s : F.State) → contents (F.rmdir p s).1 q ≡ contents s q

enoent-ne : (e : Error) → e ≢ Error.system no_entry → enoent e ≡ false
unfolding enoent
enoent-ne (Error.system n) h = let ne : n ≢ no_entry = λ z. h (ap Error.system z) in ground arith
enoent-ne _ h = refl

module _ (F : Os) (contents : F.State → Bytes → Option Bytes)
    (remove : Bytes → Action (World F) Bool) (L : IsDeletion F contents remove) (q : Bytes) where
  abbrev pub SameFile : World F → World F → Type 0
  SameFile w w' = contents w'.os q ≡ contents w.os q

  pub SameFile-IsPreorder : IsPreorder SameFile
  SameFile-IsPreorder = record { same = λ w. refl; trans = λ u v w h k. k ∙ h }

  abbrev Leaves : {A : Type 0} → Action (World F) A → Type 0
  Leaves m = Stays SameFile m

  next_Leaves :
      {A B : Type 0} (m : Action (World F) A) (next : A → Action (World F) B)
      → Leaves m
      → ((a : A) → Leaves (next a))
      → Leaves (m >>= next)
  next_Leaves m next = >>=-Stays SameFile SameFile-IsPreorder m next

  noted-Leaves : (o : Options) (p : Bytes) → Leaves (noted F o p)
  unfolding noted
  noted-Leaves o p = record {
    stays = λ w. elim (Bool-cases o.export_changes) [ inl e ↦ rw e refl | inr e ↦ rw e refl ];
  }

  lstat-Leaves : (p : Bytes) → Leaves (lstat F p)
  unfolding lstat
  lstat-Leaves p = record { stays = λ w. refl }

  rmdir-Leaves : (p : Bytes) → Leaves (rmdir F p)
  unfolding rmdir
  rmdir-Leaves p = record { stays = λ w. L.rmdir_same p q w.os }

  remove-Leaves : (p : Bytes) → p ≢ q → Leaves (remove p)
  remove-Leaves p h = record { stays = λ w. L.remove_other p q w h }

  done_Leaves : Leaves (pure tt)
  done_Leaves = pure-Stays SameFile SameFile-IsPreorder tt

  delete_key-Leaves :
      (o : Options) (key_file : Bytes)
      → (o.delkey ≡ true → key_file ≢ q)
      → Leaves (delete_key F remove o key_file)
  unfolding delete_key
  delete_key-Leaves o key_file h = elim (Bool-cases o.delkey) [
    | inl e ↦ rw e (
        next_Leaves (remove key_file) (λ b. pure tt) (remove-Leaves key_file (h e))
          (λ b. done_Leaves))
    | inr e ↦ rw e done_Leaves
  ]

  -- What is done with a file that is not a directory.
  delete_file-Leaves :
      (o : Options) (source_file key_file : Bytes)
      → source_file ≢ q
      → (o.delkey ≡ true → key_file ≢ q)
      → Leaves (
          noted F o source_file
          >> (remove source_file >>= λ there.
              if there then delete_key F remove o key_file else throw (Error.system no_entry)))
  delete_file-Leaves o source_file key_file h k = next_Leaves _ _ (noted-Leaves o source_file) (λ t.
      next_Leaves _ _ (remove-Leaves source_file h) (λ there.
        if-Stays SameFile SameFile-IsPreorder there _ _ (delete_key-Leaves o key_file k)
          (throw-Stays SameFile SameFile-IsPreorder (Unit {0}) (Error.system no_entry))))

  delete_it-Leaves :
      (o : Options) (source_file key_file : Bytes) (mode : Mode)
      → source_file ≢ q
      → (o.delkey ≡ true → key_file ≢ q)
      → Leaves (delete_it F remove o source_file key_file mode)
  unfolding delete_it
  delete_it-Leaves o source_file key_file s_ifdir h k =
      next_Leaves _ _ (noted-Leaves o source_file) (λ t.
        next_Leaves _ _ (rmdir-Leaves source_file) (λ t.
          if-Stays SameFile SameFile-IsPreorder o.delkey _ _ (rmdir-Leaves key_file) done_Leaves))
  delete_it-Leaves o source_file key_file s_ifreg h k =
      delete_file-Leaves o source_file key_file h k
  delete_it-Leaves o source_file key_file s_iflnk h k =
      delete_file-Leaves o source_file key_file h k
  delete_it-Leaves o source_file key_file other h k =
      throw-Stays SameFile SameFile-IsPreorder (Unit {0}) Error.unhandled_file_type

  pub file_delete-Leaves :
      (o : Options) (source_file dst_file key_file : Bytes)
      → source_file ≢ q
      → (o.delkey ≡ true → key_file ≢ q)
      → Leaves (file_delete F remove o source_file dst_file key_file)
  unfolding file_delete
  file_delete-Leaves o source_file dst_file key_file h k =
      catch-Stays SameFile SameFile-IsPreorder _ _
        (next_Leaves _ _ (lstat-Leaves dst_file) (λ st. done_Leaves))
        (λ e.
          if-Stays SameFile SameFile-IsPreorder (enoent e) _ _
            (next_Leaves _ _ (lstat-Leaves source_file)
              (λ status. delete_it-Leaves o source_file key_file status.st_mode h k))
            (throw-Stays SameFile SameFile-IsPreorder (Unit {0}) e))

  -- If two different names are two files, file_delete leaves a file as it was unless there is no
  -- plaintext file, and the file is the encrypted one, or with --delete-keys its key file.
  pub file_delete_kept :
      (o : Options) (source_file dst_file key_file : Bytes) (w : World F)
      → (F.lstat dst_file w.os ≢ err (Error.system no_entry))
        ⊎ ((source_file ≢ q) × (o.delkey ≡ true → key_file ≢ q))
      → contents (file_delete F remove o source_file dst_file key_file w).1.os q ≡ contents w.os q
  unfolding file_delete lstat
  file_delete_kept o source_file dst_file key_file w (inr (h, k)) =
      (file_delete-Leaves o source_file dst_file key_file h k).stays w
  file_delete_kept o source_file dst_file key_file w (inl h) =
      untouched (F.lstat dst_file w.os) refl
    where
      untouched :
          (r : Result Stat)
          → F.lstat dst_file w.os ≡ r
          → contents (file_delete F remove o source_file dst_file key_file w).1.os q
            ≡ contents w.os q
      untouched (ok st) e = rw e refl
      untouched (err x) e =
          let no : enoent x ≡ false = enoent-ne x (λ z. h (e ∙ ap err z)) in rw (e) (rw no refl)
