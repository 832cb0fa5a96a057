-- ===== src/Dirs/Stays.antt =====
-- What holds of the calls for each file holds of a pass over a directory: relations between the state
-- before and the state after, of the names within a set that is closed under `combine_paths`.
use rsyncrypto.Prelude.{
  ℕ, zero, suc, Bool, true, false, not, ◌&&◌, ◌||◌, Bytes, bytes_eq, List, [], ◌∷◌, Result, Error,
  is_thrown, Option, none, some, ◌≡◌,
}
use rsyncrypto.Filemap.Names.{combine_paths}
use rsyncrypto.Filemap.Naming.{Mode, s_ifreg, s_ifdir, s_iflnk, other}
use rsyncrypto.Action.{Action, ◌>>◌, pure, try_catch, when}
use rsyncrypto.Action.Rules.{
  IsPreorder, Stays, pure-Stays, throw-Stays, >>=-Stays, catch-Stays, if-Stays,
}
use rsyncrypto.Files.System.{Os, World, Options, Stat, lstat, opendir}
use rsyncrypto.Dirs.{
  EncryptFunc, NameFunc, from_offset, failed, each, existing, regular_file, visit, recurse_dir_enc,
}

module _ (F : Os) (R : World F → World F → Type 0) (P : IsPreorder R) where
  abbrev pub Keeps : {A : Type 0} → Action (World F) A → Type 0
  Keeps m = Stays R m

  unchanged_Keeps : {A : Type 0} (f : World F → Result A) → Keeps (λ w. (f w, w))
  unchanged_Keeps f = record { stays = λ w. P.same w }

  try_catch-Keeps :
      {A : Type 0} (m : Action (World F) A) (handler : Error → Action (World F) A)
      → Keeps m
      → ((x : Error) → Keeps (handler x))
      → Keeps (try_catch m handler)
  try_catch-Keeps {A} m handler h k =
      catch-Stays R P m _ h (λ x. if-Stays R P (is_thrown x) _ _ (k x) (throw-Stays R P A x))

  when-Keeps : (test : Bool) (m : Action (World F) (Unit {0})) → Keeps m → Keeps (when test m)
  when-Keeps test m h = if-Stays R P test m _ h (pure-Stays R P tt)

  lstat-Keeps : (p : Bytes) → Keeps (lstat F p)
  unfolding lstat
  lstat-Keeps p = unchanged_Keeps (λ w. F.lstat p w.os)

  opendir-Keeps : (p : Bytes) → Keeps (opendir F p)
  unfolding opendir
  opendir-Keeps p = unchanged_Keeps (λ w. F.readdir p w.os)

  failed-Keeps : (m : Action (World F) (Unit {0})) → Keeps m → Keeps (failed F m)
  unfolding failed
  failed-Keeps m h =
      try_catch-Keeps _ _ (>>=-Stays R P m _ h (λ t. pure-Stays R P false))
        (λ x. pure-Stays R P true)

  each-Keeps :
      {A : Type 0} (body : A → Action (World F) (Unit {0})) (error : Bool) (xs : List A)
      → ((x : A) → Keeps (body x))
      → Keeps (each F body error xs)
  unfolding each
  each-Keeps body error [] h =
      if-Stays R P error _ _ (throw-Stays R P (Unit {0}) Error.delayed_error) (pure-Stays R P tt)
  each-Keeps body error (x ∷ xs) h =
      >>=-Stays R P (failed F (body x)) _ (failed-Keeps (body x) (h x))
        (λ b. each-Keeps body (error || b) xs h)

  existing-Keeps : (dst : Bytes) → Keeps (existing F dst)
  unfolding existing
  existing-Keeps dst =
      try_catch-Keeps _ _ (>>=-Stays R P _ _ (lstat-Keeps dst) (λ st. pure-Stays R P (some st)))
        (λ x. pure-Stays R P none)

  module _ (o : Options) (op : EncryptFunc F) (dstname keyname : NameFunc F) (inside : Bytes → Bool)
      (closed : (d name : Bytes) → inside d ≡ true → inside (combine_paths d name) ≡ true)
      (op-Keeps : (src dst key_file : Bytes) (st : Option Stat)
        → inside src ≡ true
        → Keeps (op src dst key_file st))
      (dstname-Keeps : (l r : Bytes) (mode : Mode) → Keeps (dstname l r mode))
      (keyname-Keeps : (l r : Bytes) (mode : Mode) → Keeps (keyname l r mode)) where
    regular_file-Keeps :
        (src dst key_file : Bytes) (status : Stat)
        → inside src ≡ true
        → Keeps (regular_file F o op src dst key_file status)
    unfolding regular_file
    regular_file-Keeps src dst key_file status h = >>=-Stays R P _ _ (existing-Keeps dst) (λ st.
        when-Keeps _ _ (
          try_catch-Keeps _ _ (op-Keeps src dst key_file (some status) h) (λ x. pure-Stays R P tt)))

    visit-Keeps :
        (descend : Bytes → Action (World F) (Unit {0})) (src_offset : ℕ) (op_handle_dir : Bool)
        (src_dir dst_dir key_dir d_name : Bytes)
        → inside src_dir ≡ true
        → ((d : Bytes) → inside d ≡ true → Keeps (descend d))
        → Keeps (
            visit F o op descend src_offset op_handle_dir dstname keyname src_dir dst_dir key_dir
              d_name)
    unfolding visit
    visit-Keeps descend src_offset op_handle_dir src_dir dst_dir key_dir d_name h k =
        let src_filename = combine_paths src_dir d_name in
        let within = closed src_dir d_name h in
        >>=-Stays R P _ _ (lstat-Keeps src_filename) (λ status.
          >>=-Stays R P _ _ (unchanged_Keeps (λ w. from_offset src_offset src_filename)) (λ right.
            >>=-Stays R P _ _ (dstname-Keeps dst_dir right status.st_mode) (λ dst.
              >>=-Stays R P _ _ (keyname-Keeps key_dir right status.st_mode)
                (λ key_file. when-Keeps _ _ (by_mode status dst key_file status.st_mode)))))
      where
        by_mode :
            (status : Stat) (dst key_file : Bytes) (mode : Mode)
            → Keeps (elim mode as (λ x. Action (World F) (Unit {0})) [
              | s_ifreg ↦ regular_file F o op (combine_paths src_dir d_name) dst key_file status
              | s_ifdir ↦
                  when (not (bytes_eq d_name (46 ∷ [])) && not (bytes_eq d_name (46 ∷ 46 ∷ []))) (
                    descend (combine_paths src_dir d_name)
                    >> when op_handle_dir
                        (op (combine_paths src_dir d_name) dst key_file (some status)))
              | s_iflnk ↦ pure tt
              | other ↦ pure tt
            ])
        by_mode status dst key_file s_ifreg =
            regular_file-Keeps _ dst key_file status (closed src_dir d_name h)
        by_mode status dst key_file s_ifdir = when-Keeps _ _ (
            >>=-Stays R P _ _ (k _ (closed src_dir d_name h)) (λ t.
              when-Keeps op_handle_dir _
                (op-Keeps _ dst key_file (some status) (closed src_dir d_name h))))
        by_mode status dst key_file s_iflnk = pure-Stays R P tt
        by_mode status dst key_file other = pure-Stays R P tt

    pub recurse_dir_enc-Keeps :
        (fuel src_offset : ℕ) (op_handle_dir : Bool) (dst_dir key_dir src_dir : Bytes)
        → inside src_dir ≡ true
        → Keeps (
            recurse_dir_enc F o op fuel src_offset op_handle_dir dstname keyname dst_dir key_dir
              src_dir)
    unfolding recurse_dir_enc
    recurse_dir_enc-Keeps zero src_offset op_handle_dir dst_dir key_dir src_dir h =
        throw-Stays R P (Unit {0}) Error.out_of_fuel
    recurse_dir_enc-Keeps (suc fuel) src_offset op_handle_dir dst_dir key_dir src_dir h =
        >>=-Stays R P _ _ (opendir-Keeps src_dir) (λ ents. each-Keeps _ false ents (λ d_name.
          visit-Keeps
            (recurse_dir_enc F o op fuel src_offset op_handle_dir dstname keyname dst_dir key_dir)
            src_offset op_handle_dir src_dir dst_dir key_dir d_name h
            (λ d. recurse_dir_enc-Keeps fuel src_offset op_handle_dir dst_dir key_dir d)))
