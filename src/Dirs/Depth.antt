-- ===== src/Dirs/Depth.antt =====
-- A pass over a directory ends: the fuel is a bound for the depth of the directories.
use rsyncrypto.Prelude.{
  ℕ, zero, suc, ◌<◌, Bool, true, false, not, ◌&&◌, ◌||◌, Bytes, bytes_eq, List, [], ◌∷◌, Result, ok,
  err, Error, Option, none, some, length, All, ltb, drop, ◌≡◌, ◌≢◌, refl, sym, ◌∙◌, ap, arith,
  Bool-cases, inl, inr,
}
use rsyncrypto.Filemap.Names.{combine_paths}
use rsyncrypto.Filemap.Naming.{Mode, s_ifreg, s_ifdir, s_iflnk, other}
use rsyncrypto.Action.{Action, ◌>>◌, pure, lift, when}
use rsyncrypto.Action.Ending.{
  IsFuelled, Finishes, pure-Finishes, throw-Finishes, then-Finishes, simple-Finishes,
  try_catch-Finishes, when-Finishes,
}
use rsyncrypto.Files.System.{Os, World, Options, Stat, lstat, opendir}
use rsyncrypto.Dirs.{
  EncryptFunc, NameFunc, from_offset, failed, each, existing, regular_file, visit, recurse_dir_enc,
}

All-map :
    {A : Type 0} {P Q : A → Type 0} (xs : List A) → All P xs → ((x : A) → P x → Q x) → All Q xs
All-map [] h k = tt
All-map (x ∷ xs) h k = (k x h.0, All-map xs h.1 k)

module _ (F : Os) where
  module _ (I : World F → Type 0) where
    -- Directories that are entered have a smaller rank; names that are not in a directory do not count.
    pub record IsTree (rank : Bytes → ℕ) (Listed : Bytes → Bytes → Type 0) : Type 0 where
      pub lists :
          (w : World F) (d : Bytes) (ents : List Bytes)
          → I w
          → F.readdir d w.os ≡ ok ents
          → All (Listed d) ents
      pub readdir_fuelled : (w : World F) (d : Bytes) → I w → IsFuelled (F.readdir d w.os)
      pub lstat_fuelled : (w : World F) (p : Bytes) → I w → IsFuelled (F.lstat p w.os)
      pub deeper :
          (w : World F) (d name : Bytes) (st : Stat)
          → I w
          → Listed d name
          → F.lstat (combine_paths d name) w.os ≡ ok st
          → st.st_mode ≡ s_ifdir
          → (not (bytes_eq name (46 ∷ [])) && not (bytes_eq name (46 ∷ 46 ∷ []))) ≡ true
          → rank (combine_paths d name) < rank d

    from_offset-Finishes : (offset : ℕ) (s : Bytes) → Finishes I (lift (from_offset offset s))
    unfolding from_offset
    from_offset-Finishes offset s = elim (Bool-cases (ltb (length s) offset)) [
      | inl e ↦ rw e (throw-Finishes I Bytes Error.out_of_bounds (λ z. cc))
      | inr e ↦ rw e (pure-Finishes I (drop offset s))
    ]

    failed-Finishes : (m : Action (World F) (Unit {0})) → Finishes I m → Finishes I (failed F m)
    unfolding failed
    failed-Finishes m h =
        try_catch-Finishes I _ _ (simple-Finishes I m _ h (λ t. pure-Finishes I false))
          (λ x. pure-Finishes I true)

    each-Finishes :
        {A : Type 0} (body : A → Action (World F) (Unit {0})) (error : Bool) (xs : List A)
        → All (λ x. Finishes I (body x)) xs
        → Finishes I (each F body error xs)
    unfolding each
    each-Finishes body true [] h = throw-Finishes I (Unit {0}) Error.delayed_error (λ e. cc)
    each-Finishes body false [] h = pure-Finishes I tt
    each-Finishes body error (x ∷ xs) h =
        simple-Finishes I (failed F (body x)) _ (failed-Finishes (body x) h.0)
          (λ b. each-Finishes body (error || b) xs h.1)

    module _ (rank : Bytes → ℕ) (Listed : Bytes → Bytes → Type 0) (T : IsTree rank Listed)
        (o : Options) (op : EncryptFunc F) (dstname keyname : NameFunc F)
        (op-Finishes : (src dst key_file : Bytes) (st : Option Stat)
          → Finishes I (op src dst key_file st))
        (dstname-Finishes : (l r : Bytes) (mode : Mode) → Finishes I (dstname l r mode))
        (keyname-Finishes : (l r : Bytes) (mode : Mode) → Finishes I (keyname l r mode)) where
      lstat-Finishes : (p : Bytes) → Finishes I (lstat F p)
      unfolding lstat
      lstat-Finishes p = record { finishes = λ w i. (T.lstat_fuelled w p i, i) }

      regular_file-Finishes :
          (src dst key_file : Bytes) (status : Stat)
          → Finishes I (regular_file F o op src dst key_file status)
      unfolding regular_file existing
      regular_file-Finishes src dst key_file status =
          simple-Finishes I _ _
            (try_catch-Finishes I _ _
              (simple-Finishes I _ _ (lstat-Finishes dst) (λ st. pure-Finishes I (some st)))
              (λ x. pure-Finishes I none))
            (λ st. when-Finishes I _ _ (λ e.
              try_catch-Finishes I _ _ (op-Finishes src dst key_file (some status))
                (λ x. pure-Finishes I tt)))

      visit-Finishes :
          (descend : Bytes → Action (World F) (Unit {0})) (src_offset : ℕ) (op_handle_dir : Bool)
          (src_dir dst_dir key_dir d_name : Bytes)
          → Listed src_dir d_name
          → ((d : Bytes) → rank d < rank src_dir → Finishes I (descend d))
          → Finishes I (
              visit F o op descend src_offset op_handle_dir dstname keyname src_dir dst_dir key_dir
                d_name)
      unfolding visit lstat
      visit-Finishes descend src_offset op_handle_dir src_dir dst_dir key_dir d_name l k =
          then-Finishes I (lstat F src_filename) _ (lstat-Finishes src_filename) (λ status w w' i e.
            (simple-Finishes I _ _ (from_offset-Finishes src_offset src_filename) (λ right.
                simple-Finishes I _ _ (dstname-Finishes dst_dir right status.st_mode) (λ dst.
                  simple-Finishes I _ _ (keyname-Finishes key_dir right status.st_mode) (λ key_file.
                    when-Finishes I _ _ (λ t. by_mode status dst key_file status.st_mode (λ d h.
                      T.deeper w' src_dir d_name status i l
                        (ap (λ (r : Result Stat × World F). F.lstat src_filename r.1.os) (sym e)
                          ∙ ap (λ (r : Result Stat × World F). r.0) e)
                        d h)))))).finishes
              w' i)
        where
          src_filename : Bytes
          src_filename = combine_paths src_dir d_name

          by_mode :
              (status : Stat) (dst key_file : Bytes) (mode : Mode)
              → (mode ≡ s_ifdir
                  → (not (bytes_eq d_name (46 ∷ [])) && not (bytes_eq d_name (46 ∷ 46 ∷ []))) ≡ true
                  → rank src_filename < rank src_dir)
              → Finishes I (elim mode as (λ x. Action (World F) (Unit {0})) [
                | s_ifreg ↦ regular_file F o op src_filename dst key_file status
                | s_ifdir ↦
                    when (not (bytes_eq d_name (46 ∷ [])) && not (bytes_eq d_name (46 ∷ 46 ∷ []))) (
                      descend src_filename
                      >> when op_handle_dir (op src_filename dst key_file (some status)))
                | s_iflnk ↦ pure tt
                | other ↦ pure tt
              ])
          by_mode status dst key_file s_ifreg h =
              regular_file-Finishes src_filename dst key_file status
          by_mode status dst key_file s_ifdir h = when-Finishes I _ _ (λ t.
              simple-Finishes I _ _ (k src_filename (h refl t)) (λ z.
                when-Finishes I op_handle_dir _
                  (λ y. op-Finishes src_filename dst key_file (some status))))
          by_mode status dst key_file s_iflnk h = pure-Finishes I tt
          by_mode status dst key_file other h = pure-Finishes I tt

      recurse_dir_enc-Finishes :
          (fuel src_offset : ℕ) (op_handle_dir : Bool) (dst_dir key_dir src_dir : Bytes)
          → rank src_dir < fuel
          → Finishes I (
              recurse_dir_enc F o op fuel src_offset op_handle_dir dstname keyname dst_dir key_dir
                src_dir)
      unfolding recurse_dir_enc opendir
      recurse_dir_enc-Finishes zero src_offset op_handle_dir dst_dir key_dir src_dir h =
          absurd (omega arith)
      recurse_dir_enc-Finishes (suc fuel) src_offset op_handle_dir dst_dir key_dir src_dir h =
          then-Finishes I (opendir F src_dir) _
            (record { finishes = λ w i. (T.readdir_fuelled w src_dir i, i) })
            (λ ents w w' i e.
              (each-Finishes _ false ents (
                  All-map ents
                    (T.lists w' src_dir ents i (
                      ap (λ (r : Result (List Bytes) × World F). F.readdir src_dir r.1.os) (sym e)
                      ∙ ap (λ (r : Result (List Bytes) × World F). r.0) e))
                    (λ d_name l.
                      visit-Finishes
                        (recurse_dir_enc F o op fuel src_offset op_handle_dir dstname keyname
                          dst_dir key_dir)
                        src_offset op_handle_dir src_dir dst_dir key_dir d_name l
                        (λ d below.
                          recurse_dir_enc-Finishes fuel src_offset op_handle_dir dst_dir key_dir d
                            (omega (arith, below, h)))))).finishes
                w' i)

      -- If each directory that can be entered has a smaller rank than the one it is listed in, in
      -- every state that the calls lead to, and the operation and the functions for the names end,
      -- then recurse_dir_enc ends with any fuel above the rank of the directory: the fuel does not
      -- run out.
      pub recurse_dir_enc-ne-out_of_fuel :
          (fuel src_offset : ℕ) (op_handle_dir : Bool) (dst_dir key_dir src_dir : Bytes)
          (w : World F)
          → rank src_dir < fuel
          → I w
          → (recurse_dir_enc F o op fuel src_offset op_handle_dir dstname keyname dst_dir key_dir
              src_dir w).0
            ≢ err Error.out_of_fuel
      recurse_dir_enc-ne-out_of_fuel fuel src_offset op_handle_dir dst_dir key_dir src_dir w h i =
          ((recurse_dir_enc-Finishes fuel src_offset op_handle_dir dst_dir key_dir src_dir
              h).finishes
            w i).0
