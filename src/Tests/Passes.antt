-- ===== src/Tests/Passes.antt =====
-- The theorems on directories and lists at concrete data.
use rsyncrypto.Prelude.{
  ℕ, ◌-◌, ◌<◌, Bool, true, false, not, ◌&&◌, Bytes, bytes_eq, bytes_eq_iff, List, [], ◌∷◌, Result,
  ok, err, Error, is_thrown, Option, none, some, ◌==◌, if◌then◌else◌, get_or, length, ◌≡◌, ◌≢◌,
  refl, subst, sym, ap, arith, All, ltb, Bool-cases, inl, inr,
}
use rsyncrypto.Filemap.Names.{combine_paths, trim_trailing}
use rsyncrypto.Filemap.Naming.{s_ifdir}
use rsyncrypto.Paths.{name_concat, cond_name_concat}
use rsyncrypto.Action.{pure, throw, when}
use rsyncrypto.Files.System.{World, Options, Stat, stat, lstat}
use rsyncrypto.Dirs.{
  EncryptFunc, NameFunc, delete_missing, existing, is_due, regular_file, listed_file, listed,
  listed_lines, recurse_dir_enc,
}
use rsyncrypto.Dirs.Deletes.{delete_missing_outside}
use rsyncrypto.Dirs.Errors.{
  IsReported, all_of, ending, regular_file-listed_file, listed_lines-all_of,
}
use rsyncrypto.Action.Ending.{pure-Finishes}
use rsyncrypto.Dirs.Depth.{IsTree, recurse_dir_enc-ne-out_of_fuel}
use rsyncrypto.Tests.Disk.{
  Disk, disk, contents, erasing, erasing-IsDeletion, plain_options, at_disk, dated, is_dir,
  status_of, listing,
}

abbrev dir_name : Bytes
dir_name = 100 ∷ []

abbrev file_name : Bytes
file_name = 112 ∷ []

abbrev key_name : Bytes
key_name = 107 ∷ []

abbrev plain_names : NameFunc disk
plain_names left right mode = pure (name_concat left right)

abbrev idle_op : EncryptFunc disk
idle_op src dst key_file st = pure tt

abbrev failing_op : EncryptFunc disk
failing_op src dst key_file st = throw Error.write_failed

abbrev filled : Disk
filled q = some (1 ∷ [])

-- Names that begin with a "d".
abbrev in_dir : Bytes → Bool
in_dir p = get_or p 0 0 == 100

in_dir-combine_paths : (d name : Bytes) → in_dir d ≡ true → in_dir (combine_paths d name) ≡ true
unfolding combine_paths trim_trailing
in_dir-combine_paths [] name h = absurd (ground (arith, h))
in_dir-combine_paths (c ∷ d) name h =
    elim (Bool-cases (ltb 0 (length kept) && not (get_or kept (length kept - 1) 0 == 47))) [
      | inl e ↦ rw e h
      | inr e ↦ rw e h
    ]
  where
    kept : Bytes
    kept = trim_trailing (c ∷ d)

delete_missing_outside_example :
    contents
      (delete_missing disk plain_options erasing idle_op plain_names plain_names 5 file_name 0
        dir_name key_name
        (at_disk filled)).1.os
      file_name
    ≡ some (1 ∷ [])
delete_missing_outside_example =
    delete_missing_outside disk contents erasing erasing-IsDeletion plain_options idle_op
      plain_names plain_names in_dir in_dir-combine_paths file_name (λ l r mode w. refl)
      (λ l r mode w. refl) 5 0 file_name dir_name key_name (at_disk filled) refl refl refl refl

regular_file-listed_file_example :
    (regular_file disk plain_options failing_op file_name key_name key_name
        (dated 0)
        (at_disk filled)
      ≡ (ok tt, at_disk filled))
    × (listed_file disk plain_options erasing failing_op plain_names plain_names cond_name_concat
          plain_names file_name key_name key_name
          (dated 0)
          (at_disk filled)
        ≡ (err Error.write_failed, at_disk filled))
unfolding is_thrown
regular_file-listed_file_example =
    regular_file-listed_file disk plain_options erasing failing_op plain_names plain_names
      plain_names cond_name_concat file_name key_name key_name (dated 0) Error.write_failed
      (at_disk filled) (at_disk filled) refl tt refl refl

abbrev untrimmed : Options
untrimmed = record plain_options { trim = 0 }

listed-IsReported :
    (w : World disk)
    → IsReported
        (listed disk untrimmed erasing failing_op plain_names plain_names cond_name_concat
          plain_names 3 [] dir_name key_name file_name w).0
unfolding listed listed_file existing is_due stat lstat is_thrown name_concat combine_paths
    cond_name_concat
listed-IsReported w = go (w.os file_name) (w.os (100 ∷ 47 ∷ 112 ∷ [])) refl refl
  where
    go :
        (here there : Option Bytes)
        → w.os file_name ≡ here
        → w.os (100 ∷ 47 ∷ 112 ∷ []) ≡ there
        → IsReported
            (listed disk untrimmed erasing failing_op plain_names plain_names cond_name_concat
              plain_names 3 [] dir_name key_name file_name w).0
    go none there e1 e2 = rw e1 refl
    go (some b) none e1 e2 = rw (e1) (rw (e2) refl)
    go (some b) (some b') e1 e2 = rw (e1) (rw (e2) refl)

listed_lines-all_of_example :
    listed_lines disk untrimmed erasing failing_op plain_names plain_names cond_name_concat
      plain_names 3
      (file_name ∷ [])
      []
      dir_name
      key_name
      (at_disk filled)
    ≡ ending disk (
        all_of disk
          (λ line. when (not (length line == 0)) (
            listed disk untrimmed erasing failing_op plain_names plain_names cond_name_concat
              plain_names 3 [] dir_name key_name line))
          (file_name ∷ [])
          (at_disk filled))
listed_lines-all_of_example =
    listed_lines-all_of disk untrimmed erasing failing_op plain_names plain_names plain_names
      cond_name_concat 3 (file_name ∷ []) [] dir_name key_name (at_disk filled)
      (listed-IsReported, tt)

abbrev rank : Bytes → ℕ
rank p = if bytes_eq p dir_name then 1 else 0

abbrev Sinks : Bytes → Bytes → Type 0
Sinks d name =
    is_dir (combine_paths d name) ≡ true
    → (not (bytes_eq name (46 ∷ [])) && not (bytes_eq name (46 ∷ 46 ∷ []))) ≡ true
    → rank (combine_paths d name) < rank d

Sinks-dir_name : All (Sinks dir_name) (listing dir_name)
unfolding combine_paths
Sinks-dir_name = ((λ a b. absurd cc), ((λ a b. omega arith), ((λ a b. absurd cc), tt)))

Sinks-listing : (d : Bytes) → All (Sinks d) (listing d)
unfolding combine_paths
Sinks-listing d = elim (Bool-cases (bytes_eq d dir_name)) [
  | inl e ↦
      subst (λ (x : Bytes). All (Sinks x) (listing x)) (sym ((bytes_eq_iff d dir_name).0 e))
        Sinks-dir_name
  | inr e ↦ rw e tt
]

status-ne : (o : Option Bytes) → status_of o ≢ err Error.out_of_fuel
status-ne none e = cc
status-ne (some b) e = cc

lstat-ne : (p : Bytes) (s : Disk) → disk.lstat p s ≢ err Error.out_of_fuel
lstat-ne p s e = elim (Bool-cases (is_dir p)) [
  | inl d ↦ absurd (cc (rw d at e))
  | inr d ↦ status-ne (s p) (rw d at e)
]

lstat-is_dir :
    (p : Bytes) (s : Disk) (st : Stat)
    → disk.lstat p s ≡ ok st
    → st.st_mode ≡ s_ifdir
    → is_dir p ≡ true
lstat-is_dir p s st e h = elim (Bool-cases (is_dir p)) [
  | inl d ↦ d
  | inr d ↦ absurd (regular_lem (s p) (rw d at e))
]
  where
    regular_lem : (o : Option Bytes) → status_of o ≢ ok st
    regular_lem none k = cc
    regular_lem (some b) k = let m : dated 0 ≡ st = cc in cc (h, ap (λ (x : Stat). x.st_mode) m)

listing_lem :
    (d : Bytes) (ents : List Bytes)
    → ◌≡◌ {A = Result (List Bytes)} (ok (listing d)) (ok ents)
    → listing d ≡ ents
listing_lem d ents e = cc

disk-IsTree : IsTree disk (λ w. Unit {0}) rank Sinks
disk-IsTree = record {
  lists = λ w d ents i e. subst (All (Sinks d)) (listing_lem d ents e) (Sinks-listing d);
  readdir_fuelled = λ w d i e. cc;
  lstat_fuelled = λ w p i e. lstat-ne p w.os e;
  deeper = λ w d name st i l e k t. l (lstat-is_dir (combine_paths d name) w.os st e k) t;
}

recurse_dir_enc-ne-out_of_fuel_example :
    (recurse_dir_enc disk plain_options idle_op 2 1 false plain_names plain_names key_name key_name
      dir_name
      (at_disk filled)).0
    ≢ err Error.out_of_fuel
recurse_dir_enc-ne-out_of_fuel_example =
    recurse_dir_enc-ne-out_of_fuel disk (λ w. Unit {0}) rank Sinks disk-IsTree plain_options idle_op
      plain_names plain_names
      (λ src dst key_file st. pure-Finishes (λ (w : World disk). Unit {0}) tt)
      (λ l r mode. pure-Finishes (λ (w : World disk). Unit {0}) (name_concat l r))
      (λ l r mode. pure-Finishes (λ (w : World disk). Unit {0}) (name_concat l r)) 2 1 false
      key_name key_name dir_name (at_disk filled) (omega arith) tt
