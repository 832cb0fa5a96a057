-- ===== src/Dirs/Errors.antt =====
-- What becomes of the errors for single files.
use rsyncrypto.Prelude.{
  ℕ, Bool, true, false, not, ◌||◌, Bytes, List, [], ◌∷◌, Result, ok, err, Error, is_thrown, Option,
  none, some, if◌then◌else◌, length, All, ◌==◌, ◌≡◌, refl, ◌∙◌, ap,
}
use rsyncrypto.Action.{Action, when, proceed}
use rsyncrypto.Files.System.{Os, World, Options, Stat, lstat}
use rsyncrypto.Dirs.{
  EncryptFunc, NameFunc, failed, each, existing, regular_file, is_due, listed_file, listed,
  listed_lines,
}

-- The code throws this error, or none.
abbrev pub IsReported : {A : Type 0} → Result A → Type 0
IsReported (ok x) = Unit {0}
IsReported (err e) = is_thrown e ≡ true

-- Whether it throws.
abbrev pub throws : {A : Type 0} → Result A → Bool
throws (ok x) = false
throws (err e) = true

module _ (F : Os) where
  -- One after the other, whatever they throw: whether any of them throws, and the state at the end.
  abbrev pub all_of :
      {A : Type 0} → (A → Action (World F) (Unit {0})) → List A → World F → Bool × World F
  all_of body [] w = (false, w)
  all_of body (x ∷ xs) w =
      let (some_failed, final) = all_of body xs (body x w).1 in
      (throws (body x w).0 || some_failed, final)

  abbrev pub ending : Bool × World F → Result (Unit {0}) × World F
  ending (some_failed, w) = (if some_failed then err Error.delayed_error else ok tt, w)

  failed_lem :
      (m : Action (World F) (Unit {0})) (w : World F)
      → IsReported (m w).0
      → failed F m w ≡ (ok (throws (m w).0), (m w).1)
  unfolding failed
  failed_lem m w h = go (m w) h
    where
      go :
          (r : Result (Unit {0}) × World F)
          → IsReported r.0
          → failed F (λ w'. r) w ≡ (ok (throws r.0), r.1)
      go (ok t, w') k = refl
      go (err e, w') k = rw k refl

  or_assoc : (a b c : Bool) → ((a || b) || c) ≡ (a || (b || c))
  or_assoc true b c = refl
  or_assoc false b c = refl

  each-all_of :
      {A : Type 0} (body : A → Action (World F) (Unit {0})) (error : Bool) (xs : List A)
      (w : World F)
      → All (λ x. (w' : World F) → IsReported (body x w').0) xs
      → each F body error xs w ≡ ending (error || (all_of body xs w).0, (all_of body xs w).1)
  unfolding each
  each-all_of body true [] w h = refl
  each-all_of body false [] w h = refl
  each-all_of {A} body error (x ∷ xs) w h =
      let next : Bool → Action (World F) (Unit {0}) = λ b. each F body (error || b) xs in
      ap (proceed next) (failed_lem (body x) w (h.0 w))
      ∙ each-all_of body (error || throws (body x w).0) xs (body x w).1 h.1
      ∙ ap (λ (b : Bool). ending (b, (all_of body xs (body x w).1).1))
          (or_assoc error (throws (body x w).0) (all_of body xs (body x w).1).0)

  when_lem :
      (test : Bool) (m : Action (World F) (Unit {0})) (w : World F)
      → IsReported (m w).0
      → IsReported (when test m w).0
  when_lem true m w h = h
  when_lem false m w h = tt

  existing_lem :
      (dst : Bytes) (w : World F)
      → IsReported (F.lstat dst w.os)
      → (found : Option Stat) × (existing F dst w ≡ (ok found, w))
  unfolding existing lstat
  existing_lem dst w = go (F.lstat dst w.os) refl
    where
      go :
          (r : Result Stat)
          → F.lstat dst w.os ≡ r
          → IsReported r
          → (found : Option Stat) × (existing F dst w ≡ (ok found, w))
      go (ok st) e h = (some st, rw e refl)
      go (err x) e h = (none, rw e (rw h refl))

  due_lem :
      (o : Options) (mtime : ℕ) (found : Option Stat)
      → o.changed ≡ false
      → is_due o mtime found ≡ true
  unfolding is_due
  due_lem o mtime none h = refl
  due_lem o mtime (some st) h = rw h refl

  module _ (o : Options) (remove : Bytes → Action (World F) Bool) (op : EncryptFunc F)
      (dstname keyname srcnameop : NameFunc F) (prefix_op : Bytes → Bytes → Bool → Bytes) where
    -- Without --changed, when the operation throws for a regular file: for a file in a directory
    -- that is processed recursively the error ends there and the file counts as processed, but for
    -- the same file in a list it is passed on.
    pub regular_file-listed_file :
        (src dst key_file : Bytes) (status : Stat) (x : Error) (w w' : World F)
        → o.changed ≡ false
        → IsReported (F.lstat dst w.os)
        → is_thrown x ≡ true
        → op src dst key_file (some status) w ≡ (err x, w')
        → (regular_file F o op src dst key_file status w ≡ (ok tt, w'))
          × (listed_file F o remove op dstname keyname prefix_op srcnameop src dst key_file status w
              ≡ (err x, w'))
    unfolding regular_file listed_file
    regular_file-listed_file src dst key_file status x w w' all h thrown e =
        let (found, is) = existing_lem dst w h in
        let due = due_lem o status.st_mtime found all in
        (rw (is) (rw (due) (rw (e) (rw thrown refl))), rw (is) (rw (due) (rw (e) refl)))

    -- If no line of a file list leads the code outside its memory or outlasts the fuel, the loop
    -- of filelist_encrypt processes all lines one after the other, whatever they throw, and throws
    -- the delayed error at the end exactly if one of the lines threw.
    pub listed_lines-all_of :
        (fuel : ℕ) (names : List Bytes) (src_arg dst_dir key_dir : Bytes) (w : World F)
        → All
            (λ line.
              (w' : World F)
              → IsReported
                  (listed F o remove op dstname keyname prefix_op srcnameop fuel src_arg dst_dir
                    key_dir line w').0)
            names
        → listed_lines F o remove op dstname keyname prefix_op srcnameop fuel names src_arg dst_dir
            key_dir w
          ≡ ending (
              all_of
                (λ line. when (not (length line == 0)) (
                  listed F o remove op dstname keyname prefix_op srcnameop fuel src_arg dst_dir
                    key_dir line))
                names
                w)
    unfolding listed_lines
    listed_lines-all_of fuel names src_arg dst_dir key_dir w h =
        each-all_of _ false names w (reported_lem names h)
      where
        reported_lem :
            (lines : List Bytes)
            → All
                (λ line.
                  (w' : World F)
                  → IsReported
                      (listed F o remove op dstname keyname prefix_op srcnameop fuel src_arg dst_dir
                        key_dir line w').0)
                lines
            → All
                (λ line.
                  (w' : World F)
                  → IsReported
                      (when
                        (not (length line == 0))
                        (listed F o remove op dstname keyname prefix_op srcnameop fuel src_arg
                          dst_dir key_dir line)
                        w').0)
                lines
        reported_lem [] k = tt
        reported_lem (line ∷ more) k = (
          (λ w'.
              when_lem (not (length line == 0))
                (listed F o remove op dstname keyname prefix_op srcnameop fuel src_arg dst_dir
                  key_dir line)
                w' (k.0 w')),
          reported_lem more k.1,
        )
