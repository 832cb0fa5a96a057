-- ===== src/Paths/Trim.antt =====
-- `calc_trim` finds the end of a number of directories.
use rsyncrypto.Prelude.{
  ℕ, zero, suc, ◌+◌, ◌-◌, ◌<◌, ◌≤◌, Bool, true, false, not, ◌&&◌, Bytes, List, [], ◌∷◌, ◌++◌,
  Result, ok, err, Error, ◌>>=◌, returned_lem, ◌==◌, if◌then◌else◌, length, replicate, All, ◌≡◌,
  ◌≢◌, refl, sym, ◌∙◌, ap, arith, length-append, length-replicate, append_assoc,
}
use rsyncrypto.Filemap.{dirsep_c}
use rsyncrypto.Paths.{trim_loop, skip_seps, calc_trim}

abbrev pub IsNameChar : ℕ → Type 0
IsNameChar c = c ≢ dirsep_c

-- A directory of a path: its name and the separators behind it, one more than the number.
pub record Step : Type 0 where
  pub name : Bytes
  pub seps : ℕ

pub record IsStep (d : Step) : Type 0 where
  pub some : 0 < length d.name
  pub chars : All IsNameChar d.name

abbrev pub steps : List Step → Bytes
steps [] = []
steps (d ∷ ds) = d.name ++ (dirsep_c ∷ (replicate d.seps dirsep_c ++ steps ds))

-- The rest of the path begins no separator.
abbrev pub IsRest : Bytes → Type 0
IsRest [] = Unit
IsRest (c ∷ rest) = c ≢ dirsep_c

trim_loop_le :
    (n : ℕ) (after : Bool) (ret : ℕ) (path : Bytes) (r : ℕ) (rest : Bytes)
    → trim_loop n after ret path ≡ ok (r, rest)
    → r + length rest ≡ ret + length path
unfolding trim_loop
trim_loop_le n after ret [] r rest e = ground arith
trim_loop_le n after ret (c ∷ path) r rest e = ground (
  arith,
  trim_loop_le (if after && c == dirsep_c then n - 1 else n) (not (c == dirsep_c)) (ret + 1) path r
      rest,
)

skip_seps_le : (ret : ℕ) (rest : Bytes) → skip_seps ret rest ≤ ret + length rest
unfolding skip_seps
skip_seps_le ret [] = omega arith
skip_seps_le ret (c ∷ rest) = ground (arith, skip_seps_le (ret + 1) rest)

calc_trim_loop :
    (path : Bytes) (n : ℕ)
    → 0 < length path
    → 0 < n
    → calc_trim path n ≡ (trim_loop n false 0 path >>= λ (r, rest). ok (skip_seps r rest))
unfolding calc_trim
calc_trim_loop path n h k =
    let some : (length path == 0) ≡ false = ground arith in
    let trims : (n == 0) ≡ false = ground arith in rw (some, trims) refl

calc_trim_zero : (path : Bytes) → 0 < length path → calc_trim path 0 ≡ ok 0
unfolding calc_trim
calc_trim_zero path h = let some : (length path == 0) ≡ false = ground arith in rw some refl

calc_trim_empty : (n : ℕ) → calc_trim [] n ≡ err Error.trim_empty_path
unfolding calc_trim
calc_trim_empty n = refl

-- What calc_trim gives is a position in the path, or its end.
pub calc_trim_le :
    (path : Bytes) (trim_count r : ℕ) → calc_trim path trim_count ≡ ok r → r ≤ length path
calc_trim_le [] n r e = absurd (cc (sym (calc_trim_empty n) ∙ e))
calc_trim_le (c ∷ path) zero r e =
    let z : 0 ≡ r = cc (sym (calc_trim_zero (c ∷ path) (omega arith)) ∙ e) in omega arith
calc_trim_le (c ∷ path) (suc n) r e =
    let ((at, rest), w, p) =
      returned_lem (trim_loop (suc n) false 0 (c ∷ path)) (λ (q, tail). ok (skip_seps q tail)) r
        (sym (calc_trim_loop (c ∷ path) (suc n) (omega arith) (omega arith)) ∙ e) in
    let last : skip_seps at rest ≡ r = cc in
    omega (arith, last, skip_seps_le at rest, trim_loop_le (suc n) false 0 (c ∷ path) at rest w)

-- Separators in front, and behind a name, are passed over.
trim_seps :
    (n ret k : ℕ) (path : Bytes)
    → 0 < n
    → trim_loop n false ret (replicate k dirsep_c ++ path) ≡ trim_loop n false (ret + k) path
unfolding trim_loop
trim_seps n ret zero path h = ap (λ (r : ℕ). trim_loop n false r path) (omega arith)
trim_seps n ret (suc k) path h =
    let go_on : (n == 0) ≡ false = ground arith in
    rw go_on (
      trim_seps n (ret + 1) k path h
      ∙ ap (λ (r : ℕ). trim_loop n false r path) {x = ret + 1 + k} (omega arith))

-- A name is passed over.
trim_name :
    (n ret : ℕ) (after : Bool) (c : ℕ) (name path : Bytes)
    → 0 < n
    → All IsNameChar (c ∷ name)
    → trim_loop n after ret ((c ∷ name) ++ path) ≡ trim_loop n true (ret + length (c ∷ name)) path
unfolding trim_loop
trim_name n ret after c [] path h v =
    let name : (c == dirsep_c) ≡ false = ground (arith, v.0) in
    let go_on : (n == 0) ≡ false = ground arith in
    let same : (after && false) ≡ false = ground arith in rw (name, same, go_on) refl
trim_name n ret after c (d ∷ name) path h v =
    let one : (c == dirsep_c) ≡ false = ground (arith, v.0) in
    let go_on : (n == 0) ≡ false = ground arith in
    let same : (after && false) ≡ false = ground arith in
    rw (one, same, go_on)
      (trim_name n (ret + 1) true d name path h v.1
        ∙ ap (λ (r : ℕ). trim_loop n true r path) {x = ret + 1 + length (d ∷ name)} (omega arith))

-- Behind a name, a separator counts.
trim_sep :
    (n ret : ℕ) (path : Bytes)
    → trim_loop (suc (suc n)) true ret (dirsep_c ∷ path) ≡ trim_loop (suc n) false (ret + 1) path
unfolding trim_loop
trim_sep n ret path = ground arith

trim_last :
    (ret : ℕ) (path : Bytes) → trim_loop 1 true ret (dirsep_c ∷ path) ≡ ok (ret, dirsep_c ∷ path)
unfolding trim_loop
trim_last ret path = refl

skip_all :
    (ret k : ℕ) (rest : Bytes)
    → IsRest rest
    → skip_seps ret (replicate k dirsep_c ++ rest) ≡ ret + k
unfolding skip_seps
skip_all ret zero [] h = omega arith
skip_all ret zero (c ∷ rest) h = ground arith
skip_all ret (suc k) rest h = skip_all (ret + 1) k rest h ∙ omega arith

ends : (n ret : ℕ) (path : Bytes) → Result ℕ
ends n ret path = trim_loop n false ret path >>= λ (r, rest). ok (skip_seps r rest)

steps-append :
    (d : Step) (ds : List Step) (rest : Bytes)
    → steps (d ∷ ds) ++ rest
      ≡ d.name ++ (dirsep_c ∷ (replicate d.seps dirsep_c ++ (steps ds ++ rest)))
steps-append d ds rest = simp append_assoc

length-steps :
    (d : Step) (ds : List Step)
    → length (steps (d ∷ ds)) ≡ length d.name + suc d.seps + length (steps ds)
length-steps d ds =
    let seps : Bytes = replicate d.seps dirsep_c in
    omega (
      arith,
      length-append d.name (dirsep_c ∷ (seps ++ steps ds)),
      length-append seps (steps ds),
      length-replicate {0} {A = ℕ} d.seps dirsep_c,
    )

name_over :
    (n ret : ℕ) (name path : Bytes)
    → 0 < n
    → 0 < length name
    → All IsNameChar name
    → trim_loop n false ret (name ++ path) ≡ trim_loop n true (ret + length name) path
name_over n ret [] path h k v = absurd (omega arith)
name_over n ret (c ∷ name) path h k v = trim_name n ret false c name path h v

ends-steps :
    (d : Step) (ds : List Step) (ret : ℕ) (rest : Bytes)
    → IsStep d
    → All IsStep ds
    → IsRest rest
    → ends (length (d ∷ ds)) ret (steps (d ∷ ds) ++ rest) ≡ ok (ret + length (steps (d ∷ ds)))
unfolding ends
ends-steps d [] ret rest v vs h =
    let seps : Bytes = replicate d.seps dirsep_c in
    let at = ret + length d.name in
    let first =
      name_over 1 ret d.name (dirsep_c ∷ (seps ++ rest)) (omega arith) v.some v.chars
      ∙ trim_last at (seps ++ rest) in
    rw (steps-append d [] rest, first)
      (ap ok (skip_all at (suc d.seps) rest h ∙ omega (arith, length-steps d [])))
ends-steps d (e ∷ ds) ret rest v vs h =
    let n = length ds in
    let seps : Bytes = replicate d.seps dirsep_c in
    let at = ret + length d.name in
    let tail = steps (e ∷ ds) ++ rest in
    let first =
      name_over (suc (suc n)) ret d.name (dirsep_c ∷ (seps ++ tail)) (omega arith) v.some v.chars
      ∙ trim_sep n at (seps ++ tail)
      ∙ trim_seps (suc n) (at + 1) d.seps tail (omega arith) in
    rw (steps-append d (e ∷ ds) rest, first)
      (ends-steps e ds (at + 1 + d.seps) rest vs.0 vs.1 h
        ∙ ap ok (omega (arith, length-steps d (e ∷ ds))))

-- For a path that begins with any number of separators, goes on with one or more directories, each
-- of them a name without a separator and one or more separators, and then does not begin with a
-- separator: calc_trim for the number of the directories gives the position behind the last of
-- them and its separators.
pub calc_trim-steps :
    (k : ℕ) (d : Step) (ds : List Step) (rest : Bytes)
    → IsStep d
    → All IsStep ds
    → IsRest rest
    → calc_trim (replicate k dirsep_c ++ (steps (d ∷ ds) ++ rest)) (length (d ∷ ds))
      ≡ ok (k + length (steps (d ∷ ds)))
unfolding ends
calc_trim-steps k d ds rest v vs h =
    let tail = steps (d ∷ ds) ++ rest in
    let some : 0 < length (replicate k dirsep_c ++ tail) = omega (
      arith,
      length-append (replicate k dirsep_c) tail,
      length-append (steps (d ∷ ds)) rest,
      length-steps d ds,
    ) in
    calc_trim_loop (replicate k dirsep_c ++ tail) (length (d ∷ ds)) some (omega arith)
    ∙ rw (trim_seps (length (d ∷ ds)) 0 k tail (omega arith))
        (ends-steps d ds (0 + k) rest v vs h ∙ ap ok (omega arith))
