-- ===== src/Windows/Listing.antt =====
-- `autodir` of win32/autofd.cpp and win32/autodir.h, and the copying of win32/nullgzip.cpp.
use rsyncrypto.Prelude.{
  ℕ, zero, suc, ◌+◌, ◌<◌, Bool, true, false, not, Bytes, List, [], ◌∷◌, ◌++◌, Result, ◌>>=◌, ok,
  err, Error, Option, none, some, ◌==◌, if◌then◌else◌, length, append_assoc, append-nil, ◌≡◌, refl,
  sym, ◌∙◌, ap, arith,
}
use rsyncrypto.Windows.Errors.{error_to_errno, no_more_files, broken_pipe}

-- What `FindFirstFile` and `FindNextFile` still give: the names, and the error at their end.
pub record Autodir : Type 0 where
  pub finddata : Bytes
  pub following : List Bytes
  pub last_error : ℕ
  pub eof : Bool

-- `autodir::autodir`, for a scan that finds these names: there are always the directory and its parent.
unfoldable pub open_dir : Option ℕ → Bytes → List Bytes → ℕ → Result Autodir
unfolding error_to_errno
open_dir (some error) first following last_error = err (Error.system (error_to_errno error))
open_dir none first following last_error =
    ok (record { finddata = first; following = following; last_error = last_error; eof = false })

-- `autodir::read`; it throws behind the last name, if that is not where the names end.
unfoldable pub read : Autodir → Result (Option Bytes × Autodir)
unfolding error_to_errno
read d = if d.eof then ok (none, d) else elim d.following [
  | [] ↦
      if not (d.last_error == no_more_files)
      then err (Error.system (error_to_errno d.last_error))
      else ok (some d.finddata, record d { eof = true })
  | next ∷ more ↦ ok (some d.finddata, record d { finddata = next; following = more })
]

-- `while( (entry=dir.read())!=NULL )`
unfoldable pub entries : ℕ → Autodir → Result (List Bytes)
unfolding read
entries zero d = err Error.out_of_fuel
entries (suc fuel) d = read d >>= λ (entry, d'). elim entry [
  | none ↦ ok []
  | some name ↦ (entries fuel d' >>= λ names. ok (name ∷ names))
]

-- If the names end without an error: the loop reads all of them in their order, with more fuel
-- than there are names.
pub entries-read :
    (first : Bytes) (following : List Bytes) (fuel : ℕ)
    → length following + 1 < fuel
    → (open_dir none first following no_more_files >>= entries fuel) ≡ ok (first ∷ following)
unfolding open_dir entries read
entries-read first [] zero h = absurd (omega arith)
entries-read first [] (suc zero) h = absurd (omega arith)
entries-read first [] (suc (suc fuel)) h = refl
entries-read first (next ∷ following) zero h = absurd (omega arith)
entries-read first (next ∷ following) (suc fuel) h =
    ap (λ r. r >>= λ names. ok (first ∷ names)) (entries-read next following fuel (omega arith))

-- One call of `ReadFile`: bytes, none of them at the end of the file, or an error.
pub data ReadResult : Type 0 where
  got : Bytes → ReadResult
  failed : ℕ → ReadResult

-- `main` of nullgzip.cpp: its status and what it wrote, from what the calls of ReadFile give and
-- whether those of WriteFile succeed.
unfoldable pub nullgzip : List ReadResult → (Bytes → Bool) → Bytes → Option (ℕ × Bytes)
nullgzip [] write_file output = none
nullgzip (failed error ∷ reads) write_file output =
    if not (error == broken_pipe) then some (1, output) else some (0, output)
nullgzip (got [] ∷ reads) write_file output = some (0, output)
nullgzip (got (b ∷ bytes) ∷ reads) write_file output =
    let rest = nullgzip reads write_file (output ++ (b ∷ bytes)) in
    if write_file (b ∷ bytes) then rest else some (1, output)

abbrev pub chunks : List (ℕ × Bytes) → List ReadResult → List ReadResult
chunks [] end = end
chunks ((b, bytes) ∷ more) end = got (b ∷ bytes) ∷ chunks more end

abbrev pub joined : List (ℕ × Bytes) → Bytes
joined [] = []
joined ((b, bytes) ∷ more) = (b ∷ bytes) ++ joined more

-- If the writes succeed, the program ends with status 0 and has written what it read, when the
-- input ends and when the pipe is broken.
pub nullgzip-chunks :
    (blocks : List (ℕ × Bytes)) (write_file : Bytes → Bool) (output : Bytes)
    → ((bytes : Bytes) → write_file bytes ≡ true)
    → (nullgzip (chunks blocks (got [] ∷ [])) write_file output ≡ some (0, output ++ joined blocks))
      × (nullgzip (chunks blocks (failed broken_pipe ∷ [])) write_file output
          ≡ some (0, output ++ joined blocks))
unfolding nullgzip
nullgzip-chunks [] write_file output h = (
  ap (λ r. some (0, r)) (sym (append-nil output)),
  ap (λ r. some (0, r)) (sym (append-nil output)),
)
nullgzip-chunks ((b, bytes) ∷ more) write_file output h =
    let written = h (b ∷ bytes) in
    let (eof, pipe) = nullgzip-chunks more write_file (output ++ (b ∷ bytes)) h in
    let all = ap (λ r. some (0, r)) (append_assoc output (b ∷ bytes) (joined more)) in
    (rw (written) (eof ∙ all), rw (written) (pipe ∙ all))
