-- ===== src/Windows/Errors.antt =====
-- `Error2errno` of win32/win32glue.cpp, and the members of win32/autofd.cpp that turn on the error of
-- one system call. Errors are the numbers of winerror.h, and those of errno.h.
use rsyncrypto.Prelude.{
  ℕ, true, not, ◌&&◌, ◌||◌, Result, ok, err, Error, Option, none, some, ◌==◌, if◌then◌else◌, ◌≡◌,
  ◌≢◌, ◌↔◌, refl, arith,
}

abbrev pub file_not_found : ℕ
file_not_found = 2

abbrev pub path_not_found : ℕ
path_not_found = 3

abbrev pub invalid_drive : ℕ
invalid_drive = 15

abbrev pub no_more_files : ℕ
no_more_files = 18

abbrev pub broken_pipe : ℕ
broken_pipe = 109

abbrev pub already_exists : ℕ
already_exists = 183

abbrev pub no_entry : ℕ
no_entry = 2

-- `Error2errno`
unfoldable pub error_to_errno : ℕ → ℕ
error_to_errno error =
    if error == 0
    then 0
    else if error == file_not_found || error == path_not_found
    then no_entry
    else if error == invalid_drive
    then 19
    else if error == 5
    then 13
    else if error == 4
    then 24
    else if error == 6
    then 9
    else if error == 7 || (error == 8 || (error == 9 || error == 14))
    then 12
    else if error == 10
    then 7
    else if error == 11
    then 8
    else if error == 16
    then 16
    else if error == 17
    then 18
    else if error == 19
    then 30
    else if error == 20
    then 19
    else if error == 21
    then 6
    else if error == 24
    then 7
    else if error == 29 || error == 30
    then 5
    else if error == 32
    then 16
    else error

-- `autofd::unlink`, from what `DeleteFile` reports if it fails: it returns 0, or -1 and an `errno`.
unfoldable pub unlink : Option ℕ → Result (Option ℕ)
unfolding error_to_errno
unlink none = ok none
unlink (some error) =
    if not (error == file_not_found)
    then err (Error.system (error_to_errno error))
    else ok (some (error_to_errno error))

-- `autofd::rmdir`, from what `RemoveDirectory` reports.
unfoldable pub rmdir : Option ℕ → Result (Unit {0})
unfolding error_to_errno
rmdir none = ok tt
rmdir (some error) =
    if not (error == file_not_found) && not (error == path_not_found)
    then err (Error.system (error_to_errno error))
    else ok tt

-- `autofd::mv`, from what `MoveFileEx` reports.
unfoldable pub mv : Option ℕ → Result (Unit {0})
unfolding error_to_errno
mv none = ok tt
mv (some error) = err (Error.system (error_to_errno error))

error_to_errno-no_entry :
    (error : ℕ)
    → (error_to_errno error ≡ no_entry)
      ↔ ((error == file_not_found || error == path_not_found) ≡ true)
unfolding error_to_errno
error_to_errno-no_entry error = ground arith

-- unlink reports ENOENT exactly for a file that is not found, and throws it exactly for a path
-- that is not found; rmdir never throws it.
pub unlink-no_entry :
    (error : ℕ)
    → ((unlink (some error) ≡ ok (some no_entry)) ↔ (error ≡ file_not_found))
      × ((unlink (some error) ≡ err (Error.system no_entry)) ↔ (error ≡ path_not_found))
      × ((rmdir (some error) ≢ err (Error.system no_entry)))
unfolding unlink rmdir
unlink-no_entry error =
    let k : ((error_to_errno error ≡ no_entry)
        → ((error == file_not_found || error == path_not_found) ≡ true)) =
      (error_to_errno-no_entry error).0 in
    let l : (error_to_errno file_not_found ≡ no_entry) =
      (error_to_errno-no_entry file_not_found).1 refl in
    let m : (error_to_errno path_not_found ≡ no_entry) =
      (error_to_errno-no_entry path_not_found).1 refl in
    ground arith
