-- ===== src/Tests/Windows.antt =====
-- The theorems on the port to Windows at concrete data.
use rsyncrypto.Prelude.{
  ℕ, ◌%◌, ◌<◌, false, Bytes, [], ◌∷◌, ◌>>=◌, ok, none, some, ◌≡◌, ◌≢◌, ◌↔◌, refl, arith,
}
use rsyncrypto.Filemap.Names
use rsyncrypto.Windows.Paths.{trim_leading, combine_paths}
use rsyncrypto.Windows.Paths.Swapped.{swapped, swapped-combine_paths}
use rsyncrypto.Windows.Handles.{handle_of, Opened, Handles, opened_at, of_handle}
use rsyncrypto.Windows.Processes.{Startupinfo, redir_pipe, redir_fd, Created, process_ctl}
use rsyncrypto.Windows.Processes.Encrypting.{shared, private, IsNewPipe, inherited-process_ctl}
use rsyncrypto.Windows.Calls.{FileAttributes, gives, stat, utimes, stat-utimes}
use rsyncrypto.Windows.Files.{lseek, lseek-position}

-- "\d\\" and "\x"
abbrev left : Bytes
left = 92 ∷ 100 ∷ 92 ∷ 92 ∷ []

abbrev right : Bytes
right = 92 ∷ 120 ∷ []

left_named : trim_leading left ≢ []
unfolding trim_leading
left_named e = absurd cc

swapped-combine_paths_example :
    Names.combine_paths (swapped left) (swapped right) ≡ swapped (combine_paths left right)
swapped-combine_paths_example = swapped-combine_paths left right left_named

abbrev some_file : FileAttributes
some_file = record {
  reparse_point = false;
  is_directory = false;
  last_access_time = record { dw_low_date_time = 5; dw_high_date_time = 30000000 };
  creation_time = record { dw_low_date_time = 6; dw_high_date_time = 30000000 };
  last_write_time = record { dw_low_date_time = 7; dw_high_date_time = 30000000 };
  size_high = 0;
  size_low = 42;
}

stat-utimes_example : stat (gives (utimes 1200000000 1100000000 some_file)) ≡ (
    stat (gives some_file) >>= λ s.
    ok (record s { st_atime = some 1200000000; st_mtime = some 1100000000 }))
stat-utimes_example = stat-utimes 1200000000 1100000000 some_file (omega arith) (omega arith)

lseek-position_example : (lseek 3000000000 ≡ 3000000000) ↔ (3000000000 % 0x100000000 < 0x80000000)
lseek-position_example = lseek-position 3000000000 (omega arith)

abbrev own : Startupinfo
own = record { h_std_input = handle_of 0; h_std_output = handle_of 1; h_std_error = handle_of 2 }

abbrev before : Handles
before = opened_at 3 (private 30) (opened_at 4 (private 40) (opened_at 5 (private 50) (λ q. none)))

before-IsNewPipe : IsNewPipe 4 5 40 50 before
before-IsNewPipe = record {
  at_r = refl;
  at_w = refl;
  only_r = λ q o e f. ground arith;
  only_w = λ q o e f. ground arith;
  distinct = λ e. absurd (omega (arith, e));
}

inherited-process_ctl_example :
    (c : Created) × (process_ctl own
        (some 6)
        (some 7)
        none
        none
        (103 ∷ [])
        (some (redir_fd (of_handle (handle_of 3))))
        (some (
          redir_pipe
            (record { input = of_handle (handle_of 4); output = of_handle (handle_of 5) })))
        none
        []
        before
      ≡ ok c)
    × (c.streams ≡ record own { h_std_input = handle_of 6; h_std_output = handle_of 7 })
    × (c.child 6 ≡ some (shared 30))
    × (c.child 7 ≡ some (shared 50))
    × ((q : ℕ) (o : Opened) → c.child q ≡ some o → o.file ≡ 50 → q ≡ 7)
    × ((q : ℕ) (o : Opened) → c.child q ≡ some o → o.file ≢ 40)
    × ((q : ℕ) (o : Opened) → c.parent q ≡ some o → o.file ≢ 50)
    × (c.parent 4 ≡ some (private 40))
inherited-process_ctl_example =
    inherited-process_ctl own (103 ∷ []) [] 3 4 5 6 7 30 40 50 before before-IsNewPipe refl
      (λ e. absurd (omega (arith, e))) (λ e. absurd (omega (arith, e))) refl refl
      (λ e. absurd (omega (arith, e)))
