-- ===== src/Tests/Processes.antt =====
-- The theorems on descriptors and processes at concrete tables.
use rsyncrypto.Prelude.{
  ℕ, Bool, true, false, Bytes, List, [], ◌∷◌, ◌++◌, none, some, ◌≡◌, refl, arith,
}
use rsyncrypto.Descriptors.{
  Table, open_at, close, Autofd, no_fd, of_fd, valid, release, clear, close_fd, same_fd, take_over,
  assign,
}
use rsyncrypto.Descriptors.Owners.{owners, opened}
use rsyncrypto.Descriptors.Ownership.{Run, start, step, made, assigned, run-owners}
use rsyncrypto.Processes.{redir_pipe, redir_fd, replaced, returned, process_ctl}
use rsyncrypto.Processes.Pipeline.{IsNewPipe, pipe_of, IsOnlyAt, IsShut}
use rsyncrypto.Processes.Encrypting.{stdout-process_ctl}
use rsyncrypto.Processes.Decrypting.{stdin-process_ctl}
use rsyncrypto.Processes.Wait.{exited, killed, wait, failures, wait_lem}

abbrev nothing : Table
nothing q = none

abbrev of_3 : Autofd
of_3 = record { fd = some 3; owner = true; f_eof = false }

abbrev of_4 : Autofd
of_4 = record { fd = some 4; owner = true; f_eof = false }

-- Two descriptors are opened.
two_made : Run (of_fd (some 4) ∷ of_fd (some 3) ∷ []) (open_at 4 8 (open_at 3 7 nothing))
two_made = step (step start (made 3 7 refl)) (made 4 8 refl)

-- The second object is assigned to the first, whose descriptor is closed.
one_left :
    Run
      (record { fd = some 4; owner = false; f_eof = false }
        ∷ record { fd = some 4; owner = true; f_eof = false }
        ∷ [])
      (close 3 (open_at 4 8 (open_at 3 7 nothing)))
unfolding assign take_over clear close_fd close release of_fd valid same_fd
one_left = step two_made (assigned 1 0 of_3 of_4 refl refl (λ e. absurd (omega (arith, e))))

run-owners_example :
    owners 4 (
      record { fd = some 4; owner = false; f_eof = false }
      ∷ record { fd = some 4; owner = true; f_eof = false }
      ∷ [])
    ≡ opened (close 3 (open_at 4 8 (open_at 3 7 nothing))) 4
run-owners_example = run-owners one_left 4

-- Beside the standard streams, a file at 3 and a pipe at 4 and 5.
abbrev before : Table
before =
    open_at 3 30 (open_at 4 40 (open_at 5 50 (open_at 0 10 (open_at 1 11 (open_at 2 12 nothing)))))

before-IsNewPipe : IsNewPipe 4 5 40 50 before
before-IsNewPipe = record {
  at_r = refl;
  at_w = refl;
  only_r = λ q e. ground arith;
  only_w = λ q e. ground arith;
  distinct = λ e. absurd (omega (arith, e));
  beyond_r = omega arith;
  beyond_w = omega arith;
}

abbrev gzip : Bytes
gzip = 103 ∷ 122 ∷ []

abbrev finds : Bytes → List Bytes → Bool
finds cmd args = true

stdout-process_ctl_example :
    ((u : Table) × (process_ctl
          (some 0)
          finds
          gzip
          (some (redir_fd (of_fd (some 3))))
          (some (redir_pipe (pipe_of 4 5)))
          none
          []
          before
        ≡ replaced gzip (gzip ∷ []) u)
      × (u 0 ≡ some 30)
      × IsOnlyAt 1 50 u
      × IsShut 40 u)
    × ((v : Table) × (process_ctl
            (some 77)
            finds
            gzip
            (some (redir_fd (of_fd (some 3))))
            (some (redir_pipe (pipe_of 4 5)))
            none
            []
            before
          ≡ returned 77
              (some (redir_fd no_fd))
              (some (redir_pipe (record { input = of_fd (some 4); output = no_fd })))
              none
              v)
        × IsOnlyAt 4 40 v
        × IsShut 50 v
        × (v 3 ≡ none))
stdout-process_ctl_example =
    stdout-process_ctl finds gzip [] 77 3 4 5 30 40 50 before before-IsNewPipe refl (omega arith)
      (λ e. absurd (omega (arith, e))) (λ e. absurd (omega (arith, e))) refl (omega arith)

stdin-process_ctl_example :
    ((u : Table) × (process_ctl
          (some 0)
          finds
          gzip
          (some (redir_pipe (pipe_of 4 5)))
          (some (redir_fd (of_fd (some 3))))
          none
          []
          before
        ≡ replaced gzip (gzip ∷ []) u)
      × IsOnlyAt 0 40 u
      × (u 1 ≡ some 30)
      × IsShut 50 u)
    × ((v : Table) × (process_ctl
            (some 77)
            finds
            gzip
            (some (redir_pipe (pipe_of 4 5)))
            (some (redir_fd (of_fd (some 3))))
            none
            []
            before
          ≡ returned 77
              (some (redir_pipe (record { input = no_fd; output = of_fd (some 5) })))
              (some (redir_fd no_fd))
              none
              v)
        × IsOnlyAt 5 50 v
        × IsShut 40 v
        × (v 3 ≡ none))
stdin-process_ctl_example =
    stdin-process_ctl finds gzip [] 77 3 4 5 30 40 50 before before-IsNewPipe refl (omega arith)
      (λ e. absurd (omega (arith, e))) (λ e. absurd (omega (arith, e))) refl (omega arith)

wait_lem_example :
    (wait (failures 1 ++ (some (exited 3) ∷ [])) (killed 9) ≡ some 3)
    × ((failed : ℕ) → wait (failures 1 ++ (some (killed 3) ∷ failures failed)) (killed 9) ≡ none)
wait_lem_example = wait_lem 1 3 9 []
