-- ===== src/Processes/Decrypting.antt =====
-- The program that `decrypt_file` of crypto.cpp puts between a pipe and the file: gzip reads the pipe and
-- writes the file.
use rsyncrypto.Prelude.{
  ℕ, ◌≤◌, Bool, true, Bytes, List, ◌∷◌, none, some, ◌≡◌, ◌≢◌, refl, ◌∙◌, ap, arith,
}
use rsyncrypto.Descriptors.{Table, open_at, close, of_fd, clear, close_fd, valid, no_fd}
use rsyncrypto.Processes.{
  clear_read, clear_write, redir_pipe, redir_fd, child_redirect, parent_redirect, replaced,
  returned, process_ctl,
}
use rsyncrypto.Processes.Pipeline.{
  IsNewPipe, pipe_of, from-redir_fd, stdin-redir_pipe, replaced-process_ctl, returned-process_ctl,
  IsOnlyAt, IsShut, shut_twice,
}

only-child :
    (d r w dst reading : ℕ) (t : Table) (q : ℕ)
    → (t q ≡ some reading → q ≡ r)
    → dst ≢ reading
    → close d (open_at 1 dst (close w (close r (open_at 0 reading t)))) q ≡ some reading
    → q ≡ 0
unfolding close
only-child d r w dst reading t q only differ h = ground arith

no-child :
    (d r w dst reading writing : ℕ) (t : Table) (q : ℕ)
    → (t q ≡ some writing → q ≡ w)
    → dst ≢ writing
    → reading ≢ writing
    → close d (open_at 1 dst (close w (close r (open_at 0 reading t)))) q ≢ some writing
unfolding close
no-child d r w dst reading writing t q only differ distinct h = ground arith

reaches_stdin :
    (d r w dst reading : ℕ) (t : Table)
    → 3 ≤ d
    → 3 ≤ r
    → 3 ≤ w
    → close d (open_at 1 dst (close w (close r (open_at 0 reading t)))) 0 ≡ some reading
unfolding close
reaches_stdin d r w dst reading t hd hr hw = ground arith

reaches_stdout :
    (d r w dst reading : ℕ) (t : Table)
    → 3 ≤ d
    → close d (open_at 1 dst (close w (close r (open_at 0 reading t)))) 1 ≡ some dst
unfolding close
reaches_stdout d r w dst reading t hd = ground arith

at_target :
    (d r w dst reading writing : ℕ) (t : Table)
    → t d ≡ some dst
    → t r ≡ some reading
    → t w ≡ some writing
    → 3 ≤ d
    → dst ≢ reading
    → dst ≢ writing
    → close w (close r (open_at 0 reading t)) d ≡ some dst
unfolding close
at_target d r w dst reading writing t at_d at_r at_w beyond differ distinct = ground arith

decrypt_child :
    (d r w dst reading writing : ℕ) (t : Table)
    → IsNewPipe r w reading writing t
    → t d ≡ some dst
    → 3 ≤ d
    → dst ≢ reading
    → dst ≢ writing
    → (child_redirect
        (redir_fd (of_fd (some d)))
        1
        (child_redirect (redir_pipe (pipe_of r w)) 0 t).1).1
      ≡ close d (open_at 1 dst (close w (close r (open_at 0 reading t))))
decrypt_child d r w dst reading writing t pipe at_d beyond_d dst≢reading dst≢writing =
    let at =
      at_target d r w dst reading writing t at_d pipe.at_r pipe.at_w beyond_d dst≢reading
        dst≢writing in
    ap (λ u. (child_redirect (redir_fd (of_fd (some d))) 1 u).1)
      (stdin-redir_pipe r w reading t pipe.at_r)
    ∙ from-redir_fd d 1 dst (close w (close r (open_at 0 reading t))) at

parent_left :
    (d r w pid : ℕ) (t : Table)
    → (let first = parent_redirect (redir_pipe (pipe_of r w)) 0 t in
        let second = parent_redirect (redir_fd (of_fd (some d))) 1 first.1 in
        returned pid (some first.0) (some second.0) none second.1)
      ≡ returned pid
          (some (redir_pipe (record { input = no_fd; output = of_fd (some w) })))
          (some (redir_fd no_fd))
          none
          (close d (close r t))
unfolding parent_redirect clear_read clear_write clear of_fd valid close_fd
parent_left d r w pid t = refl

parent_writes :
    (d r w dst reading writing : ℕ) (t : Table)
    → t r ≡ some reading
    → t w ≡ some writing
    → t d ≡ some dst
    → dst ≢ writing
    → reading ≢ writing
    → close d (close r t) w ≡ some writing
unfolding close
parent_writes d r w dst reading writing t at_r at_w at_d differ distinct = ground arith

parent_shut :
    (d r reading : ℕ) (t : Table) (q : ℕ)
    → (t q ≡ some reading → q ≡ r)
    → close d (close r t) q ≢ some reading
unfolding close
parent_shut d r reading t q only h = ground arith

target_shut : (d r : ℕ) (t : Table) → close d (close r t) d ≡ none
unfolding close
target_shut d r t = ground arith

-- If the program is found, and a file to write and the two ends of a new pipe are open behind
-- descriptors from 3 on: with the pipe for input and the file for output, process_ctl gives the
-- child the end to read as descriptor 0 alone and the file as descriptor 1, and not the end to
-- write, so that it sees the end of its input; the parent keeps the end to write, and neither the
-- end to read nor its descriptor of the file.
pub stdin-process_ctl :
    (execvp : Bytes → List Bytes → Bool) (cmd : Bytes) (args : List Bytes)
    (pid d r w dst reading writing : ℕ) (t : Table)
    → IsNewPipe r w reading writing t
    → t d ≡ some dst
    → 3 ≤ d
    → dst ≢ reading
    → dst ≢ writing
    → execvp cmd (cmd ∷ args) ≡ true
    → 1 ≤ pid
    → ((u : Table) × (process_ctl
            (some 0)
            execvp
            cmd
            (some (redir_pipe (pipe_of r w)))
            (some (redir_fd (of_fd (some d))))
            none
            args
            t
          ≡ replaced cmd (cmd ∷ args) u)
        × IsOnlyAt 0 reading u
        × (u 1 ≡ some dst)
        × IsShut writing u)
      × ((v : Table) × (process_ctl
              (some pid)
              execvp
              cmd
              (some (redir_pipe (pipe_of r w)))
              (some (redir_fd (of_fd (some d))))
              none
              args
              t
            ≡ returned pid
                (some (redir_pipe (record { input = no_fd; output = of_fd (some w) })))
                (some (redir_fd no_fd))
                none
                v)
          × IsOnlyAt w writing v
          × IsShut reading v
          × (v d ≡ none))
stdin-process_ctl execvp cmd args pid d r w dst reading writing t pipe at_d beyond_d dst≢reading
      dst≢writing found positive =
    (
      (
        close d (open_at 1 dst (close w (close r (open_at 0 reading t)))),
        replaced-process_ctl execvp cmd _ _ args t found
            ∙ ap (replaced cmd (cmd ∷ args)) (
                decrypt_child d r w dst reading writing t pipe at_d beyond_d dst≢reading
                  dst≢writing),
        (
          reaches_stdin d r w dst reading t beyond_d pipe.beyond_r pipe.beyond_w,
          λ q. only-child d r w dst reading t q (pipe.only_r q) dst≢reading,
        ),
        reaches_stdout d r w dst reading t beyond_d,
        λ q. no-child d r w dst reading writing t q (pipe.only_w q) dst≢writing pipe.distinct,
      ),
      (
        close d (close r t),
        returned-process_ctl execvp cmd _ _ args pid t positive ∙ parent_left d r w pid t,
        (
          parent_writes d r w dst reading writing t pipe.at_r pipe.at_w at_d dst≢writing
              pipe.distinct,
          λ q e. pipe.only_w q (shut_twice r d writing t q e),
        ),
        λ q e. parent_shut d r reading t q (pipe.only_r q) e,
        target_shut d r t,
      ),
    )
