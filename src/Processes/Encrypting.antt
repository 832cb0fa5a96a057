-- ===== src/Processes/Encrypting.antt =====
-- The program that `encrypt_file` of crypto.cpp puts between the file and a pipe: gzip reads the file and
-- writes to the pipe.
use rsyncrypto.Prelude.{
  ℕ, ◌≤◌, Bool, true, Bytes, List, ◌∷◌, none, some, ◌≡◌, ◌≢◌, refl, ◌∙◌, ap, arith,
}
use rsyncrypto.Descriptors.{Table, open_at, close, of_fd, clear, close_fd, valid, no_fd}
use rsyncrypto.Processes.{
  clear_read, clear_write, redir_pipe, redir_fd, child_redirect, parent_redirect, replaced,
  returned, process_ctl,
}
use rsyncrypto.Processes.Pipeline.{
  IsNewPipe, pipe_of, from-redir_fd, stdout-redir_pipe, replaced-process_ctl, returned-process_ctl,
  IsOnlyAt, IsShut, shut_twice,
}

only-child :
    (s r w src writing : ℕ) (t : Table) (q : ℕ)
    → (t q ≡ some writing → q ≡ w)
    → src ≢ writing
    → close w (close r (open_at 1 writing (close s (open_at 0 src t)))) q ≡ some writing
    → q ≡ 1
unfolding close
only-child s r w src writing t q only differ h = ground arith

no-child :
    (s r w src reading writing : ℕ) (t : Table) (q : ℕ)
    → (t q ≡ some reading → q ≡ r)
    → src ≢ reading
    → reading ≢ writing
    → close w (close r (open_at 1 writing (close s (open_at 0 src t)))) q ≢ some reading
unfolding close
no-child s r w src reading writing t q only differ distinct h = ground arith

keeps_stdin :
    (s r w src writing : ℕ) (t : Table)
    → 3 ≤ s
    → 3 ≤ r
    → 3 ≤ w
    → close w (close r (open_at 1 writing (close s (open_at 0 src t)))) 0 ≡ some src
unfolding close
keeps_stdin s r w src writing t hs hr hw = ground arith

reaches_stdout :
    (s r w src writing : ℕ) (t : Table)
    → 3 ≤ r
    → 3 ≤ w
    → close w (close r (open_at 1 writing (close s (open_at 0 src t)))) 1 ≡ some writing
unfolding close
reaches_stdout s r w src writing t hr hw = ground arith

at_write :
    (s w src writing : ℕ) (t : Table)
    → t w ≡ some writing
    → t s ≡ some src
    → 3 ≤ w
    → src ≢ writing
    → close s (open_at 0 src t) w ≡ some writing
unfolding close
at_write s w src writing t at_w at_s beyond differ = ground arith

encrypt_child :
    (s r w src reading writing : ℕ) (t : Table)
    → IsNewPipe r w reading writing t
    → t s ≡ some src
    → 3 ≤ s
    → src ≢ reading
    → src ≢ writing
    → (child_redirect
        (redir_pipe (pipe_of r w))
        1
        (child_redirect (redir_fd (of_fd (some s))) 0 t).1).1
      ≡ close w (close r (open_at 1 writing (close s (open_at 0 src t))))
unfolding close
encrypt_child s r w src reading writing t pipe at_s beyond_s src≢reading src≢writing =
    let first = from-redir_fd s 0 src t at_s in
    let h = pipe.at_w in
    let beyond = pipe.beyond_w in
    let at : close s (open_at 0 src t) w ≡ some writing =
      at_write s w src writing t h at_s beyond src≢writing in
    ap (λ u. (child_redirect (redir_pipe (pipe_of r w)) 1 u).1) first
    ∙ stdout-redir_pipe r w writing (close s (open_at 0 src t)) at

parent_left :
    (s r w pid : ℕ) (t : Table)
    → (let first = parent_redirect (redir_fd (of_fd (some s))) 0 t in
        let second = parent_redirect (redir_pipe (pipe_of r w)) 1 first.1 in
        returned pid (some first.0) (some second.0) none second.1)
      ≡ returned pid
          (some (redir_fd no_fd))
          (some (redir_pipe (record { input = of_fd (some r); output = no_fd })))
          none
          (close w (close s t))
unfolding parent_redirect clear_read clear_write clear of_fd valid close_fd
parent_left s r w pid t = refl

parent_reads :
    (s r w src reading writing : ℕ) (t : Table)
    → t r ≡ some reading
    → t w ≡ some writing
    → t s ≡ some src
    → src ≢ reading
    → reading ≢ writing
    → close w (close s t) r ≡ some reading
unfolding close
parent_reads s r w src reading writing t at_r at_w at_s differ distinct = ground arith

parent_shut :
    (s w writing : ℕ) (t : Table) (q : ℕ)
    → (t q ≡ some writing → q ≡ w)
    → close w (close s t) q ≢ some writing
unfolding close
parent_shut s w writing t q only h = ground arith

source_shut : (s w : ℕ) (t : Table) → close w (close s t) s ≡ none
unfolding close
source_shut s w t = ground arith

-- If the program is found, and a source file and the two ends of a new pipe are open behind
-- descriptors from 3 on: with the file for input and the pipe for output, process_ctl gives the
-- child the file as descriptor 0 and the end to write as descriptor 1 alone, and not the end to
-- read; the parent keeps the end to read, and neither the end to write nor its descriptor of the
-- file.
pub stdout-process_ctl :
    (execvp : Bytes → List Bytes → Bool) (cmd : Bytes) (args : List Bytes)
    (pid s r w src reading writing : ℕ) (t : Table)
    → IsNewPipe r w reading writing t
    → t s ≡ some src
    → 3 ≤ s
    → src ≢ reading
    → src ≢ writing
    → execvp cmd (cmd ∷ args) ≡ true
    → 1 ≤ pid
    → ((u : Table) × (process_ctl
            (some 0)
            execvp
            cmd
            (some (redir_fd (of_fd (some s))))
            (some (redir_pipe (pipe_of r w)))
            none
            args
            t
          ≡ replaced cmd (cmd ∷ args) u)
        × (u 0 ≡ some src)
        × IsOnlyAt 1 writing u
        × IsShut reading u)
      × ((v : Table) × (process_ctl
              (some pid)
              execvp
              cmd
              (some (redir_fd (of_fd (some s))))
              (some (redir_pipe (pipe_of r w)))
              none
              args
              t
            ≡ returned pid
                (some (redir_fd no_fd))
                (some (redir_pipe (record { input = of_fd (some r); output = no_fd })))
                none
                v)
          × IsOnlyAt r reading v
          × IsShut writing v
          × (v s ≡ none))
stdout-process_ctl execvp cmd args pid s r w src reading writing t pipe at_s beyond_s src≢reading
      src≢writing found positive =
    (
      (
        close w (close r (open_at 1 writing (close s (open_at 0 src t)))),
        replaced-process_ctl execvp cmd _ _ args t found
            ∙ ap (replaced cmd (cmd ∷ args)) (
                encrypt_child s r w src reading writing t pipe at_s beyond_s src≢reading
                  src≢writing),
        keeps_stdin s r w src writing t beyond_s pipe.beyond_r pipe.beyond_w,
        (
          reaches_stdout s r w src writing t pipe.beyond_r pipe.beyond_w,
          λ q. only-child s r w src writing t q (pipe.only_w q) src≢writing,
        ),
        λ q. no-child s r w src reading writing t q (pipe.only_r q) src≢reading pipe.distinct,
      ),
      (
        close w (close s t),
        returned-process_ctl execvp cmd _ _ args pid t positive ∙ parent_left s r w pid t,
        (
          parent_reads s r w src reading writing t pipe.at_r pipe.at_w at_s src≢reading
              pipe.distinct,
          λ q e. pipe.only_r q (shut_twice s w reading t q e),
        ),
        λ q e. parent_shut s w writing t q (pipe.only_w q) e,
        source_shut s w t,
      ),
    )
