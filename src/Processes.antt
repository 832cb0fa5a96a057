-- ===== src/Processes.antt =====
-- autopipe.h, redir.h, redir.cpp and process.cpp: pipes, redirections and child processes.
pub mod Pipeline
pub mod Encrypting
pub mod Decrypting
pub mod Wait
use rsyncrypto.Prelude.{
  ℕ, Bool, true, false, Bytes, List, [], ◌∷◌, Result, ok, err, Error, Option, none, some, ◌==◌,
  if◌then◌else◌, ◌++◌,
}
use rsyncrypto.Descriptors.{Table, open_at, Autofd, of_fd, assign, clear}

-- `class autopipe`
pub record Autopipe : Type 0 where
  pub input : Autofd
  pub output : Autofd

-- `x=autofd(fd)` on a member that was made of -1, and the temporary object's destructor.
unfoldable pub member : ℕ → Table → Autofd × Table
unfolding of_fd assign clear
member fd t =
    let (done, (x, temporary, t1)) = assign (of_fd none) (of_fd (some fd)) t in
    let (gone, t2) = clear temporary t1 in (x, t2)

-- `autopipe( size_t )`: `pipe` gives the two descriptors that it has opened, or fails.
unfoldable pub autopipe : Option (ℕ × ℕ) → Table → Result (Autopipe × Table)
unfolding member
autopipe none t = err Error.pipe_failed
autopipe (some (r, w)) t =
    let (input, t1) = member r t in
    let (output, t2) = member w t1 in ok (record { input = input; output = output }, t2)

unfoldable pub clear_read : Autopipe → Table → Autopipe × Table
unfolding clear
clear_read p t =
    let (input, t1) = clear p.input t in (record { input = input; output = p.output }, t1)

unfoldable pub clear_write : Autopipe → Table → Autopipe × Table
unfolding clear
clear_write p t =
    let (output, t1) = clear p.output t in (record { input = p.input; output = output }, t1)

unfoldable pub clear_pipe : Autopipe → Table → Autopipe × Table
unfolding clear_read clear_write
clear_pipe p t = let (p1, t1) = clear_read p t in clear_write p1 t1

-- The classes that `redir` has.
pub data Redir : Type 0 where
  redir_pipe : Autopipe → Redir
  redir_fd : Autofd → Redir
  redir_null : Redir

-- `dup2`, which does nothing when there is no such descriptor.
unfoldable pub dup2 : Option ℕ → ℕ → Table → Table
dup2 none m t = t
dup2 (some n) m t = elim (t n) [ none ↦ t | some file ↦ open_at m file t ]

abbrev pub stdin_fileno : ℕ
stdin_fileno = 0

abbrev pub stdout_fileno : ℕ
stdout_fileno = 1

abbrev pub stderr_fileno : ℕ
stderr_fileno = 2

unfoldable pub child_redirect : Redir → ℕ → Table → Redir × Table
unfolding dup2 clear_pipe clear
child_redirect (redir_pipe p) redir_type t =
    let redirected = if redir_type == stdin_fileno then p.input else p.output in
    let (p1, t1) = clear_pipe p (dup2 redirected.fd redir_type t) in (redir_pipe p1, t1)
child_redirect (redir_fd a) redir_type t =
    let (a1, t1) = clear a (dup2 a.fd redir_type t) in (redir_fd a1, t1)
child_redirect redir_null redir_type t = (redir_null, t)

unfoldable pub parent_redirect : Redir → ℕ → Table → Redir × Table
unfolding clear_read clear_write clear
parent_redirect (redir_pipe p) redir_type t =
    if redir_type == stdin_fileno
    then (let (p1, t1) = clear_read p t in (redir_pipe p1, t1))
    else (let (p1, t1) = clear_write p t in (redir_pipe p1, t1))
parent_redirect (redir_fd a) redir_type t = let (a1, t1) = clear a t in (redir_fd a1, t1)
parent_redirect redir_null redir_type t = (redir_null, t)

-- A redirection that may be `NULL`, in the child and in the parent.
unfoldable pub in_child : Option Redir → ℕ → Table → Option Redir × Table
unfolding child_redirect
in_child none redir_type t = (none, t)
in_child (some r) redir_type t = let (r1, t1) = child_redirect r redir_type t in (some r1, t1)

unfoldable pub in_parent : Option Redir → ℕ → Table → Option Redir × Table
unfolding parent_redirect
in_parent none redir_type t = (none, t)
in_parent (some r) redir_type t = let (r1, t1) = parent_redirect r redir_type t in (some r1, t1)

-- How the constructor ends in one process: it throws, it returns, or the process is another program.
pub data Outcome : Type 0 where
  thrown : Error → Outcome
  returned : ℕ → Option Redir → Option Redir → Option Redir → Table → Outcome
  replaced : Bytes → List Bytes → Table → Outcome

-- `process_ctl( char *, redir *, redir *, redir *, ... )`, in the process in which `fork` has returned
-- the given number; `execvp` says whether it replaces the process.
unfoldable pub process_ctl :
    Option ℕ
    → (Bytes → List Bytes → Bool)
    → Bytes
    → Option Redir
    → Option Redir
    → Option Redir
    → List Bytes
    → Table
    → Outcome
unfolding in_child in_parent
process_ctl none execvp cmd input output error args t = thrown Error.fork_failed
process_ctl (some pid) execvp cmd input output error args t =
    let (ic, t1) = in_child input stdin_fileno t in
    let (oc, t2) = in_child output stdout_fileno t1 in
    let (ec, t3) = in_child error stderr_fileno t2 in
    let arguments = cmd ∷ args in
    let (ip, u1) = in_parent input stdin_fileno t in
    let (op, u2) = in_parent output stdout_fileno u1 in
    let (ep, u3) = in_parent error stderr_fileno u2 in
    if pid == 0
    then (if execvp cmd arguments then replaced cmd arguments t3 else returned pid ic oc ec t3)
    else returned pid ip op ep u3
