-- ===== src/Processes/Pipeline.antt =====
-- What the redirections of redir.cpp do to a table of descriptors.
use rsyncrypto.Prelude.{
  ℕ, ◌≤◌, Bool, true, false, Bytes, List, ◌∷◌, ok, none, some, ◌==◌, ==-refl, ==-distinct, ◌≡◌, ◌≢◌,
  refl, sym, ◌∙◌, ap, arith,
}
use rsyncrypto.Descriptors.{
  Table, open_at, close, of_fd, clear, close_fd, valid, assign, take_over, release, same_fd,
}
use rsyncrypto.Processes.{
  Autopipe, autopipe, member, clear_read, clear_write, Redir, redir_pipe, redir_fd, clear_pipe,
  dup2, child_redirect, parent_redirect, in_child, in_parent, replaced, returned, process_ctl,
}

pub at-close : (n : ℕ) (t : Table) → close n t n ≡ none
unfolding close
at-close n t = rw (==-refl n) refl

pub other-close : (n q : ℕ) (t : Table) → n ≢ q → close n t q ≡ t q
unfolding close
other-close n q t h = rw (==-distinct n q h) refl

pub at-open_at : (n file : ℕ) (t : Table) → open_at n file t n ≡ some file
at-open_at n file t = rw (==-refl n) refl

pub other-open_at : (n file q : ℕ) (t : Table) → n ≢ q → open_at n file t q ≡ t q
other-open_at n file q t h = rw (==-distinct n q h) refl

pub open-dup2 : (n m file : ℕ) (t : Table) → t n ≡ some file → dup2 (some n) m t ≡ open_at m file t
unfolding dup2
open-dup2 n m file t h = rw (dup2, h) refl

owned-clear :
    (n : ℕ) (t : Table)
    → clear (of_fd (some n)) t ≡ (record { fd = none; owner = false; f_eof = false }, close n t)
unfolding clear of_fd valid close_fd
owned-clear n t = refl

-- What `pipe` gives: `r` is the only descriptor of the pipe's read end, `w` of its write end, and
-- neither is one of the standard streams.
pub record IsNewPipe (r w reading writing : ℕ) (t : Table) : Type 0 where
  pub at_r : t r ≡ some reading
  pub at_w : t w ≡ some writing
  pub only_r : (q : ℕ) → t q ≡ some reading → q ≡ r
  pub only_w : (q : ℕ) → t q ≡ some writing → q ≡ w
  pub distinct : reading ≢ writing
  pub beyond_r : 3 ≤ r
  pub beyond_w : 3 ≤ w

-- The pipe's object as `autopipe` makes it.
abbrev pub pipe_of : ℕ → ℕ → Autopipe
pipe_of r w = record { input = of_fd (some r); output = of_fd (some w) }

pub autopipe-pipe_of : (r w : ℕ) (t : Table) → autopipe (some (r, w)) t ≡ ok (pipe_of r w, t)
unfolding autopipe member assign take_over release clear of_fd valid same_fd close_fd
autopipe-pipe_of r w t = refl

pub from-redir_fd :
    (n m file : ℕ) (t : Table)
    → t n ≡ some file
    → (child_redirect (redir_fd (of_fd (some n))) m t).1 ≡ close n (open_at m file t)
unfolding child_redirect of_fd clear close_fd valid
from-redir_fd n m file t h = ap (close n) (open-dup2 n m file t h)

pub stdin-redir_pipe :
    (r w file : ℕ) (t : Table)
    → t r ≡ some file
    → (child_redirect (redir_pipe (pipe_of r w)) 0 t).1 ≡ close w (close r (open_at 0 file t))
unfolding child_redirect clear_pipe clear_read clear_write of_fd clear close_fd valid
stdin-redir_pipe r w file t h = ap (λ u. close w (close r u)) (open-dup2 r 0 file t h)

pub stdout-redir_pipe :
    (r w file : ℕ) (t : Table)
    → t w ≡ some file
    → (child_redirect (redir_pipe (pipe_of r w)) 1 t).1 ≡ close w (close r (open_at 1 file t))
unfolding child_redirect clear_pipe clear_read clear_write of_fd clear close_fd valid
stdout-redir_pipe r w file t h = ap (λ u. close w (close r u)) (open-dup2 w 1 file t h)

-- The child, if `execvp` finds the program.
pub replaced-process_ctl :
    (execvp : Bytes → List Bytes → Bool) (cmd : Bytes) (a b : Redir) (args : List Bytes) (t : Table)
    → execvp cmd (cmd ∷ args) ≡ true
    → process_ctl (some 0) execvp cmd (some a) (some b) none args t
      ≡ replaced cmd (cmd ∷ args) (child_redirect b 1 (child_redirect a 0 t).1).1
unfolding process_ctl in_child
replaced-process_ctl execvp cmd a b args t h = rw (h) refl

-- The open file is behind this descriptor and no other.
abbrev pub IsOnlyAt : ℕ → ℕ → Table → Type 0
IsOnlyAt n file t = (t n ≡ some file) × ((q : ℕ) → t q ≡ some file → q ≡ n)

-- No descriptor of it is left.
abbrev pub IsShut : ℕ → Table → Type 0
IsShut file t = (q : ℕ) → t q ≢ some file

-- The parent.
pub returned-process_ctl :
    (execvp : Bytes → List Bytes → Bool) (cmd : Bytes) (a b : Redir) (args : List Bytes) (pid : ℕ)
    (t : Table)
    → 1 ≤ pid
    → process_ctl (some pid) execvp cmd (some a) (some b) none args t
      ≡ returned pid
          (some (parent_redirect a 0 t).0)
          (some (parent_redirect b 1 (parent_redirect a 0 t).1).0)
          none
          (parent_redirect b 1 (parent_redirect a 0 t).1).1
unfolding process_ctl in_parent
returned-process_ctl execvp cmd a b args pid t h =
    let positive : (pid == 0) ≡ false = ground arith in rw (positive) refl

pub shut_twice :
    (n m file : ℕ) (t : Table) (q : ℕ) → close m (close n t) q ≡ some file → t q ≡ some file
unfolding close
shut_twice n m file t q h = ground arith

-- An open descriptor that is redirected is closed, and what was behind it is behind the target,
-- unless the two are one; no other descriptor changes.
pub child_redirect-redir_fd :
    (n m file : ℕ) (t : Table)
    → t n ≡ some file
    → let u = (child_redirect (redir_fd (of_fd (some n))) m t).1 in
      (n ≢ m → u m ≡ some file) × (u n ≡ none) × ((q : ℕ) → q ≢ n → q ≢ m → u q ≡ t q)
child_redirect-redir_fd n m file t at = rw (from-redir_fd n m file t at) (
  (λ n≢m. other-close n m (open_at m file t) n≢m ∙ at-open_at m file t),
  at-close n (open_at m file t),
  λ q q≢n q≢m.
      other-close n q (open_at m file t) (λ e. q≢n (sym e))
      ∙ other-open_at m file q t (λ e. q≢m (sym e)),
)
