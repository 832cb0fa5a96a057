-- ===== src/Windows/Processes/Encrypting.antt =====
-- The program that `encrypt_file` of crypto.cpp starts on Windows: it inherits a handle of the file to
-- read and one of the pipe's end to write, and the parent keeps the end to read.
use rsyncrypto.Prelude.{ℕ, Bool, true, false, Bytes, List, ok, none, some, ◌≡◌, ◌≢◌, refl, arith}
use rsyncrypto.Windows.Handles.{
  null_handle, handle_of, Opened, Handles, opened_at, close_handle, of_handle, valid, same_handle,
  assign, clear, duplicate,
}
use rsyncrypto.Windows.Commands.{command_line}
use rsyncrypto.Windows.Processes.{
  stdin_fileno, stdout_fileno, Startupinfo, set_stream, redir_pipe, redir_fd, duplicated,
  parent_redirect, redirected, inherited, Created, process_ctl,
}

copied-duplicated :
    (n m file : ℕ) (inheritable : Bool) (t : Handles)
    → t n ≡ some (record { file = file; inheritable = inheritable })
    → duplicated (of_handle (handle_of n)) (some m) t
      ≡ ok (of_handle (handle_of m), opened_at m (record { file = file; inheritable = true }) t)
unfolding duplicated duplicate assign clear of_handle valid same_handle
copied-duplicated n m file inheritable t h = rw (h) refl

file-redirected :
    (n m file : ℕ) (own : Startupinfo) (t : Handles)
    → t n ≡ some (record { file = file; inheritable = false })
    → redirected (some (redir_fd (of_handle (handle_of n)))) stdin_fileno (some m) own t
      ≡ ok (
        some (redir_fd (record { handle = null_handle; owner = false })),
        of_handle (handle_of m),
        record own { h_std_input = handle_of m },
        close_handle (handle_of n) (opened_at m (record { file = file; inheritable = true }) t),
      )
unfolding redirected parent_redirect of_handle valid clear set_stream
file-redirected n m file own t h = rw (copied-duplicated n m file false t h) refl

pipe-redirected :
    (r w m file : ℕ) (own : Startupinfo) (t : Handles)
    → t w ≡ some (record { file = file; inheritable = false })
    → redirected
        (some (
          redir_pipe
            (record { input = of_handle (handle_of r); output = of_handle (handle_of w) })))
        stdout_fileno
        (some m)
        own
        t
      ≡ ok (
        some (
            redir_pipe (record {
              input = of_handle (handle_of r);
              output = record { handle = null_handle; owner = false };
            })),
        of_handle (handle_of m),
        record own { h_std_output = handle_of m },
        close_handle (handle_of w) (opened_at m (record { file = file; inheritable = true }) t),
      )
unfolding redirected parent_redirect of_handle valid clear set_stream
pipe-redirected r w m file own t h = rw (copied-duplicated w m file false t h) refl

abbrev pub shared : ℕ → Opened
shared file = record { file = file; inheritable = true }

abbrev pub private : ℕ → Opened
private file = record { file = file; inheritable = false }

-- The table when the child is made.
abbrev pub at_creation : (s w a b src writing : ℕ) → Handles → Handles
at_creation s w a b src writing t =
    close_handle (handle_of w)
      (opened_at b (shared writing) (close_handle (handle_of s) (opened_at a (shared src) t)))

still_written :
    (s w a src writing : ℕ) (t : Handles)
    → t w ≡ some (private writing)
    → t s ≡ some (private src)
    → t a ≡ none
    → src ≢ writing
    → close_handle (handle_of s) (opened_at a (shared src) t) w ≡ some (private writing)
unfolding close_handle
still_written s w a src writing t at_w at_s free differ = ground arith

created :
    (own : Startupinfo) (cmd : Bytes) (args : List Bytes) (s r w a b src writing : ℕ) (t : Handles)
    → t s ≡ some (private src)
    → t w ≡ some (private writing)
    → t a ≡ none
    → src ≢ writing
    → process_ctl own
        (some a)
        (some b)
        none
        none
        cmd
        (some (redir_fd (of_handle (handle_of s))))
        (some (
          redir_pipe
            (record { input = of_handle (handle_of r); output = of_handle (handle_of w) })))
        none
        args
        t
      ≡ ok (record {
        cmdline = command_line cmd args;
        streams = record own { h_std_input = handle_of a; h_std_output = handle_of b };
        child = inherited (at_creation s w a b src writing t);
        input = some (redir_fd (record { handle = null_handle; owner = false }));
        output = some (
            redir_pipe (record {
              input = of_handle (handle_of r);
              output = record { handle = null_handle; owner = false };
            }));
        error = none;
        parent =
            close_handle
              (handle_of a)
              (close_handle (handle_of b) (at_creation s w a b src writing t));
      })
unfolding process_ctl redirected of_handle valid clear
created own cmd args s r w a b src writing t at_s at_w free differ =
    rw
      (
        file-redirected s a src own t at_s,
        pipe-redirected r w b writing (record own { h_std_input = handle_of a })
            (close_handle (handle_of s) (opened_at a (shared src) t))
            (still_written s w a src writing t at_w at_s free differ),
      )
      refl

-- What `CreatePipe` gives.
pub record IsNewPipe (r w reading writing : ℕ) (t : Handles) : Type 0 where
  pub at_r : t r ≡ some (private reading)
  pub at_w : t w ≡ some (private writing)
  pub only_r : (q : ℕ) (o : Opened) → t q ≡ some o → o.file ≡ reading → q ≡ r
  pub only_w : (q : ℕ) (o : Opened) → t q ≡ some o → o.file ≡ writing → q ≡ w
  pub distinct : reading ≢ writing

inherits_src :
    (s w a b src writing : ℕ) (t : Handles)
    → t s ≡ some (private src)
    → t w ≡ some (private writing)
    → t a ≡ none
    → a ≢ b
    → inherited (at_creation s w a b src writing t) a ≡ some (shared src)
unfolding inherited close_handle
inherits_src s w a b src writing t at_s at_w free differ = ground arith

inherits_writing :
    (s w a b src writing : ℕ) (t : Handles)
    → t w ≡ some (private writing)
    → t b ≡ none
    → inherited (at_creation s w a b src writing t) b ≡ some (shared writing)
unfolding inherited close_handle
inherits_writing s w a b src writing t at_w free = ground arith

inherits_no_other :
    (s w a b src writing : ℕ) (t : Handles) (q : ℕ) (o : Opened)
    → (t q ≡ some o → o.file ≡ writing → q ≡ w)
    → src ≢ writing
    → inherited (at_creation s w a b src writing t) q ≡ some o
    → o.file ≡ writing
    → q ≡ b
unfolding inherited close_handle
inherits_no_other s w a b src writing t q o only differ e f = ground arith

inherits_no_reading :
    (s r w a b src reading writing : ℕ) (t : Handles) (q : ℕ) (o : Opened)
    → (t q ≡ some o → o.file ≡ reading → q ≡ r)
    → t r ≡ some (private reading)
    → src ≢ reading
    → reading ≢ writing
    → inherited (at_creation s w a b src writing t) q ≡ some o
    → o.file ≢ reading
unfolding inherited close_handle
inherits_no_reading s r w a b src reading writing t q o only at_r differ distinct e f = ground arith

parent_no_writing :
    (s w a b src writing : ℕ) (t : Handles) (q : ℕ) (o : Opened)
    → (t q ≡ some o → o.file ≡ writing → q ≡ w)
    → src ≢ writing
    → close_handle (handle_of a) (close_handle (handle_of b) (at_creation s w a b src writing t)) q
      ≡ some o
    → o.file ≢ writing
unfolding close_handle
parent_no_writing s w a b src writing t q o only differ e f = ground arith

parent_reads :
    (s r w a b src reading writing : ℕ) (t : Handles)
    → t r ≡ some (private reading)
    → t s ≡ some (private src)
    → t w ≡ some (private writing)
    → t a ≡ none
    → t b ≡ none
    → src ≢ reading
    → reading ≢ writing
    → close_handle (handle_of a) (close_handle (handle_of b) (at_creation s w a b src writing t)) r
      ≡ some (private reading)
unfolding close_handle
parent_reads s r w a b src reading writing t at_r at_s at_w free_a free_b differ distinct =
    ground arith

-- If CreateProcess succeeds, a source file and the two ends of a new pipe are open behind handles
-- that are not inherited, and the system gives two new handles for copies: the child of the
-- process_ctl of win32 has them as its standard input and output, the file behind one and the end
-- to write behind the other alone, and inherits no handle of the end to read; the parent has no
-- handle of the end to write behind the constructor, and still the one to read.
pub inherited-process_ctl :
    (own : Startupinfo) (cmd : Bytes) (args : List Bytes) (s r w a b src reading writing : ℕ)
    (t : Handles)
    → IsNewPipe r w reading writing t
    → t s ≡ some (private src)
    → src ≢ reading
    → src ≢ writing
    → t a ≡ none
    → t b ≡ none
    → a ≢ b
    → (c : Created) × (process_ctl own
          (some a)
          (some b)
          none
          none
          cmd
          (some (redir_fd (of_handle (handle_of s))))
          (some (
            redir_pipe
              (record { input = of_handle (handle_of r); output = of_handle (handle_of w) })))
          none
          args
          t
        ≡ ok c)
      × (c.streams ≡ record own { h_std_input = handle_of a; h_std_output = handle_of b })
      × (c.child a ≡ some (shared src))
      × (c.child b ≡ some (shared writing))
      × ((q : ℕ) (o : Opened) → c.child q ≡ some o → o.file ≡ writing → q ≡ b)
      × ((q : ℕ) (o : Opened) → c.child q ≡ some o → o.file ≢ reading)
      × ((q : ℕ) (o : Opened) → c.parent q ≡ some o → o.file ≢ writing)
      × (c.parent r ≡ some (private reading))
inherited-process_ctl own cmd args s r w a b src reading writing t pipe at_s src≢reading src≢writing
      free_a free_b a≢b =
    (
      _,
      created own cmd args s r w a b src writing t at_s pipe.at_w free_a src≢writing,
      refl,
      inherits_src s w a b src writing t at_s pipe.at_w free_a a≢b,
      inherits_writing s w a b src writing t pipe.at_w free_b,
      λ q o. inherits_no_other s w a b src writing t q o (pipe.only_w q o) src≢writing,
      λ q o.
          inherits_no_reading s r w a b src reading writing t q o (pipe.only_r q o) pipe.at_r
            src≢reading pipe.distinct,
      λ q o. parent_no_writing s w a b src writing t q o (pipe.only_w q o) src≢writing,
      parent_reads s r w a b src reading writing t pipe.at_r at_s pipe.at_w free_a free_b
          src≢reading pipe.distinct,
    )
