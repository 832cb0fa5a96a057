-- ===== src/Windows/Processes.antt =====
-- win32/autopipe.h, win32/redir.cpp, win32/win32redir.h and win32/process.cpp: a child process gets
-- its standard streams as handles that it inherits.
pub mod Encrypting
use rsyncrypto.Prelude.{
  ℕ, Bool, true, false, Bytes, List, Result, ◌>>=◌, ok, err, Error, Option, none, some,
  if◌then◌else◌,
}
use rsyncrypto.Windows.Handles.{
  Handle, null_handle, Opened, Handles, Autohandle, of_handle, assign, clear, duplicate,
}
use rsyncrypto.Windows.Commands.{command_line}
use rsyncrypto.Windows.Errors.{error_to_errno}

-- `STDIN_FILENO`, `STDOUT_FILENO` and `STDERR_FILENO`
pub data RedirType : Type 0 where
  stdin_fileno stdout_fileno stderr_fileno : RedirType

-- The members of `STARTUPINFO` that name the streams.
pub record Startupinfo : Type 0 where
  pub h_std_input : Handle
  pub h_std_output : Handle
  pub h_std_error : Handle

unfoldable pub set_stream : RedirType → Handle → Startupinfo → Startupinfo
set_stream stdin_fileno h si = record si { h_std_input = h }
set_stream stdout_fileno h si = record si { h_std_output = h }
set_stream stderr_fileno h si = record si { h_std_error = h }

pub record Autopipe : Type 0 where
  pub input : Autohandle
  pub output : Autohandle

pub data Redir : Type 0 where
  redir_pipe : Autopipe → Redir
  redir_fd : Autohandle → Redir
  redir_null : Redir

-- `opaq->handle=….Duplicate(true)`, and the temporary object's destructor: the object in `opaq`, which
-- owned nothing, and the table. The new handle is what the system gives.
unfoldable pub duplicated : Autohandle → Option ℕ → Handles → Result (Autohandle × Handles)
unfolding of_handle duplicate assign clear
duplicated a new t = duplicate a true new t >>= λ (copy, t1).
    let (handle, temporary, t2) = assign (of_handle null_handle) copy t1 in
    ok (handle, (clear temporary t2).1)

-- `parent_redirect`: the redirection behind it, `opaq`'s object, the streams and the table.
unfoldable pub parent_redirect :
    Redir
    → RedirType
    → Option ℕ
    → Startupinfo
    → Handles
    → Result (Redir × Autohandle × Startupinfo × Handles)
unfolding duplicated set_stream clear of_handle
parent_redirect (redir_pipe p) stdin_fileno new si t = duplicated p.input new t >>= λ (handle, t1).
    let (input, t2) = clear p.input t1 in
    ok (
      redir_pipe (record { input = input; output = p.output }),
      handle,
      set_stream stdin_fileno handle.handle si,
      t2,
    )
parent_redirect (redir_pipe p) stdout_fileno new si t =
    duplicated p.output new t >>= λ (handle, t1).
    let (output, t2) = clear p.output t1 in
    ok (
      redir_pipe (record { input = p.input; output = output }),
      handle,
      set_stream stdout_fileno handle.handle si,
      t2,
    )
parent_redirect (redir_pipe p) stderr_fileno new si t =
    duplicated p.output new t >>= λ (handle, t1).
    let (output, t2) = clear p.output t1 in
    ok (
      redir_pipe (record { input = p.input; output = output }),
      handle,
      set_stream stderr_fileno handle.handle si,
      t2,
    )
parent_redirect (redir_fd a) redir_type new si t = duplicated a new t >>= λ (handle, t1).
    let (a1, t2) = clear a t1 in
    ok (redir_fd a1, handle, set_stream redir_type handle.handle si, t2)
parent_redirect redir_null redir_type new si t = ok (redir_null, of_handle null_handle, si, t)

-- A redirection that may be `NULL`.
unfoldable pub redirected :
    Option Redir
    → RedirType
    → Option ℕ
    → Startupinfo
    → Handles
    → Result (Option Redir × Autohandle × Startupinfo × Handles)
unfolding parent_redirect of_handle
redirected none redir_type new si t = ok (none, of_handle null_handle, si, t)
redirected (some r) redir_type new si t =
    parent_redirect r redir_type new si t >>= λ (r', handle, si', t'). ok (some r', handle, si', t')

-- What a child inherits.
unfoldable pub inherited : Handles → Handles
inherited t q = elim (t q) [ none ↦ none | some o ↦ if o.inheritable then some o else none ]

-- The child, and the parent behind the constructor.
pub record Created : Type 0 where
  pub cmdline : Bytes
  pub streams : Startupinfo
  pub child : Handles
  pub input : Option Redir
  pub output : Option Redir
  pub error : Option Redir
  pub parent : Handles

-- The constructor of `process_ctl`: with the parent's own streams, the handles that the system gives
-- for copies, and the error that `CreateProcess` reports if it fails.
unfoldable pub process_ctl :
    Startupinfo
    → Option ℕ
    → Option ℕ
    → Option ℕ
    → Option ℕ
    → Bytes
    → Option Redir
    → Option Redir
    → Option Redir
    → List Bytes
    → Handles
    → Result Created
unfolding redirected inherited clear command_line
process_ctl own new_in new_out new_err create_process cmd input output error args t =
    redirected input stdin_fileno new_in own t >>= λ (input', inop, si1, t1).
    redirected output stdout_fileno new_out si1 t1 >>= λ (output', outop, si2, t2).
    redirected error stderr_fileno new_err si2 t2 >>= λ (error', errop, si3, t3).
    elim create_process [
      | some e ↦ err (Error.system (error_to_errno e))
      | none ↦ ok (record {
        cmdline = command_line cmd args;
        streams = si3;
        child = inherited t3;
        input = input';
        output = output';
        error = error';
        parent = (clear inop (clear outop (clear errop t3).1).1).1;
      })
    ]
