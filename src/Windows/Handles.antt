-- ===== src/Windows/Handles.antt =====
-- `class autohandle` of win32/autohandle.h: a handle and whether the object owns it. A process's table
-- gives what is open behind a handle, and whether a child inherits it.
use rsyncrypto.Prelude.{
  ℕ, Bool, true, false, Result, ok, err, Error, Option, none, some, ◌==◌, if◌then◌else◌,
}

-- `HANDLE`: `NULL`, `INVALID_HANDLE_VALUE`, or a number that the system gave.
pub data Handle : Type 0 where
  null_handle invalid_handle_value : Handle
  handle_of : ℕ → Handle

pub record Opened : Type 0 where
  pub file : ℕ
  pub inheritable : Bool

abbrev pub Handles : Type 0
Handles = ℕ → Option Opened

unfoldable pub same_handle : Handle → Handle → Bool
same_handle null_handle null_handle = true
same_handle invalid_handle_value invalid_handle_value = true
same_handle (handle_of n) (handle_of m) = n == m
same_handle _ _ = false

-- `CloseHandle`
unfoldable pub close_handle : Handle → Handles → Handles
close_handle null_handle t = t
close_handle invalid_handle_value t = t
close_handle (handle_of n) t = λ q. if n == q then none else t q

abbrev pub opened_at : ℕ → Opened → Handles → Handles
opened_at n o t q = if n == q then some o else t q

pub record Autohandle : Type 0 where
  pub handle : Handle
  pub owner : Bool

unfoldable pub valid : Handle → Bool
valid null_handle = false
valid invalid_handle_value = false
valid (handle_of n) = true

-- `explicit autohandle( HANDLE handle_p )`
unfoldable pub of_handle : Handle → Autohandle
unfolding valid
of_handle handle_p = record { handle = handle_p; owner = valid handle_p }

-- `release`: the handle, and the object without it.
unfoldable pub release : Autohandle → Result (Handle × Autohandle)
release that =
    if that.owner
    then ok (that.handle, record that { owner = false })
    else err Error.releasing_non_owner

-- `autohandle( const autohandle &that )`
unfoldable pub copy : Autohandle → Result (Autohandle × Autohandle)
unfolding release
copy that = elim (release that) [
  | err e ↦ err e
  | ok (handle, left) ↦ ok (record { handle = handle; owner = true }, left)
]

-- `clear`, which the destructor calls too.
unfoldable pub clear : Autohandle → Handles → Autohandle × Handles
unfolding close_handle
clear a t =
    if a.owner
    then (record { handle = null_handle; owner = false }, close_handle a.handle t)
    else (a, t)

-- `operator=`: both objects and the table behind it.
unfoldable pub assign : Autohandle → Autohandle → Handles → Autohandle × Autohandle × Handles
unfolding same_handle clear
assign this that t =
    let (cleared, closed) = clear this t in
    if same_handle this.handle that.handle
    then (this, that, t)
    else if that.owner
    then (record { handle = that.handle; owner = true }, record that { owner = false }, closed)
    else (record { handle = that.handle; owner = false }, that, closed)

-- `Duplicate`: the system gives a new handle, or fails.
unfoldable pub duplicate : Autohandle → Bool → Option ℕ → Handles → Result (Autohandle × Handles)
unfolding of_handle
duplicate a inheritable none t = err Error.handle_not_duplicated
duplicate a inheritable (some n) t = elim a.handle [
  | handle_of m ↦ elim (t m) [
    | none ↦ err Error.handle_not_duplicated
    | some o ↦ ok (
      of_handle (handle_of n),
      opened_at n (record { file = o.file; inheritable = inheritable }) t,
    )
  ]
  | null_handle ↦ err Error.handle_not_duplicated
  | invalid_handle_value ↦ err Error.handle_not_duplicated
]
