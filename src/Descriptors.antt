-- ===== src/Descriptors.antt =====
-- `class autofd` of autofd.h: a descriptor and whether the object owns it. A descriptor of -1 is
-- `none`; a process's table gives the open file behind each descriptor that is open.
pub mod Owners
pub mod Ownership
use rsyncrypto.Prelude.{
  ℕ, Bool, true, false, not, Bytes, [], ◌∷◌, ◌++◌, Result, ok, err, Error, Option, none, some, ◌==◌,
  if◌then◌else◌,
}

abbrev pub Table : Type 0
Table = ℕ → Option ℕ

unfoldable pub close : ℕ → Table → Table
close n t q = if n == q then none else t q

abbrev pub open_at : ℕ → ℕ → Table → Table
open_at n file t q = if n == q then some file else t q

abbrev pub is_open : Table → ℕ → Bool
is_open t n = elim (t n) [ none ↦ false | some file ↦ true ]

pub record Autofd : Type 0 where
  pub fd : Option ℕ
  pub owner : Bool
  pub f_eof : Bool

-- `autofd()`
abbrev pub no_fd : Autofd
no_fd = record { fd = none; owner = false; f_eof = false }

-- `valid`
unfoldable pub valid : Option ℕ → Bool
valid none = false
valid (some n) = true

-- `explicit autofd( file_t fd_p )`
unfoldable pub of_fd : Option ℕ → Autofd
unfolding valid
of_fd fd_p = record { fd = fd_p; owner = valid fd_p; f_eof = false }

-- `autofd( file_t fd_p, bool except )`
unfoldable pub of_fd_checked : Option ℕ → Bool → Result Autofd
unfolding of_fd valid
of_fd_checked fd_p except =
    if except
    then (if valid fd_p then err Error.fd_open_failed else ok (of_fd fd_p))
    else ok (of_fd fd_p)

-- `release`: the descriptor, and the object without it.
unfoldable pub release : Autofd → Result (Option ℕ × Autofd)
release that =
    if that.owner
    then ok (that.fd, record that { owner = false })
    else err Error.releasing_non_owner

-- `autofd( const autofd &that )`: the new object, and the one it was made from.
unfoldable pub copy : Autofd → Result (Autofd × Autofd)
unfolding release
copy that = elim (release that) [
  | err e ↦ err e
  | ok (fd, left) ↦ ok (record { fd = fd; owner = true; f_eof = false }, left)
]

-- `close( fd )`
unfoldable pub close_fd : Option ℕ → Table → Table
unfolding close
close_fd none t = t
close_fd (some n) t = close n t

-- `clear`, which the destructor calls too.
unfoldable pub clear : Autofd → Table → Autofd × Table
unfolding close_fd
clear a t = if a.owner then (record a { fd = none; owner = false }, close_fd a.fd t) else (a, t)

unfoldable pub same_fd : Option ℕ → Option ℕ → Bool
same_fd none none = true
same_fd none (some m) = false
same_fd (some n) none = false
same_fd (some n) (some m) = n == m

-- What stands behind the guard of `operator=`: if `that` is no owner, the object stays cleared.
unfoldable pub take_over : Autofd → Autofd → Table → Result (Unit {0}) × (Autofd × Autofd × Table)
unfolding release
take_over this that t = elim (release that) [
  | err e ↦ (err e, (this, that, t))
  | ok (fd, left) ↦ (ok tt, (record { fd = fd; owner = true; f_eof = that.f_eof }, left, t))
]

-- `operator=`: both objects and the table afterwards, also when it throws.
unfoldable pub assign : Autofd → Autofd → Table → Result (Unit {0}) × (Autofd × Autofd × Table)
unfolding same_fd clear take_over
assign this that t =
    if same_fd this.fd that.fd
    then (ok tt, (this, that, t))
    else (let (cleared, closed) = clear this t in take_over cleared that closed)
