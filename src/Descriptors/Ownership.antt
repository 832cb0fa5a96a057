-- ===== src/Descriptors/Ownership.antt =====
-- However `autofd` objects are made, copied, assigned and cleared, each open descriptor has one owner.
use rsyncrypto.Prelude.{
  ℕ, ◌+◌, ◌≤◌, Bool, true, false, List, [], ◌∷◌, ok, none, some, ◌==◌, ==_iff, if◌then◌else◌,
  get_elem?, set, ◌≡◌, ◌≢◌, refl, sym, ◌∙◌, ap, arith,
}
use rsyncrypto.Descriptors.{
  Table, open_at, is_open, Autofd, no_fd, of_fd, valid, copy, clear, same_fd, assign,
}
use rsyncrypto.Descriptors.Owners.{
  owns, owners, opened, owners-set, get_elem?-set_other, copy-owns, clear-owns, assign-owns,
}

-- A call of a constructor or a member of the objects that there are; a destroyed object stays in the
-- list as one that owns nothing.
pub data Step : List Autofd → Table → List Autofd → Table → Type 0 where
  -- A system call has opened a descriptor, for `explicit autofd( file_t )`.
  made :
      {objects : List Autofd} {t : Table} (n file : ℕ)
      → t n ≡ none
      → Step objects t (of_fd (some n) ∷ objects) (open_at n file t)
  invalid : {objects : List Autofd} {t : Table} → Step objects t (of_fd none ∷ objects) t
  copied :
      {objects : List Autofd} {t : Table} (i : ℕ) (that new left : Autofd)
      → get_elem? objects i ≡ some that
      → copy that ≡ ok (new, left)
      → Step objects t (new ∷ set objects i left) t
  cleared :
      {objects : List Autofd} {t : Table} (i : ℕ) (a : Autofd)
      → get_elem? objects i ≡ some a
      → Step objects t (set objects i (clear a t).0) (clear a t).1
  assigned :
      {objects : List Autofd} {t : Table} (i j : ℕ) (this that : Autofd)
      → get_elem? objects i ≡ some this
      → get_elem? objects j ≡ some that
      → i ≢ j
      → Step objects t
          (set (set objects i (assign this that t).1.0) j (assign this that t).1.1)
          (assign this that t).1.2

pub data Run : List Autofd → Table → Type 0 where
  start : Run [] (λ n. none)
  step :
      {objects objects' : List Autofd} {t t' : Table}
      → Run objects t
      → Step objects t objects' t'
      → Run objects' t'

owns-owners :
    (n : ℕ) (objects : List Autofd) (i : ℕ) (a : Autofd)
    → get_elem? objects i ≡ some a
    → owns n a ≤ owners n objects
owns-owners n objects i a h = omega (arith, owners-set n objects i a no_fd h)

made-opened :
    (same : Bool) (n file : ℕ) (t t' : Table)
    → (same ≡ true → t n ≡ none)
    → t' n ≡ (if same then some file else t n)
    → opened t' n ≡ opened t n + (if same then 1 else 0)
made-opened true n file t t' free e =
    let shut : opened t n ≡ 0 = rw (opened, is_open, free refl) refl in
    let made : opened t' n ≡ 1 = rw (opened, is_open, e) refl in omega arith
made-opened false n file t t' free e =
    let kept : opened t' n ≡ opened t n = rw (opened, is_open, e) refl in omega arith

made-owns :
    (n m file : ℕ) (t : Table)
    → t m ≡ none
    → opened (open_at m file t) n ≡ opened t n + owns n (of_fd (some m))
unfolding of_fd valid same_fd
made-owns n m file t free =
    made-opened (m == n) n file t (open_at m file t) (λ e. ap t (sym ((==_iff m n).0 e)) ∙ free)
      refl

step-owners :
    {objects : List Autofd} {t t' : Table} {objects' : List Autofd} (n : ℕ)
    → Step objects t objects' t'
    → owners n objects ≡ opened t n
    → owners n objects' ≡ opened t' n
unfolding of_fd
step-owners n (made {objects} {t} m file free) h = omega (arith, made-owns n m file t free)
step-owners n invalid h = omega arith
step-owners n (copied {objects} i that new left at e) h =
    omega (arith, copy-owns n that new left e, owners-set n objects i that left at)
step-owners n (cleared {objects} {t} i a at) h = omega (
  arith,
  clear-owns n a t (omega (arith, owns-owners n objects i a at)),
  owners-set n objects i a (clear a t).0 at,
)
step-owners n (assigned {objects} {t} i j this that at_i at_j i≢j) h =
    let this' = (assign this that t).1.0 in
    let that' = (assign this that t).1.1 in
    omega (
      arith,
      assign-owns n this that t (omega (arith, owns-owners n objects i this at_i)),
      owners-set n objects i this this' at_i,
      owners-set n (set objects i this') j that that'
          (get_elem?-set_other objects i j this' i≢j ∙ at_j),
    )

-- However autofd objects are made, copied, assigned to one another and cleared, and whatever a
-- release throws: a descriptor that was opened for them and is still open is owned by exactly one
-- object, and one that is closed by none.
pub run-owners :
    {objects : List Autofd} {t : Table} → Run objects t → (n : ℕ) → owners n objects ≡ opened t n
run-owners start n = refl
run-owners (step run one) n = step-owners n one (run-owners run n)
