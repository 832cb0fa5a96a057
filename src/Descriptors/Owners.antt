-- ===== src/Descriptors/Owners.antt =====
-- How many objects own a descriptor, and what the members of `autofd` do to that.
use rsyncrypto.Prelude.{
  ℕ, zero, suc, ◌+◌, ◌≤◌, Bool, true, false, ◌&&◌, List, [], ◌∷◌, Result, ok, err, Error, Option,
  none, some, ◌==◌, if◌then◌else◌, get_elem?, set, ◌≡◌, ◌≢◌, refl, ap, arith, Bool-cases, inl, inr,
}
use rsyncrypto.Descriptors.{
  Table, close, close_fd, is_open, Autofd, release, copy, clear, same_fd, take_over, assign,
}

-- 1 if the object owns the descriptor.
abbrev pub owns : ℕ → Autofd → ℕ
owns n a = if a.owner && same_fd a.fd (some n) then 1 else 0

-- How many objects own it.
abbrev pub owners : ℕ → List Autofd → ℕ
owners n [] = 0
owners n (a ∷ objects) = owns n a + owners n objects

-- 1 if it is open.
abbrev pub opened : Table → ℕ → ℕ
opened t n = if is_open t n then 1 else 0

pub owners-set :
    (n : ℕ) (objects : List Autofd) (i : ℕ) (a a' : Autofd)
    → get_elem? objects i ≡ some a
    → owners n (set objects i a') + owns n a ≡ owners n objects + owns n a'
owners-set n [] i a a' h = absurd cc
owners-set n (b ∷ objects) zero a a' h = let same : b ≡ a = cc in rw same (omega arith)
owners-set n (b ∷ objects) (suc i) a a' h = omega (arith, owners-set n objects i a a' h)

pub get_elem?-set_other :
    (objects : List Autofd) (i j : ℕ) (a : Autofd)
    → i ≢ j
    → get_elem? (set objects i a) j ≡ get_elem? objects j
get_elem?-set_other [] i j a h = refl
get_elem?-set_other (b ∷ objects) zero zero a h = absurd (h refl)
get_elem?-set_other (b ∷ objects) zero (suc j) a h = refl
get_elem?-set_other (b ∷ objects) (suc i) zero a h = refl
get_elem?-set_other (b ∷ objects) (suc i) (suc j) a h =
    get_elem?-set_other objects i j a (λ e. h (ap suc e))

pub copy-owns :
    (n : ℕ) (that new left : Autofd)
    → copy that ≡ ok (new, left)
    → owns n new + owns n left ≡ owns n that
unfolding copy release
copy-owns n that new left e = ground arith

-- Whether the descriptor is the `same` as the one that is closed.
pub closed :
    (same : Bool) (n : ℕ) (t t' : Table)
    → t' n ≡ (if same then none else t n)
    → (if same then 1 else 0) ≤ opened t n
    → opened t' n + (if same then 1 else 0) ≡ opened t n
closed true n t t' e h =
    let shut : opened t' n ≡ 0 = rw (opened, is_open, e) refl in
    let atmost : opened t n ≤ 1 = ground arith in omega arith
closed false n t t' e h =
    let kept : opened t' n ≡ opened t n = rw (opened, is_open, e) refl in omega arith

closed-opened :
    (n : ℕ) (fd : Option ℕ) (t : Table)
    → (if same_fd fd (some n) then 1 else 0) ≤ opened t n
    → opened (close_fd fd t) n + (if same_fd fd (some n) then 1 else 0) ≡ opened t n
unfolding close_fd close same_fd
closed-opened n none t h = omega arith
closed-opened n (some m) t h = closed (m == n) n t (close m t) refl h

owner-clear :
    (a : Autofd) (t : Table)
    → a.owner ≡ true
    → clear a t ≡ (record a { fd = none; owner = false }, close_fd a.fd t)
unfolding clear
owner-clear a t e =
    ap (λ b. if b then (record a { fd = none; owner = false }, close_fd a.fd t) else (a, t)) e

other-clear : (a : Autofd) (t : Table) → a.owner ≡ false → clear a t ≡ (a, t)
unfolding clear
other-clear a t e =
    ap (λ b. if b then (record a { fd = none; owner = false }, close_fd a.fd t) else (a, t)) e

owner-owns :
    (n : ℕ) (a : Autofd) → a.owner ≡ true → owns n a ≡ (if same_fd a.fd (some n) then 1 else 0)
owner-owns n a e = ap (λ b. if b && same_fd a.fd (some n) then 1 else 0) e

pub clear-owns :
    (n : ℕ) (a : Autofd) (t : Table)
    → owns n a ≤ opened t n
    → opened (clear a t).1 n + owns n a ≡ opened t n + owns n (clear a t).0
clear-owns n a t h = elim (Bool-cases a.owner) [
  | inl e ↦ rw (owner-clear a t e) omega (arith, owner-owns n a e, closed-opened n a.fd t)
  | inr e ↦ rw (other-clear a t e) refl
]

owner-release : (a : Autofd) → a.owner ≡ true → release a ≡ ok (a.fd, record a { owner = false })
unfolding release
owner-release a e =
    ap
      (λ (b : Bool).
        if◌then◌else◌ {A = Result (Option ℕ × Autofd)} b (ok (a.fd, record a { owner = false }))
          (err Error.releasing_non_owner))
      e

other-release : (a : Autofd) → a.owner ≡ false → release a ≡ err Error.releasing_non_owner
unfolding release
other-release a e =
    ap
      (λ (b : Bool).
        if◌then◌else◌ {A = Result (Option ℕ × Autofd)} b (ok (a.fd, record a { owner = false }))
          (err Error.releasing_non_owner))
      e

take_over-owns :
    (n : ℕ) (a b : Autofd) (t : Table)
    → owns n a ≡ 0
    → owns n (take_over a b t).1.0 + owns n (take_over a b t).1.1 ≡ owns n b
unfolding take_over same_fd
take_over-owns n a b t h = elim (Bool-cases b.owner) [
  | inl e ↦ rw (take_over, owner-release b e) omega (arith, owner-owns n b e)
  | inr e ↦ rw (take_over, other-release b e) omega arith
]

take_over-table : (a b : Autofd) (t : Table) → (take_over a b t).1.2 ≡ t
unfolding take_over
take_over-table a b t = elim (Bool-cases b.owner) [
  | inl e ↦ rw (take_over, owner-release b e) refl
  | inr e ↦ rw (take_over, other-release b e) refl
]

owns_none-clear : (n : ℕ) (a : Autofd) (t : Table) → owns n (clear a t).0 ≡ 0
owns_none-clear n a t = elim (Bool-cases a.owner) [
  | inl e ↦ rw (owner-clear a t e) refl
  | inr e ↦ rw (other-clear a t e, e) refl
]

same-assign :
    (a b : Autofd) (t : Table) → same_fd a.fd b.fd ≡ true → assign a b t ≡ (ok tt, (a, b, t))
unfolding assign
same-assign a b t e = rw (e) refl

distinct-assign :
    (a b : Autofd) (t : Table)
    → same_fd a.fd b.fd ≡ false
    → assign a b t ≡ take_over (clear a t).0 b (clear a t).1
unfolding assign
distinct-assign a b t e = rw (e) refl

pub assign-owns :
    (n : ℕ) (a b : Autofd) (t : Table)
    → owns n a ≤ opened t n
    → opened (assign a b t).1.2 n + (owns n a + owns n b)
      ≡ opened t n + (owns n (assign a b t).1.0 + owns n (assign a b t).1.1)
assign-owns n a b t h = elim (Bool-cases (same_fd a.fd b.fd)) [
  | inl e ↦ rw (same-assign a b t e) refl
  | inr e ↦
      let c = (clear a t).0 in
      let t' = (clear a t).1 in
      rw (distinct-assign a b t e) rw (take_over-table c b t') omega (
        arith,
        clear-owns n a t h,
        owns_none-clear n a t,
        take_over-owns n c b t' (owns_none-clear n a t),
      )
]
