-- ===== src/Mappings.antt =====
-- `class autommap` of autommap.h: a file in memory. A table gives the length of what is mapped at an
-- address; an address of -1 is `none`.
use rsyncrypto.Prelude.{
  ℕ, Result, ◌>>=◌, ok, err, Error, Option, none, some, ◌==◌, if◌then◌else◌, ◌≡◌, refl, arith,
  Bool-cases, inl, inr,
}

abbrev pub Maps : Type 0
Maps = ℕ → Option ℕ

pub record Autommap : Type 0 where
  pub ptr : Option ℕ
  pub size : ℕ

-- `autommap()`
abbrev pub no_map : Autommap
no_map = record { ptr = none; size = 0 }

-- `munmap`
unfoldable pub munmap : ℕ → ℕ → Maps → Maps
munmap ptr size t q = if ptr == q then none else t q

-- `autommap( void *start, size_t length, … )`, with the address that `mmap` gives if it does not fail.
unfoldable pub map : ℕ → Option ℕ → Maps → Result (Autommap × Maps)
map length none t = err Error.mmap_failed
map length (some ptr) t =
    ok (record { ptr = some ptr; size = length }, λ q. if ptr == q then some length else t q)

-- `clear`, which the destructor calls too.
unfoldable pub clear : Autommap → Maps → Autommap × Maps
unfolding munmap
clear m t = elim m.ptr [ none ↦ (no_map, t) | some ptr ↦ (no_map, munmap ptr m.size t) ]

-- `operator=`: both objects and the table.
unfoldable pub assign : Autommap → Autommap → Maps → Autommap × Autommap × Maps
unfolding clear
assign this that t = let (cleared, t') = clear this t in (that, no_map, t')

-- `autommap( file_t fd, int prot )`, with the size that `fstat` gives if it does not fail.
unfoldable pub map_file : Option ℕ → Option ℕ → Maps → Result (Autommap × Maps)
unfolding map assign clear
map_file none new t = err Error.file_mmap_failed
map_file (some st_size) new t =
    let mapped = map st_size new t >>= λ (that, t1).
    let (this, that', t2) = assign no_map that t1 in ok (this, (clear that' t2).1) in
    if st_size == 0 then ok (no_map, t) else mapped

munmap-restores :
    (ptr length q : ℕ) (t : Maps)
    → t ptr ≡ none
    → munmap ptr length (λ a. if ptr == a then some length else t a) q ≡ t q
unfolding munmap
munmap-restores ptr length q t free = ground arith

-- A file is mapped with its size, or not at all if it is empty, and the destructor leaves the
-- mappings as they were, if mmap gives an address that was not in use.
pub map_file-clear :
    (st_size ptr : ℕ) (t : Maps)
    → t ptr ≡ none
    → (m : Autommap) × (t' : Maps) × (map_file (some st_size) (some ptr) t ≡ ok (m, t'))
      × (m.size ≡ st_size)
      × ((q : ℕ) → (clear m t').1 q ≡ t q)
unfolding map_file map assign clear
map_file-clear st_size ptr t free = elim (Bool-cases (st_size == 0)) [
  | inl e ↦ (no_map, t, rw (e) refl, ground arith, λ q. refl)
  | inr e ↦ (
    record { ptr = some ptr; size = st_size },
    λ q. if ptr == q then some st_size else t q,
    rw (e) refl,
    refl,
    λ q. munmap-restores ptr st_size q t free,
  )
]
