-- ===== src/Windows/Mappings.antt =====
-- `class autommap` of win32/autommap.h: a mapping of a file and a view of it. A table gives the length
-- of the view at an address, and the mappings that are open are those in a list.
use rsyncrypto.Prelude.{
  ℕ, Bool, true, false, not, Result, ok, err, Error, Option, none, some, ◌==◌, if◌then◌else◌, ◌≡◌,
  refl, arith, Bool-cases, inl, inr,
}

-- What the system has open: the views and the mappings.
pub record Views : Type 0 where
  pub view : ℕ → Option ℕ
  pub mappings : ℕ → Bool

pub record Autommap : Type 0 where
  pub mapping : Option ℕ
  pub ptr : Option ℕ
  pub size : ℕ

abbrev pub no_map : Autommap
no_map = record { mapping = none; ptr = none; size = 0 }

-- `PROT_READ|PROT_WRITE`, `PROT_READ`, or another protection.
pub data Prot : Type 0 where
  prot_read_write prot_read prot_other : Prot

unfoldable pub supported : Prot → Bool
supported prot_read_write = true
supported prot_read = true
supported prot_other = false

abbrev pub open_mapping : ℕ → Views → Views
open_mapping h v = record v { mappings = λ q. if h == q then true else v.mappings q }

abbrev pub close_mapping : ℕ → Views → Views
close_mapping h v = record v { mappings = λ q. if h == q then false else v.mappings q }

abbrev pub map_view : ℕ → ℕ → Views → Views
map_view p length v = record v { view = λ q. if p == q then some length else v.view q }

abbrev pub unmap_view : ℕ → Views → Views
unmap_view p v = record v { view = λ q. if p == q then none else v.view q }

-- The length that `mapfile` maps: 0 asks for the file's size, given in two words.
unfoldable pub map_length : ℕ → ℕ → ℕ → Result ℕ
map_length length highsize lowsize =
    if length == 0
    then (if not (highsize == 0) then err Error.file_too_big else ok lowsize)
    else ok length

-- The part of `mapfile` behind it, with what `CreateFileMapping` and `MapViewOfFileEx` give: the object,
-- unless it throws, and what is open.
unfoldable pub map_views : ℕ → Option ℕ → Option ℕ → Views → Result Autommap × Views
map_views length new_mapping new_view v =
    if not (length == 0)
    then elim new_mapping [
      | none ↦ (err Error.create_mapping_failed, v)
      | some h ↦ elim new_view [
        | none ↦ (err Error.mmap_failed, close_mapping h (open_mapping h v))
        | some p ↦ (
          ok (record { mapping = some h; ptr = some p; size = length }),
          map_view p length (open_mapping h v),
        )
      ]
    ]
    else (ok (record { mapping = none; ptr = none; size = length }), v)

-- `mapfile`
unfoldable pub mapfile : Prot → ℕ → ℕ → ℕ → Option ℕ → Option ℕ → Views → Result Autommap × Views
unfolding supported map_length map_views
mapfile prot length highsize lowsize new_mapping new_view v =
    if supported prot
    then (elim (map_length length highsize lowsize) [
      | err e ↦ (err e, v)
      | ok n ↦ map_views n new_mapping new_view v
    ])
    else (err Error.unsupported_protection, v)

-- `clear`, which the destructor calls too.
unfoldable pub clear : Autommap → Views → Autommap × Views
clear m v = elim m.ptr [
  | none ↦ (record m { mapping = none; ptr = none }, v)
  | some p ↦ (
    record m { mapping = none; ptr = none },
    elim m.mapping [ none ↦ unmap_view p v | some h ↦ close_mapping h (unmap_view p v) ],
  )
]

-- `operator=`: both objects and what is open. `size` stays as it was in both.
unfoldable pub assign : Autommap → Autommap → Views → Autommap × Autommap × Views
unfolding clear
assign this that v =
    let (cleared, v') = clear this v in
    (
      record cleared { mapping = that.mapping; ptr = that.ptr },
      record that { mapping = none; ptr = none },
      v',
    )

-- Nothing is open that was not, and all that was is.
pub record IsSame (v v' : Views) : Type 0 where
  pub views : (q : ℕ) → v.view q ≡ v'.view q
  pub mappings : (q : ℕ) → v.mappings q ≡ v'.mappings q

-- What `mapfile` and then the destructor, if there is an object, leave open.
abbrev pub behind : Result Autommap × Views → Views
behind (err e, v) = v
behind (ok m, v) = (clear m v).1

unchanged-IsSame : (v : Views) → IsSame v v
unchanged-IsSame v = record { views = λ q. refl; mappings = λ q. refl }

closed-IsSame :
    (h : ℕ) (v : Views) → v.mappings h ≡ false → IsSame (close_mapping h (open_mapping h v)) v
closed-IsSame h v free = record { views = λ q. refl; mappings = λ q. ground arith }

unmapped-IsSame :
    (h p length : ℕ) (v : Views)
    → v.view p ≡ none
    → v.mappings h ≡ false
    → IsSame (close_mapping h (unmap_view p (map_view p length (open_mapping h v)))) v
unmapped-IsSame h p length v free_p free_h = record {
  views = λ q. ground arith;
  mappings = λ q. ground arith;
}

map_views-clear :
    (length h p : ℕ) (new_mapping new_view : Bool) (v : Views)
    → v.view p ≡ none
    → v.mappings h ≡ false
    → IsSame
        (behind (
          map_views length
            (if new_mapping then some h else none)
            (if new_view then some p else none)
            v))
        v
unfolding map_views clear
map_views-clear length h p new_mapping new_view v free_p free_h = elim (Bool-cases (length == 0)) [
  | inl e ↦ rw (e) (unchanged-IsSame v)
  | inr e ↦ rw (e) (mapped new_mapping new_view)
]
  where
    mapped :
        (new_mapping new_view : Bool)
        → IsSame
            (behind (elim (if new_mapping then some h else none) as (λ m. Result Autommap × Views) [
              | none ↦ (err Error.create_mapping_failed, v)
              | some h ↦
                  elim (if new_view then some p else none) as (λ m. Result Autommap × Views) [
                    | none ↦ (err Error.mmap_failed, close_mapping h (open_mapping h v))
                    | some p ↦ (
                      ok (record { mapping = some h; ptr = some p; size = length }),
                      map_view p length (open_mapping h v),
                    )
                  ]
            ]))
            v
    mapped false new_view = unchanged-IsSame v
    mapped true false = closed-IsSame h v free_h
    mapped true true = unmapped-IsSame h p length v free_p free_h

-- With an address and a mapping that were not in use: whatever fails, nothing is left open when
-- mapfile has thrown, or has made an object that was destroyed.
pub mapfile-clear :
    (prot : Prot) (length highsize lowsize h p : ℕ) (new_mapping new_view : Bool) (v : Views)
    → v.view p ≡ none
    → v.mappings h ≡ false
    → IsSame
        (behind (
          mapfile prot length highsize lowsize
            (if new_mapping then some h else none)
            (if new_view then some p else none)
            v))
        v
unfolding mapfile
mapfile-clear prot length highsize lowsize h p new_mapping new_view v free_p free_h =
    elim (Bool-cases (supported prot)) [
      | inl e ↦ rw (e) (lengths (map_length length highsize lowsize))
      | inr e ↦ rw (e) (unchanged-IsSame v)
    ]
  where
    lengths :
        (r : Result ℕ)
        → IsSame
            (behind (elim r as (λ m. Result Autommap × Views) [
              | err e ↦ (err e, v)
              | ok n ↦
                  map_views n
                    (if new_mapping then some h else none)
                    (if new_view then some p else none)
                    v
            ]))
            v
    lengths (err e) = unchanged-IsSame v
    lengths (ok n) = map_views-clear n h p new_mapping new_view v free_p free_h
