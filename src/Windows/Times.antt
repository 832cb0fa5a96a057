-- ===== src/Windows/Times.antt =====
-- `autofd::ut2ft` and `autofd::ft2ut` of win32/autofd.cpp: times since 1970 in seconds, as a 64-bit
-- `time_t`, and `FILETIME`s, which count 100 nanoseconds since 1601 in two words.
use rsyncrypto.Prelude.{
  ℕ, ◌+◌, ◌-◌, ◌*◌, ◌%◌, ◌/◌, ◌≤◌, ◌<◌, true, false, not, Option, none, some, ◌==◌, ltb,
  if◌then◌else◌, u64, ◌≡◌, refl, ◌∙◌, arith,
}

pub record Filetime : Type 0 where
  pub dw_low_date_time : ℕ
  pub dw_high_date_time : ℕ

abbrev pub epoch_start : ℕ
epoch_start = 116444736000000000

-- `ut2ft`
unfoldable pub ut2ft : ℕ → Filetime
ut2ft unixtime =
    let res = u64 (u64 (unixtime * 10000000) + epoch_start) in
    record { dw_low_date_time = res % 0x100000000; dw_high_date_time = res / 0x100000000 }

-- `ft2ut`; `none` is -1.
unfoldable pub ft2ut : Filetime → Option ℕ
ft2ut ft =
    let unified_ft = ft.dw_high_date_time * 0x100000000 + ft.dw_low_date_time in
    let seconds = (unified_ft - epoch_start) / 10000000 in
    if ltb unified_ft epoch_start
    then none
    else if not (seconds / 0x100000000 == 0)
    then none
    else some (seconds % 0x100000000)

-- The 64 bits of a FILETIME.
abbrev pub quad_part : Filetime → ℕ
quad_part ft = ft.dw_high_date_time * 0x100000000 + ft.dw_low_date_time

-- `ft2ut` where it gives the time.
given-ft2ut :
    (ft : Filetime) (t : ℕ)
    → quad_part ft ≡ t * 10000000 + epoch_start
    → t < 0x100000000
    → ft2ut ft ≡ some t
unfolding ft2ut
given-ft2ut ft t q h =
    let seconds : (quad_part ft - epoch_start) / 10000000 ≡ t = omega arith in
    let past : ltb (quad_part ft) epoch_start ≡ false = ground arith in
    let high : (t / 0x100000000 == 0) ≡ true = ground arith in
    let low : t % 0x100000000 ≡ t = omega arith in rw (past, seconds, high, low) refl

late-ft2ut :
    (ft : Filetime) (t : ℕ)
    → quad_part ft ≡ t * 10000000 + epoch_start
    → 0x100000000 ≤ t
    → ft2ut ft ≡ none
unfolding ft2ut
late-ft2ut ft t q h =
    let seconds : (quad_part ft - epoch_start) / 10000000 ≡ t = omega arith in
    let past : ltb (quad_part ft) epoch_start ≡ false = ground arith in
    let high : (t / 0x100000000 == 0) ≡ false = ground arith in rw (past, seconds, high) refl

early-ft2ut : (ft : Filetime) → quad_part ft < epoch_start → ft2ut ft ≡ none
unfolding ft2ut
early-ft2ut ft h = let past : ltb (quad_part ft) epoch_start ≡ true = ground arith in rw (past) refl

quad_part-ut2ft : (t : ℕ) → quad_part (ut2ft t) ≡ u64 (u64 (t * 10000000) + epoch_start)
unfolding ut2ft
quad_part-ut2ft t = omega arith

-- A time before 2106 comes back from its FILETIME; a later one, up to the year 59000, and one
-- before 1970, back to 1601, give -1.
pub ft2ut-ut2ft :
    (t : ℕ)
    → (t < 0x100000000 → ft2ut (ut2ft t) ≡ some t)
      × (0x100000000 ≤ t → t ≤ 1800000000000 → ft2ut (ut2ft t) ≡ none)
      × (0 < t → t ≤ 11644473600 → ft2ut (ut2ft (0x10000000000000000 - t)) ≡ none)
ft2ut-ut2ft t = (
  λ h. given-ft2ut (ut2ft t) t (quad_part-ut2ft t ∙ omega arith) h,
  λ h k. late-ft2ut (ut2ft t) t (quad_part-ut2ft t ∙ omega arith) h,
  λ h k.
      let before : u64 (u64 ((0x10000000000000000 - t) * 10000000) + epoch_start)
          ≡ epoch_start - t * 10000000 =
        omega arith in
      early-ft2ut (ut2ft (0x10000000000000000 - t))
        (omega (arith, quad_part-ut2ft (0x10000000000000000 - t), before)),
)
