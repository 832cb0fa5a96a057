-- ===== src/Prelude/Words.antt =====
-- Byte strings, machine words and their big-endian form.
use Prim.Native.Nat.{ℕ, zero, suc, ◌+◌, ◌*◌, ◌%◌, ◌≤◌, ◌<◌}
use mathlib.Core.Path.{◌≡◌, refl}
use mathlib.Core.Bool.{Bool, true, false, ◌&&◌}
use mathlib.Core.Logic.{◌↔◌}
use mathlib.Core.List.{List, [], ◌∷◌, ◌++◌, reverse, reverse-append}
use native.Mathlib.Omega.{arith}
use rsyncrypto.Prelude.Tests.{◌==◌}
use rsyncrypto.Prelude.Lists.{length, All, replicate}

abbrev pub Bytes : Type 0
Bytes = List ℕ

abbrev pub IsByte : ℕ → Type 0
IsByte b = b < 256

pub All-replicate_zero : (n : ℕ) → All IsByte (replicate n 0)
All-replicate_zero zero = tt
All-replicate_zero (suc n) = (omega arith, All-replicate_zero n)

-- `strcmp(a, b)==0`, and `==` of two `std::string`s.
abbrev pub bytes_eq : Bytes → Bytes → Bool
bytes_eq [] [] = true
bytes_eq [] (y ∷ ys) = false
bytes_eq (x ∷ xs) [] = false
bytes_eq (x ∷ xs) (y ∷ ys) = x == y && bytes_eq xs ys

pub bytes_eq_iff : (a b : Bytes) → (bytes_eq a b ≡ true) ↔ (a ≡ b)
bytes_eq_iff [] [] = ground arith
bytes_eq_iff [] (y ∷ ys) = ground arith
bytes_eq_iff (x ∷ xs) [] = ground arith
bytes_eq_iff (x ∷ xs) (y ∷ ys) = ground (arith, bytes_eq_iff xs ys)

-- `size_t`, `unsigned long` and `uint32_t` arithmetic of the 64-bit platform.
abbrev pub u64 : ℕ → ℕ
u64 n = n % 0x10000000000000000

abbrev pub u32 : ℕ → ℕ
u32 n = n % 0x100000000

abbrev pub u16 : ℕ → ℕ
u16 n = n % 0x10000

unfoldable pub sum : Bytes → ℕ
sum [] = 0
sum (x ∷ xs) = x + sum xs

pub sum-nil : sum [] ≡ 0
unfolding sum
sum-nil = refl

pub sum-cons : (x : ℕ) (xs : Bytes) → sum (x ∷ xs) ≡ x + sum xs
unfolding sum
sum-cons x xs = refl

pub sum-append : (xs ys : Bytes) → sum (xs ++ ys) ≡ sum xs + sum ys
unfolding sum
sum-append [] ys = omega arith
sum-append (x ∷ xs) ys = omega (arith, sum-append xs ys)

pub sum-reverse : (xs : Bytes) → sum (reverse xs) ≡ sum xs
unfolding sum
sum-reverse [] = refl
sum-reverse (x ∷ xs) =
    rw (reverse-append (x ∷ []) xs)
      (omega (arith, sum-append (reverse xs) (x ∷ []), sum-reverse xs))

pub sum_bound : (xs : Bytes) → All IsByte xs → sum xs ≤ 255 * length xs
unfolding sum
sum_bound [] h = omega arith
sum_bound (x ∷ xs) h = omega (arith, sum_bound xs h.1, h.0)
