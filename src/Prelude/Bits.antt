-- ===== src/Prelude/Bits.antt =====
-- A 64-bit word as a set of positions: what `|` and `&` with one shifted bit do to it.
use Prim.Native.Nat.{
  ℕ, zero, suc, ◌+◌, ◌*◌, ◌/◌, ◌%◌, ◌^◌, ◌≤◌, ◌<◌, min, max, bit_and, bit_or, digits,
  bit_and-bitwise, bit_or-bitwise,
}
use mathlib.Core.Path.{◌≡◌, refl, ◌∙◌, ap}
use mathlib.Core.Bool.{◌&&◌}
use native.Mathlib.Nat.{pow-suc}
use native.Mathlib.Omega.{arith}
use aethercore.Prelude.Tests.{lt→ltb, ltb, nat_eq, if◌then◌else◌}

-- Any fuel from the first operand on gives the same number.
module _ (tail : ℕ → ℕ) (op : ℕ → ℕ → ℕ) where
  fuel_settles : (x y k l : ℕ) → x ≤ k → x ≤ l → digits tail op k x y ≡ digits tail op l x y
  fuel_settles zero y zero zero h h' = refl
  fuel_settles zero y zero (suc l) h h' = refl
  fuel_settles zero y (suc k) zero h h' = refl
  fuel_settles zero y (suc k) (suc l) h h' = refl
  fuel_settles (suc x) y zero l h h' = absurd (omega arith)
  fuel_settles (suc x) y (suc k) zero h h' = absurd (omega arith)
  fuel_settles (suc x) y (suc k) (suc l) h h' =
      ap (λ d. d * 2 + op (suc x % 2) (y % 2))
        (fuel_settles (suc x / 2) (y / 2) k l (omega arith) (omega arith))

or_digit : (a b : ℕ) → bit_or a b ≡ bit_or (a / 2) (b / 2) * 2 + max (a % 2) (b % 2)
or_digit zero b = rw (bit_or-bitwise 0 b, bit_or-bitwise 0 (b / 2)) (omega arith)
or_digit (suc a) b = omega (
  arith,
  bit_or-bitwise (suc a) b,
  bit_or-bitwise (suc a / 2) (b / 2),
  fuel_settles (λ y. y) max (suc a / 2) (b / 2) a (suc a / 2) (omega arith) (omega arith),
)

and_digit : (a b : ℕ) → bit_and a b ≡ bit_and (a / 2) (b / 2) * 2 + min (a % 2) (b % 2)
and_digit zero b = omega (arith, bit_and-bitwise 0 b, bit_and-bitwise 0 (b / 2))
and_digit (suc a) b = omega (
  arith,
  bit_and-bitwise (suc a) b,
  bit_and-bitwise (suc a / 2) (b / 2),
  fuel_settles (λ y. 0) min (suc a / 2) (b / 2) a (suc a / 2) (omega arith) (omega arith),
)

-- The binary digit at position `p`.
pub bit : ℕ → ℕ → ℕ
bit zero b = b % 2
bit (suc p) b = bit p (b / 2)

pub bit-lt-two : (p b : ℕ) → bit p b < 2
unfolding bit
bit-lt-two zero b = omega arith
bit-lt-two (suc p) b = bit-lt-two p (b / 2)

bit-or : (p a b : ℕ) → bit p (bit_or a b) ≡ max (bit p a) (bit p b)
unfolding bit
bit-or zero a b = omega (arith, or_digit a b)
bit-or (suc p) a b =
    let halved : bit_or a b / 2 ≡ bit_or (a / 2) (b / 2) = omega (arith, or_digit a b) in
    ap (bit p) halved ∙ bit-or p (a / 2) (b / 2)

zero-and : (n x : ℕ) → x ≤ n → bit_and x 0 ≡ 0
zero-and zero zero h = refl
zero-and zero (suc x) h = absurd (omega arith)
zero-and (suc n) zero h = refl
zero-and (suc n) (suc x) h =
    omega (arith, and_digit (suc x) 0, zero-and n (suc x / 2) (omega arith))

and-pow : (p b : ℕ) → bit_and b (2 ^ p) ≡ bit p b * 2 ^ p
unfolding bit
and-pow zero b = omega (arith, and_digit b 1, zero-and (b / 2) (b / 2) (omega arith))
and-pow (suc p) b =
    let half : 2 ^ suc p / 2 ≡ 2 ^ p = omega (arith, pow-suc 2 p) in
    let even : 2 ^ suc p % 2 ≡ 0 = omega (arith, pow-suc 2 p) in
    and_digit b (2 ^ suc p)
    ∙ ap (λ h. bit_and (b / 2) h * 2 + min (b % 2) (2 ^ suc p % 2)) half
    ∙ omega (
      arith,
      even,
      and-pow p (b / 2),
      pow-suc 2 p,
      ap (λ (t : ℕ). bit p (b / 2) * t) (pow-suc 2 p),
    )

pub bit-zero : (p : ℕ) → bit p 0 ≡ 0
unfolding bit
bit-zero zero = refl
bit-zero (suc p) = bit-zero p

bit-pow : (p q : ℕ) → bit p (2 ^ q) ≡ (if nat_eq q p then 1 else 0)
unfolding bit
bit-pow zero zero = refl
bit-pow zero (suc q) = ground (arith, pow-suc 2 q)
bit-pow (suc p) zero = bit-zero p ∙ ground arith
bit-pow (suc p) (suc q) =
    let half : 2 ^ suc q / 2 ≡ 2 ^ q = omega (arith, pow-suc 2 q) in
    ap (bit p) half ∙ bit-pow p q ∙ ground arith

-- `1 << pos` on a uint64: nothing is left from position 64 on.
unfoldable pub shift_one : ℕ → ℕ
shift_one pos = if ltb pos 64 then 2 ^ pos else 0

pow-pos : (p : ℕ) → 0 < 2 ^ p
pow-pos zero = omega arith
pow-pos (suc p) = omega (arith, pow-pos p, pow-suc 2 p)

-- Reading one position by `&` reads the digit.
pub and_shift : (p b : ℕ) → p < 64 → nat_eq (bit_and b (shift_one p)) 0 ≡ nat_eq (bit p b) 0
unfolding shift_one
and_shift p b h = rw (lt→ltb p 64 h, and-pow p b) (grind (arith, pow-pos p, bit-lt-two p b))

-- Setting one position by `|` changes that digit only.
pub or_shift :
    (p q b : ℕ) → q < 64 → bit p (bit_or b (shift_one q)) ≡ (if nat_eq q p then 1 else bit p b)
unfolding shift_one
or_shift p q b h =
    rw (lt→ltb q 64 h, bit-or p b (2 ^ q), bit-pow p q) (ground (arith, bit-lt-two p b))

pub or_bits :
    (p a b : ℕ) → nat_eq (bit p (bit_or a b)) 0 ≡ (nat_eq (bit p a) 0 && nat_eq (bit p b) 0)
or_bits p a b = rw bit-or (ground arith)
