-- ===== src/Prelude/Bytes.antt =====
-- Bytes: numbers below 256, the big-endian layout of `encoding/binary`, and the bit operations on
-- one byte that the frames use.
use Prim.Native.Nat.{ℕ, zero, suc, ◌+◌, ◌*◌, ◌/◌, ◌%◌, ◌^◌, ◌<◌, bit_and, bit_or, bit_xor}
use mathlib.Core.Path.{◌≡◌, refl, sym, ap, ◌∙◌}
use mathlib.Core.Bool.{Bool, true, ◌&&◌}
use mathlib.Core.List.{List, [], ◌∷◌, ◌++◌}
use native.Mathlib.Nat.{pow-suc, mul_assoc}
use native.Mathlib.Omega.{arith}
use aethercore.Prelude.Tests.{nat_eq, nat_eq_iff}
use aethercore.Prelude.Lists.{All, length, length-append}

abbrev pub Bytes : Type 0
Bytes = List ℕ

abbrev pub IsByte : ℕ → Type 0
IsByte b = b < 256

abbrev pub AllBytes : Bytes → Type 0
AllBytes = All IsByte

-- The `n` bytes of `v`, most significant first: AppendUint16, AppendUint64 and the like.
unfoldable pub be_bytes : ℕ → ℕ → Bytes
be_bytes zero v = []
be_bytes (suc n) v = be_bytes n (v / 256) ++ (v % 256) ∷ []

-- The number that bytes stand for, behind the digits in `acc`: Uint16, Uint64.
unfoldable pub be_from : ℕ → Bytes → ℕ
be_from acc [] = acc
be_from acc (b ∷ bs) = be_from (acc * 256 + b) bs

unfoldable pub be_value : Bytes → ℕ
unfolding be_from
be_value = be_from 0

be_from-nil : (acc : ℕ) → be_from acc [] ≡ acc
unfolding be_from
be_from-nil acc = refl

be_from-append :
    (acc : ℕ) (xs : Bytes) (b : ℕ) → be_from acc (xs ++ b ∷ []) ≡ be_from acc xs * 256 + b
unfolding be_from
be_from-append acc [] b = refl
be_from-append acc (x ∷ xs) b = be_from-append (acc * 256 + x) xs b

be_from-be_bytes : (n acc v : ℕ) → v < 256 ^ n → be_from acc (be_bytes n v) ≡ acc * 256 ^ n + v
unfolding be_bytes
be_from-be_bytes zero acc v h = be_from-nil acc ∙ omega arith
be_from-be_bytes (suc n) acc v h =
    be_from-append acc (be_bytes n (v / 256)) (v % 256)
    ∙ omega (
      arith,
      be_from-be_bytes n acc (v / 256) (omega (arith, pow-suc 256 n)),
      pow-suc 256 n,
      ap (λ (t : ℕ). acc * t) (pow-suc 256 n),
      mul_assoc acc (256 ^ n) 256,
    )

-- A number that fits is read back.
pub be_value-be_bytes : (n v : ℕ) → v < 256 ^ n → be_value (be_bytes n v) ≡ v
unfolding be_value
be_value-be_bytes n v h = omega (arith, be_from-be_bytes n 0 v h)

pub length-be_bytes : (n v : ℕ) → length (be_bytes n v) ≡ n
unfolding be_bytes
length-be_bytes zero v = omega arith
length-be_bytes (suc n) v =
    omega
      (arith, length-append (be_bytes n (v / 256)) ((v % 256) ∷ []), length-be_bytes n (v / 256))

-- A test on all numbers below a bound.
below : ℕ → (ℕ → Bool) → Bool
below zero p = true
below (suc n) p = p n && below n p

below-true : (n : ℕ) (p : ℕ → Bool) (x : ℕ) → below n p ≡ true → x < n → p x ≡ true
unfolding below
below-true zero p x h lt = absurd (omega arith)
below-true (suc n) p x h lt = ground (arith, below-true n p x)

and_top_table : below 256 (λ b. nat_eq (bit_and b 0x80) (b / 128 * 128)) ≡ true
unfolding below
and_top_table = refl

pub and_top : (b : ℕ) → b < 256 → bit_and b 0x80 ≡ b / 128 * 128
and_top b h = (nat_eq_iff _ _).0 (below-true 256 _ b and_top_table h)

and_seven_table : below 256 (λ b. nat_eq (bit_and b 0x7F) (b % 128)) ≡ true
unfolding below
and_seven_table = refl

pub and_seven : (b : ℕ) → b < 256 → bit_and b 0x7F ≡ b % 128
and_seven b h = (nat_eq_iff _ _).0 (below-true 256 _ b and_seven_table h)

and_four_table : below 256 (λ b. nat_eq (bit_and b 0x0F) (b % 16)) ≡ true
unfolding below
and_four_table = refl

pub and_four : (b : ℕ) → b < 256 → bit_and b 0x0F ≡ b % 16
and_four b h = (nat_eq_iff _ _).0 (below-true 256 _ b and_four_table h)

or_top_table : below 128 (λ b. nat_eq (bit_or 0x80 b) (128 + b)) ≡ true
unfolding below
or_top_table = refl

pub or_top : (b : ℕ) → b < 128 → bit_or 0x80 b ≡ 128 + b
or_top b h = (nat_eq_iff _ _).0 (below-true 128 _ b or_top_table h)

xor_table : below 256 (λ b. below 256 (λ k. nat_eq (bit_xor (bit_xor b k) k) b)) ≡ true
unfolding below
xor_table = refl

-- Masking a byte twice gives it back.
pub xor_twice : (b k : ℕ) → b < 256 → k < 256 → bit_xor (bit_xor b k) k ≡ b
xor_twice b k h h' = (nat_eq_iff _ _).0 (below-true 256 _ k (below-true 256 _ b xor_table h) h')

pub be_bytes-injective :
    (n v w : ℕ) → v < 256 ^ n → w < 256 ^ n → be_bytes n v ≡ be_bytes n w → v ≡ w
be_bytes-injective n v w h k e =
    omega (arith, be_value-be_bytes n v h, be_value-be_bytes n w k, ap be_value e)

-- Two texts that agree agree in fronts of one length, and behind them.
pub append_split :
    (xs xs' ys ys' : Bytes)
    → length xs ≡ length xs'
    → xs ++ ys ≡ xs' ++ ys'
    → (xs ≡ xs') × (ys ≡ ys')
append_split [] [] ys ys' l e = (refl, e)
append_split [] (x' ∷ xs') ys ys' l e = absurd (omega (arith, l))
append_split (x ∷ xs) [] ys ys' l e = absurd (omega (arith, l))
append_split (x ∷ xs) (x' ∷ xs') ys ys' l e =
    ground (arith, append_split xs xs' ys ys' (omega (arith, l)))

-- The same of two numbers in `n` bytes each, in front of something else.
pub be_bytes_split :
    (n v w : ℕ) (ys ys' : Bytes)
    → v < 256 ^ n
    → w < 256 ^ n
    → be_bytes n v ++ ys ≡ be_bytes n w ++ ys'
    → (v ≡ w) × (ys ≡ ys')
be_bytes_split n v w ys ys' h k e =
    let (front, back) =
      append_split (be_bytes n v) (be_bytes n w) ys ys'
        (length-be_bytes n v ∙ sym (length-be_bytes n w)) e in
    (be_bytes-injective n v w h k front, back)
