-- ===== src/Prelude/Text.antt =====
-- Text as the list of its code points, with what the program takes from Go's `strings`,
-- `strconv` and `fmt`. ASCII text has one byte for each code point.
use Prim.Native.Nat.{ℕ, zero, suc, ◌+◌, ◌/◌, ◌%◌, ◌≤◌}
use Prim.Native.Char.{code}
use Prim.Native.String.{String}
use mathlib.Core.Path.{◌≡◌, refl}
use mathlib.Core.Logic.{◌≢◌, inl, inr}
use mathlib.Core.Bool.{Bool, true, false, ◌&&◌, ◌||◌}
use mathlib.Core.List.{List, [], ◌∷◌, ◌++◌, map, reverse}
use native.Mathlib.Omega.{arith}
use aethercore.Prelude.Tests.{Bool-cases, ltb, leb, nat_eq, if◌then◌else◌}
use aethercore.Prelude.Lists.{All}

abbrev pub Text : Type 0
Text = List ℕ

abbrev pub codes : String → Text
codes String.[] = []
codes (String.◌∷◌ first others) = code first ∷ codes others

-- unicode.IsSpace
abbrev pub is_space : ℕ → Bool
is_space c =
    (leb 9 c && leb c 13)
    || (nat_eq c 32
        || (nat_eq c 0x85
            || (nat_eq c 0xA0
                || (nat_eq c 0x1680
                    || ((leb 0x2000 c && leb c 0x200A)
                        || (nat_eq c 0x2028
                            || (nat_eq c 0x2029
                                || (nat_eq c 0x202F || (nat_eq c 0x205F || nat_eq c 0x3000)))))))))

unfoldable pub trim_left : Text → Text
trim_left [] = []
trim_left (c ∷ s) = if is_space c then trim_left s else c ∷ s

-- strings.TrimSpace
unfoldable pub trim_space : Text → Text
unfolding trim_left
trim_space s = reverse (trim_left (reverse (trim_left s)))

-- The ASCII part of strings.ToLower.
abbrev pub to_lower_code : ℕ → ℕ
to_lower_code c = if leb b'A' c && leb c b'Z' then c + 32 else c

unfoldable pub to_lower : Text → Text
to_lower = map to_lower_code

abbrev pub has_prefix : Text → Text → Bool
has_prefix s [] = true
has_prefix [] (p ∷ ps) = false
has_prefix (c ∷ s) (p ∷ ps) = nat_eq c p && has_prefix s ps

-- strings.Contains
unfoldable pub contains : Text → Text → Bool
contains [] p = has_prefix [] p
contains (c ∷ s) p = has_prefix (c ∷ s) p || contains s p

-- strings.Cut at a one-byte separator: the text before it, the text after it, and whether it is there.
unfoldable pub cut : ℕ → Text → Text × Text × Bool
cut sep [] = ([], [], false)
cut sep (c ∷ s) =
    if nat_eq c sep
    then ([], s, true)
    else (let (before, after, found) = cut sep s in (c ∷ before, after, found))

abbrev add_to_first : ℕ → List Text → List Text
add_to_first c [] = (c ∷ []) ∷ []
add_to_first c (p ∷ ps) = (c ∷ p) ∷ ps

-- strings.Split at a one-byte separator: never the empty list.
unfoldable pub split : ℕ → Text → List Text
split sep [] = [] ∷ []
split sep (c ∷ s) =
    let rest = split sep s in if nat_eq c sep then [] ∷ rest else add_to_first c rest

-- A field that is read, in reverse, is put before the others unless it is empty.
abbrev end_field : Text → List Text → List Text
end_field [] others = others
end_field (w ∷ word) others = reverse (w ∷ word) ∷ others

-- The loop of strings.Fields; `word` is the field being read, in reverse.
unfoldable pub fields_from : Text → Text → List Text
fields_from word [] = end_field word []
fields_from word (c ∷ s) =
    let ended = end_field word (fields_from [] s) in
    let inside = fields_from (c ∷ word) s in if is_space c then ended else inside

-- strings.Fields
unfoldable pub fields : Text → List Text
unfolding fields_from
fields = fields_from []

-- The decimal digits of `n`, most significant first, put before `acc`; `n + 1` rounds are enough.
digits_from : ℕ → ℕ → Text → Text
digits_from zero n acc = acc
digits_from (suc f) n acc =
    let rest = digits_from f (n / 10) ((48 + n % 10) ∷ acc) in
    if ltb n 10 then (48 + n) ∷ acc else rest

-- %d
unfoldable pub itoa : ℕ → Text
unfolding digits_from
itoa n = digits_from (n + 1) n []

-- No character of the text is `sep`.
abbrev pub Free : ℕ → Text → Type 0
Free sep = All (λ c. c ≢ sep)

digits_from-Free :
    (sep f n : ℕ) (acc : Text) → 58 ≤ sep → Free sep acc → Free sep (digits_from f n acc)
unfolding digits_from
digits_from-Free sep zero n acc far h = h
digits_from-Free sep (suc f) n acc far h = elim (Bool-cases (ltb n 10)) [
  | inl small ↦ rw small ((λ e. ground arith), h)
  | inr large ↦
      rw large (digits_from-Free sep f (n / 10) ((48 + n % 10) ∷ acc) far ((λ e. omega arith), h))
]

-- A decimal number holds no character behind the digits, such as a colon.
pub itoa-Free : (sep n : ℕ) → 58 ≤ sep → Free sep (itoa n)
unfolding itoa
itoa-Free sep n far = digits_from-Free sep (n + 1) n [] far tt

-- A text is parted at the first separator in one way.
pub parted_once :
    (sep : ℕ) (x x' y y' : Text)
    → Free sep x
    → Free sep x'
    → x ++ (sep ∷ y) ≡ x' ++ (sep ∷ y')
    → (x ≡ x') × (y ≡ y')
parted_once sep [] [] y y' f f' h = ground arith
parted_once sep [] (c ∷ x') y y' f f' h = absurd (f'.0 (ground arith))
parted_once sep (c ∷ x) [] y y' f f' h = absurd (f.0 (ground arith))
parted_once sep (c ∷ x) (d ∷ x') y y' f f' h = ground (arith, parted_once sep x x' y y' f.1 f'.1)

itoa_runs : itoa 1204 ≡ codes "1204"
unfolding itoa
itoa_runs = refl

fields_run : fields (codes " a  bc d ") ≡ codes "a" ∷ codes "bc" ∷ codes "d" ∷ []
unfolding fields
fields_run = refl

split_run : split b',' (codes "1,,2") ≡ codes "1" ∷ [] ∷ codes "2" ∷ []
unfolding split
split_run = refl
