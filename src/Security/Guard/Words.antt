-- ===== src/Security/Guard/Words.antt =====
-- core/security/semantic_analyzer.go: the longest unbroken word, and what the guard lets through.
use aethercore.Prelude.{
  ℕ, ◌+◌, ◌≤◌, ◌≡◌, refl, ap, ◌↔◌, ◌⊎◌, inl, inr, arith, true, false, Bool-cases, [], ◌∷◌, ◌++◌,
  length, All, ltb,
}
use aethercore.Prelude.Text.{Text}
use aethercore.Security.Guard.{is_gap, larger, word_loop}

-- No character of the word is a space, a line feed or a tab.
abbrev pub Unbroken : Text → Type 0
Unbroken = All (λ r. is_gap r ≡ false)

-- The text goes on with an unbroken word that makes `n` with the characters before it.
pub record Lead (n current : ℕ) (text : Text) : Type 0 where
  pub word : Text
  pub post : Text
  pub parts : text ≡ word ++ post
  pub unbroken : Unbroken word
  pub long : n ≤ current + length word

-- An unbroken word of at least `n` characters stands in the text.
pub record HasWord (n : ℕ) (text : Text) : Type 0 where
  pub before : Text
  pub word : Text
  pub after : Text
  pub parts : text ≡ before ++ (word ++ after)
  pub unbroken : Unbroken word
  pub long : n ≤ length word

Lead-HasWord : {n : ℕ} {text : Text} → Lead n 0 text → HasWord n text
Lead-HasWord h = record {
  before = [];
  word = h.word;
  after = h.post;
  parts = h.parts;
  unbroken = h.unbroken;
  long = omega (arith, h.long);
}

later_word : {n : ℕ} (r : ℕ) {text : Text} → HasWord n text → HasWord n (r ∷ text)
later_word r h = record {
  before = r ∷ h.before;
  word = h.word;
  after = h.after;
  parts = cc h.parts;
  unbroken = h.unbroken;
  long = h.long;
}

word_loop-end : (m c : ℕ) → word_loop m c [] ≡ larger m c
unfolding word_loop
word_loop-end m c = refl

word_loop-gap :
    (m c r : ℕ) (text : Text)
    → is_gap r ≡ true
    → word_loop m c (r ∷ text) ≡ word_loop (larger m c) 0 text
unfolding word_loop
word_loop-gap m c r text gap = rw (gap, word_loop) refl

word_loop-solid :
    (m c r : ℕ) (text : Text)
    → is_gap r ≡ false
    → word_loop m c (r ∷ text) ≡ word_loop m (c + 1) text
unfolding word_loop
word_loop-solid m c r text solid = rw (solid, word_loop) refl

-- What the loop finds was in its counters, goes on from them, or stands in the text.
word_loop-found :
    (n m c : ℕ) (text : Text) → n ≤ word_loop m c text → (n ≤ m) ⊎ (Lead n c text ⊎ HasWord n text)
word_loop-found n m c [] h = elim (Bool-cases (ltb m c)) [
  | inl e ↦ inr (
      inl (record {
        word = [];
        post = [];
        parts = refl;
        unbroken = tt;
        long = ground (arith, word_loop-end m c);
      }))
  | inr e ↦ inl (ground (arith, word_loop-end m c))
]
word_loop-found n m c (r ∷ text) h = elim (Bool-cases (is_gap r)) [
  | inl gap ↦
      after_gap
        (word_loop-found n (larger m c) 0 text (omega (arith, h, word_loop-gap m c r text gap)))
  | inr solid ↦
      in_word solid
        (word_loop-found n m (c + 1) text (omega (arith, h, word_loop-solid m c r text solid)))
]
  where
    after_gap :
        (n ≤ larger m c) ⊎ (Lead n 0 text ⊎ HasWord n text)
        → (n ≤ m) ⊎ (Lead n c (r ∷ text) ⊎ HasWord n (r ∷ text))
    after_gap (inl before) = elim (Bool-cases (ltb m c)) [
      | inl e ↦ inr (
          inl (record {
            word = [];
            post = r ∷ text;
            parts = refl;
            unbroken = tt;
            long = ground arith;
          }))
      | inr e ↦ inl (ground arith)
    ]
    after_gap (inr (inl w)) = inr (inr (later_word r (Lead-HasWord w)))
    after_gap (inr (inr w)) = inr (inr (later_word r w))

    in_word :
        is_gap r ≡ false
        → (n ≤ m) ⊎ (Lead n (c + 1) text ⊎ HasWord n text)
        → (n ≤ m) ⊎ (Lead n c (r ∷ text) ⊎ HasWord n (r ∷ text))
    in_word solid (inl before) = inl before
    in_word solid (inr (inl w)) = inr (
        inl (record {
          word = r ∷ w.word;
          post = w.post;
          parts = cc w.parts;
          unbroken = (solid, w.unbroken);
          long = omega (arith, w.long);
        }))
    in_word solid (inr (inr w)) = inr (inr (later_word r w))

-- The loop never loses what it has counted.
word_loop-grows : (m c : ℕ) (text : Text) → (m ≤ word_loop m c text) × (c ≤ word_loop m c text)
word_loop-grows m c [] = (ground (arith, word_loop-end m c), ground (arith, word_loop-end m c))
word_loop-grows m c (r ∷ text) = elim (Bool-cases (is_gap r)) [
  | inl gap ↦ ground (arith, word_loop-gap m c r text gap, word_loop-grows (larger m c) 0 text)
  | inr solid ↦ ground (arith, word_loop-solid m c r text solid, word_loop-grows m (c + 1) text)
]

word_loop-lead :
    (m c : ℕ) (word post : Text) → Unbroken word → c + length word ≤ word_loop m c (word ++ post)
word_loop-lead m c [] post u = omega (arith, (word_loop-grows m c post).1)
word_loop-lead m c (r ∷ word) post u =
    omega (arith, word_loop-solid m c r (word ++ post) u.0, word_loop-lead m (c + 1) word post u.1)

word_loop-finds :
    (m c : ℕ) (before word after : Text)
    → Unbroken word
    → length word ≤ word_loop m c (before ++ (word ++ after))
word_loop-finds m c [] word after u = omega (arith, word_loop-lead m c word after u)
word_loop-finds m c (r ∷ before) word after u = elim (Bool-cases (is_gap r)) [
  | inl gap ↦ omega (
    arith,
    word_loop-gap m c r (before ++ (word ++ after)) gap,
    word_loop-finds (larger m c) 0 before word after u,
  )
  | inr solid ↦ omega (
    arith,
    word_loop-solid m c r (before ++ (word ++ after)) solid,
    word_loop-finds m (c + 1) before word after u,
  )
]

-- The loop's answer reaches a bound above 0 exactly where the text has a word of that length.
pub word_loop_iff : (k : ℕ) (text : Text) → (k + 1 ≤ word_loop 0 0 text) ↔ HasWord (k + 1) text
word_loop_iff k text = (
  λ h. found (word_loop-found (k + 1) 0 0 text h),
  λ w. counted w (word_loop-finds 0 0 w.before w.word w.after w.unbroken),
)
  where
    found : (k + 1 ≤ 0) ⊎ (Lead (k + 1) 0 text ⊎ HasWord (k + 1) text) → HasWord (k + 1) text
    found (inl none_found) = absurd (omega arith)
    found (inr (inl w)) = Lead-HasWord w
    found (inr (inr w)) = w

    counted :
        (w : HasWord (k + 1) text)
        → length w.word ≤ word_loop 0 0 (w.before ++ (w.word ++ w.after))
        → k + 1 ≤ word_loop 0 0 text
    counted w l = omega (arith, w.long, l, ap (word_loop 0 0) w.parts)
