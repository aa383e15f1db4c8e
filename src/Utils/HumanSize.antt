-- ===== src/Utils/HumanSize.antt =====
-- `to_human_size` of crates/core/src/utils.rs: digits in groups of three.
-- The decimal text of the number is made by the formatting of another crate: it is the argument, a
-- list of character codes.
use anvil_zksync.Base.{
  ℕ, suc, ◌+◌, ◌-◌, ◌/◌, ◌%◌, ◌≤◌, ◌<◌, ◌≡◌, refl, sym, ◌∙◌, ap, not, ◌&&◌, List, [], ◌∷◌, ◌++◌,
  append-nil, reverse, if◌then◌else◌, ltb, ◌==◌, keep_if, All, length, length-append, arith,
  Bool-cases, inl, inr, lt→ltb,
}
use mathlib.Core.List.{reverse-cons, reverse-reverse}

abbrev underscore : ℕ
underscore = b'_'

-- The body of `flat_map` at one position.
abbrev pub mark : ℕ → ℕ → List ℕ
mark index val = if ltb 0 index && index % 3 == 0 then underscore ∷ val ∷ [] else val ∷ []

-- `enumerate` from an index, and `flat_map`.
unfoldable pub marked : ℕ → List ℕ → List ℕ
marked index [] = []
marked index (val ∷ vals) = mark index val ++ marked (suc index) vals

unfoldable pub to_human_size : List ℕ → List ℕ
to_human_size input = reverse (marked 0 (reverse input))

abbrev pub IsDigit : ℕ → Type 0
IsDigit c = (b'0' ≤ c) × (c ≤ b'9')

abbrev pub without_marks : List ℕ → List ℕ
without_marks = keep_if (λ c. not (c == underscore))

without_marks-append :
    (xs ys : List ℕ) → without_marks (xs ++ ys) ≡ without_marks xs ++ without_marks ys
without_marks-append [] ys = refl
without_marks-append (x ∷ xs) ys = elim (Bool-cases (x == underscore)) [
  | inl e ↦ rw e (without_marks-append xs ys)
  | inr e ↦ rw e (ap (◌∷◌ x) (without_marks-append xs ys))
]

without_marks-reverse : (xs : List ℕ) → without_marks (reverse xs) ≡ reverse (without_marks xs)
without_marks-reverse [] = refl
without_marks-reverse (x ∷ xs) =
    ap without_marks (reverse-cons x xs)
    ∙ without_marks-append (reverse xs) (x ∷ [])
    ∙ elim (Bool-cases (x == underscore)) [
      | inl e ↦ rw (e, without_marks-reverse xs) (append-nil (reverse (without_marks xs)))
      | inr e ↦ rw (e, without_marks-reverse xs) (sym (reverse-cons x (without_marks xs)))
    ]

without_marks-mark : (index val : ℕ) → IsDigit val → without_marks (mark index val) ≡ val ∷ []
without_marks-mark index val h = ground arith

without_marks-marked :
    (index : ℕ) (vals : List ℕ) → All IsDigit vals → without_marks (marked index vals) ≡ vals
unfolding marked
without_marks-marked index [] h = refl
without_marks-marked index (val ∷ vals) h =
    without_marks-append (mark index val) (marked (suc index) vals)
    ∙ rw (without_marks-mark index val h.0, without_marks-marked (suc index) vals h.1)

length-reverse : (xs : List ℕ) → length (reverse xs) ≡ length xs
length-reverse [] = refl
length-reverse (x ∷ xs) =
    omega
      (arith, ap length (reverse-cons x xs), length-append (reverse xs) (x ∷ []), length-reverse xs)

length-marked :
    (index : ℕ) (vals : List ℕ)
    → 0 < index
    → length (marked index vals) + (index + 2) / 3 ≡ length vals + (index + length vals + 2) / 3
unfolding marked
length-marked index [] p = omega arith
length-marked index (val ∷ vals) p = ground (arith, length-marked (suc index) vals)

length-marked_start : (vals : List ℕ) → length (marked 0 vals) ≡ length vals + (length vals - 1) / 3
unfolding marked
length-marked_start [] = omega arith
length-marked_start (val ∷ vals) = omega (arith, length-marked 1 vals (omega arith))

All-reverse : (xs : List ℕ) → All IsDigit xs → All IsDigit (reverse xs)
All-reverse [] h = tt
All-reverse (x ∷ xs) h = rw (reverse-cons x xs) (go (reverse xs) (All-reverse xs h.1))
  where
    go : (ys : List ℕ) → All IsDigit ys → All IsDigit (ys ++ x ∷ [])
    go [] k = (h.0, tt)
    go (y ∷ ys) k = (k.0, go ys k.1)

-- The underscores of a text that is read from its end, the first character at the position `p`: they
-- are at the positions 3, 7, 11 and so on, and nowhere else.
abbrev pub MarksFrom : ℕ → List ℕ → Type 0
MarksFrom p [] = Unit
MarksFrom p (c ∷ cs) = ((c == underscore) ≡ (p % 4 == 3)) × MarksFrom (suc p) cs

-- Before the digit of index `i` there are `(i - 1) / 3` underscores.
marked-MarksFrom :
    (p i : ℕ) (vals : List ℕ)
    → 0 < i
    → p ≡ i + (i - 1) / 3
    → All IsDigit vals
    → MarksFrom p (marked i vals)
unfolding marked
marked-MarksFrom p i [] h e d = tt
marked-MarksFrom p i (val ∷ vals) h e d = elim (Bool-cases (i % 3 == 0)) [
  | inl f ↦
      rw (lt→ltb 0 i h, f)
        (
          ground arith,
          (
            ground (arith, d.0),
            marked-MarksFrom (suc (suc p)) (suc i) vals (omega arith) (ground arith) d.1,
          ),
        )
  | inr f ↦
      rw (lt→ltb 0 i h, f)
        (
          ground (arith, d.0),
          marked-MarksFrom (suc p) (suc i) vals (omega arith) (ground arith) d.1,
        )
]

marked_start-MarksFrom : (vals : List ℕ) → All IsDigit vals → MarksFrom 0 (marked 0 vals)
unfolding marked
marked_start-MarksFrom [] d = tt
marked_start-MarksFrom (val ∷ vals) d =
    (ground (arith, d.0), marked-MarksFrom 1 1 vals (omega arith) refl d.1)

-- Taking the underscores out of the printed size gives the digits back, and the underscores stand
-- exactly at every fourth character from the end, so that there is one for every three digits but
-- the first group.
pub to_human_size_lem :
    (digit : ℕ) (digits : List ℕ)
    → All IsDigit (digit ∷ digits)
    → (without_marks (to_human_size (digit ∷ digits)) ≡ digit ∷ digits)
      × MarksFrom 0 (reverse (to_human_size (digit ∷ digits)))
      × (length (to_human_size (digit ∷ digits)) ≡ suc (length digits) + length digits / 3)
unfolding to_human_size
to_human_size_lem digit digits h = (
  without_marks-reverse (marked 0 (reverse (digit ∷ digits)))
      ∙ ap reverse
          (without_marks-marked 0 (reverse (digit ∷ digits)) (All-reverse (digit ∷ digits) h))
      ∙ reverse-reverse (digit ∷ digits),
  rw (reverse-reverse (marked 0 (reverse (digit ∷ digits))))
      (marked_start-MarksFrom (reverse (digit ∷ digits)) (All-reverse (digit ∷ digits) h)),
  omega (
    arith,
    length-reverse (marked 0 (reverse (digit ∷ digits))),
    length-marked_start (reverse (digit ∷ digits)),
    length-reverse (digit ∷ digits),
  ),
)
