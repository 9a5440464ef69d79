-- ===== src/Batches/Rows.antt =====
-- shared/training/src/dataset.rs, `tokenize_examples`: the tokens and labels of an example.
use hyverk_distributed_llm.Common.{
  ℕ, zero, suc, ◌+◌, ◌≤◌, ◌<◌, min, ◌≡◌, refl, ap, true, ◌&&◌, ◌||◌, inl, inr, Bool-cases, Option,
  none, some, List, [], ◌∷◌, arith, if◌then◌else◌, ltb, leb, ◌==◌, length, take, get_or, all,
}
use hyverk_distributed_llm.Batches.{ℤ, pos, ignored, is_ignored, resize, label_from, tokenize_row}

-- The label at a position.
abbrev pub label_at : List ℤ → ℕ → ℤ
label_at [] i = ignored
label_at (l ∷ ls) zero = l
label_at (l ∷ ls) (suc i) = label_at ls i

length-resize {ℓ} : {A : Type ℓ} (n : ℕ) (x : A) (xs : List A) → length (resize n x xs) ≡ n
unfolding resize
length-resize zero x xs = refl
length-resize (suc n) x [] = ap suc (length-resize n x [])
length-resize (suc n) x (y ∷ ys) = ap suc (length-resize n x ys)

get_or-resize-nil : (n i : ℕ) → get_or (resize {A = ℕ} n 0 []) i 0 ≡ zero
unfolding resize
get_or-resize-nil zero i = refl
get_or-resize-nil (suc n) zero = refl
get_or-resize-nil (suc n) (suc i) = get_or-resize-nil n i

label_at-resize-nil : (n i : ℕ) → label_at (resize n ignored []) i ≡ ignored
unfolding resize
label_at-resize-nil zero i = refl
label_at-resize-nil (suc n) zero = refl
label_at-resize-nil (suc n) (suc i) = label_at-resize-nil n i

all-resize-nil : (n : ℕ) → all is_ignored (resize n ignored []) ≡ true
unfolding resize all is_ignored
all-resize-nil zero = refl
all-resize-nil (suc n) = all-resize-nil n

get_or-resize-take :
    (n i : ℕ) (xs : List ℕ) → i < n → get_or (resize n 0 (take n xs)) i 0 ≡ get_or xs i 0
unfolding resize
get_or-resize-take zero i xs h = absurd (omega arith)
get_or-resize-take (suc n) zero [] h = refl
get_or-resize-take (suc n) (suc i) [] h = get_or-resize-nil n i
get_or-resize-take (suc n) zero (x ∷ xs) h = refl
get_or-resize-take (suc n) (suc i) (x ∷ xs) h = get_or-resize-take n i xs (omega arith)

label_at-resize :
    (p j n i : ℕ) (xs : List ℕ)
    → i < n
    → label_at (resize n ignored (label_from p j (take n xs))) i
      ≡ (if leb p (j + i) && ltb i (length xs) then pos (get_or xs i 0) else ignored)
unfolding resize label_from
label_at-resize p j zero i xs h = absurd (omega arith)
label_at-resize p j (suc n) zero [] h = ground arith
label_at-resize p j (suc n) (suc i) [] h = ground (arith, label_at-resize-nil n i)
label_at-resize p j (suc n) zero (x ∷ xs) h = ground arith
label_at-resize p j (suc n) (suc i) (x ∷ xs) h = ground (arith, label_at-resize p (j + 1) n i xs)

-- All labels are ignored just if no token of the window lies behind the prompt.
all-label_from :
    (p j n : ℕ) (xs : List ℕ)
    → all is_ignored (resize n ignored (label_from p j (take n xs)))
      ≡ leb (j + min (length xs) n) p || (min (length xs) n == 0)
unfolding resize label_from all is_ignored
all-label_from p j zero xs = ground arith
all-label_from p j (suc n) [] = ground (arith, all-resize-nil n)
all-label_from p j (suc n) (x ∷ xs) = ground (arith, all-label_from p (j + 1) n xs)

-- A row of `m` tokens and `m` labels: the tokens of the text in the window, filled up with 0; and a
-- label is the token at its place from the end of the prompt to the end of the text, and -100
-- elsewhere. No row means that no token of the response lies in the window.
abbrev pub IsRow : ℕ → List ℕ → List ℕ → Option (List ℕ × List ℤ) → Type 0
IsRow m prompt full none = min (length full) m ≤ length prompt
IsRow m prompt full (some (ids, labels)) =
    (length prompt < min (length full) m)
    × (length ids ≡ m)
    × (length labels ≡ m)
    × ((i : ℕ)
        → i < m
        → (get_or ids i 0 ≡ get_or full i 0)
          × (label_at labels i ≡ (
              if leb (length prompt) i && ltb i (length full)
              then pos (get_or full i 0)
              else ignored)))

-- What `tokenize_examples` makes of an example. It is kept just if a token of its response lies within
-- the window of `m` tokens. Then there are `m` tokens and `m` labels: the text's own tokens, filled up
-- with 0; and a label is the token at its place from the end of the prompt to the end of the text, and
-- -100 elsewhere.
pub tokenize_row-IsRow :
    (m : ℕ) (prompt full : List ℕ) → IsRow m prompt full (tokenize_row m prompt full)
unfolding tokenize_row
tokenize_row-IsRow m prompt full =
    let p = min (length prompt) m in
    let none_left = all-label_from p 0 m full in
    elim (Bool-cases (all is_ignored (resize m ignored (label_from p 0 (take m full))))) [
      | inl e ↦ rw e ground (arith, none_left)
      | inr e ↦ rw e (
        ground (arith, none_left),
        length-resize m 0 (take m full),
        length-resize m ignored (label_from p 0 (take m full)),
        λ i h. (get_or-resize-take m i full h, ground (arith, label_at-resize p 0 m i full h)),
      )
    ]
