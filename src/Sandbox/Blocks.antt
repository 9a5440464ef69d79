-- ===== src/Sandbox/Blocks.antt =====
-- server/sandbox/src/extractor.rs, `extract_rust_blocks`: which blocks it finds.
use hyverk_distributed_llm.Common.{
  ℕ, ◌≡◌, refl, ap, sym, subst, ◌∙◌, Bool, true, false, List, [], ◌∷◌, ◌++◌, append-nil,
  append_assoc, arith, all, All, ◌⊎◌, inl, inr, Bool-cases,
}
use hyverk_distributed_llm.Common.Text.{
  Text, is_whitespace, newline, lines, trim, trim_start, trim_end, starts_with, text_eq,
}
use hyverk_distributed_llm.Sandbox.{rust_fence, fence, push_block, scan, extract_rust_blocks}

-- A response as its author sees it: lines of prose, and blocks with the line that opens them.
pub data Part : Type 0 where
  prose : Text → Part
  code : (opening : Text) (body : List Text) → Part

-- Prose opens no block; a block is opened as Rust, and none of its lines closes it.
abbrev pub IsPart : Part → Type 0
IsPart (prose l) = starts_with (trim l) rust_fence ≡ false
IsPart (code opening body) =
    (starts_with (trim opening) rust_fence ≡ true) × All (λ l. text_eq (trim l) fence ≡ false) body

unfoldable pub render : List Part → List Text
render [] = []
render (prose l ∷ ps) = l ∷ render ps
render (code opening body ∷ ps) = opening ∷ body ++ fence ∷ render ps

pub unlines : List Text → Text
unlines [] = []
unlines (l ∷ ls) = l ++ newline ∷ unlines ls

-- The text `t` is `b` with white space around it, and `b` begins and ends with something else.
pub record IsCore (t b : Text) : Type 0 where
  pub front : Text
  pub back : Text
  pub around : t ≡ front ++ (b ++ back)
  pub front_blank : all is_whitespace front ≡ true
  pub back_blank : all is_whitespace back ≡ true
  pub first : (c : ℕ) × (cs : Text) × (b ≡ c ∷ cs) × (is_whitespace c ≡ false)
  pub last : (cs : Text) × (c : ℕ) × (b ≡ cs ++ c ∷ []) × (is_whitespace c ≡ false)

-- The texts are those of the code parts that are not all white space, each without the space around it.
abbrev pub AreBlocks : List Part → List Text → Type 0
AreBlocks [] blocks = blocks ≡ []
AreBlocks (prose l ∷ ps) blocks = AreBlocks ps blocks
AreBlocks (code opening body ∷ ps) blocks =
    ((all is_whitespace (unlines body) ≡ true) × AreBlocks ps blocks)
    ⊎ ((b : Text) × (rest : List Text) × (blocks ≡ b ∷ rest)
        × IsCore (unlines body) b
        × AreBlocks ps rest)

trim_start-split :
    (t : Text) → (front : Text) × (t ≡ front ++ trim_start t) × (all is_whitespace front ≡ true)
unfolding trim_start all
trim_start-split [] = ([], refl, refl)
trim_start-split (c ∷ cs) = elim (Bool-cases (is_whitespace c)) [
  | inl h ↦
      let (front, e, w) = trim_start-split cs in
      (c ∷ front, rw h (ap (◌∷◌ c) e), ground (arith, h, w))
  | inr h ↦ ([], rw h refl, refl)
]

trim_start-first : (t : Text) (c : ℕ) (cs : Text) → trim_start t ≡ c ∷ cs → is_whitespace c ≡ false
unfolding trim_start
trim_start-first [] c cs e = absurd (ground arith)
trim_start-first (d ∷ ds) c cs e = elim (Bool-cases (is_whitespace d)) [
  | inl h ↦ trim_start-first ds c cs (ground (arith, e, h))
  | inr h ↦ ground (arith, e, h)
]

-- A text is all white space, or it is trimmed at its last other character.
trim_end-split :
    (t : Text)
    → ((trim_end t ≡ []) × (all is_whitespace t ≡ true))
      ⊎ ((cs back : Text) × (c : ℕ) × (trim_end t ≡ cs ++ c ∷ [])
          × (is_whitespace c ≡ false)
          × (t ≡ trim_end t ++ back)
          × (all is_whitespace back ≡ true))
unfolding trim_end all
trim_end-split [] = inl (refl, refl)
trim_end-split (d ∷ ds) = elim (trim_end-split ds) [
  | inl (e, w) ↦ elim (Bool-cases (is_whitespace d)) [
    | inl h ↦ inl (ground (arith, e, h), ground (arith, h, w))
    | inr h ↦
        let same : trim_end (d ∷ ds) ≡ d ∷ [] = ground (arith, e, h) in
        inr ([], ds, d, same, h, ap (λ x. x ++ ds) (sym same), w)
  ]
  | inr (cs, back, c, e, h, split, w) ↦
      let same : trim_end (d ∷ ds) ≡ d ∷ trim_end ds = trim_end-cons d ds cs c e in
      inr (
        d ∷ cs,
        back,
        c,
        same ∙ ap (◌∷◌ d) e,
        h,
        ap (◌∷◌ d) split ∙ ap (λ x. x ++ back) (sym same),
        w,
      )
]
  where
    trim_end-cons :
        (d : ℕ) (ds cs : Text) (c : ℕ)
        → trim_end ds ≡ cs ++ c ∷ []
        → trim_end (d ∷ ds) ≡ d ∷ trim_end ds
    trim_end-cons d ds [] c e = ground (arith, e)
    trim_end-cons d ds (x ∷ xs) c e = ground (arith, e)

all-append :
    (p : ℕ → Bool) (xs ys : Text) → all p xs ≡ true → all p ys ≡ true → all p (xs ++ ys) ≡ true
unfolding all
all-append p [] ys h k = k
all-append p (x ∷ xs) ys h k = ground (arith, all-append p xs ys)

push_block_cases :
    (t : Text) (blocks : List Text)
    → ((all is_whitespace t ≡ true) × (push_block t blocks ≡ blocks))
      ⊎ ((b : Text) × IsCore t b × (push_block t blocks ≡ b ∷ blocks))
unfolding push_block trim
push_block_cases t blocks =
    let (front, e, w) = trim_start-split t in
    elim (trim_end-split (trim_start t)) [
      | inl (gone, blank) ↦ inl (
        subst (λ x. all is_whitespace x ≡ true) (sym e)
            (all-append is_whitespace front (trim_start t) w blank),
        ground (arith, gone),
      )
      | inr (cs, back, c, ends, h, split, v) ↦
          let (d, ds, starts) = nonempty cs c in
          let whole : trim_start t ≡ d ∷ (ds ++ back) =
            split ∙ ap (λ x. x ++ back) (ends ∙ starts) in
          inr (
            trim_end (trim_start t),
            record {
              front = front;
              back = back;
              around = e ∙ ap (◌++◌ front) split;
              front_blank = w;
              back_blank = v;
              first = (d, ds, ends ∙ starts, trim_start-first t d (ds ++ back) whole);
              last = (cs, c, ends, h);
            },
            ground (arith, ends, starts),
          )
    ]
  where
    nonempty : (cs : Text) (c : ℕ) → (d : ℕ) × (ds : Text) × (cs ++ c ∷ [] ≡ d ∷ ds)
    nonempty [] c = (c, [], refl)
    nonempty (x ∷ xs) c = (x, xs ++ c ∷ [], refl)

blocks_of : List Part → List Text
blocks_of [] = []
blocks_of (prose l ∷ ps) = blocks_of ps
blocks_of (code opening body ∷ ps) = push_block (unlines body) (blocks_of ps)

blocks_of-AreBlocks : (ps : List Part) → AreBlocks ps (blocks_of ps)
unfolding blocks_of
blocks_of-AreBlocks [] = refl
blocks_of-AreBlocks (prose l ∷ ps) = blocks_of-AreBlocks ps
blocks_of-AreBlocks (code opening body ∷ ps) =
    elim (push_block_cases (unlines body) (blocks_of ps)) [
      | inl (w, e) ↦ inl (w, subst (AreBlocks ps) (sym e) (blocks_of-AreBlocks ps))
      | inr (b, core, e) ↦ inr (b, blocks_of ps, e, core, blocks_of-AreBlocks ps)
    ]

starts_with-text_eq : (s p : Text) → starts_with s p ≡ false → text_eq s p ≡ false
unfolding starts_with text_eq
starts_with-text_eq [] [] h = absurd (ground arith)
starts_with-text_eq [] (p ∷ ps) h = refl
starts_with-text_eq (c ∷ cs) [] h = absurd (ground arith)
starts_with-text_eq (c ∷ cs) (p ∷ ps) h = ground (arith, starts_with-text_eq cs ps)

fence_closes : text_eq (trim fence) fence ≡ true
unfolding trim text_eq
fence_closes = refl

scan-body :
    (current : Text) (body rest : List Text)
    → All (λ l. text_eq (trim l) fence ≡ false) body
    → scan true current (body ++ fence ∷ rest)
      ≡ push_block (current ++ unlines body) (scan false [] rest)
unfolding scan unlines
scan-body current [] rest h = ground (arith, fence_closes, append-nil current)
scan-body current (l ∷ ls) rest h =
    let grown = current ++ l ++ newline ∷ [] in
    let same : grown ++ unlines ls ≡ current ++ (l ++ newline ∷ unlines ls) =
      append_assoc (current ++ l) (newline ∷ []) (unlines ls)
      ∙ append_assoc current l (newline ∷ unlines ls) in
    rw h.0 (scan-body grown ls rest h.1 ∙ ap (λ t. push_block t (scan false [] rest)) same)

scan-render : (ps : List Part) → All IsPart ps → scan false [] (render ps) ≡ blocks_of ps
unfolding scan render blocks_of
scan-render [] h = refl
scan-render (prose l ∷ ps) h =
    ground (arith, h.0, scan-render ps h.1, starts_with-text_eq (trim l) rust_fence)
scan-render (code opening body ∷ ps) h =
    ground (arith, h.0.0, scan-body [] body (render ps) h.0.1, scan-render ps h.1)

-- A response whose lines are prose and closed Rust blocks: `extract_rust_blocks` gives just the bodies
-- of its blocks that are not all white space, in their order, each without the white space around it.
pub extract_rust_blocks-AreBlocks :
    (response : Text) (ps : List Part)
    → lines response ≡ render ps
    → All IsPart ps
    → AreBlocks ps (extract_rust_blocks response)
unfolding extract_rust_blocks
extract_rust_blocks-AreBlocks response ps e h =
    subst (AreBlocks ps) (sym (ap (scan false []) e ∙ scan-render ps h)) (blocks_of-AreBlocks ps)
