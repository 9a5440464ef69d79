-- ===== src/Common/Ranges.antt =====
-- Half-open ranges of numbers that follow one another without a gap.
use Prim.Native.Nat.{ℕ, ◌≤◌, ◌<◌}
use mathlib.Core.Path.{◌≡◌, refl}
use mathlib.Core.Bool.{Bool, true, false, ◌&&◌}
use mathlib.Core.List.{List, [], ◌∷◌}
use native.Mathlib.Omega.{arith}
use hyverk_distributed_llm.Common.Tests.{ltb, leb}
use hyverk_distributed_llm.Common.Lists.{All, any}

-- The ranges lead from `a` to `b`, each from the end of the one before it.
abbrev pub Tiles : ℕ → List (ℕ × ℕ) → ℕ → Type 0
Tiles a [] b = a ≡ b
Tiles a ((s, e) ∷ rs) b = (s ≡ a) × (s ≤ e) × Tiles e rs b

abbrev pub in_range : ℕ → ℕ × ℕ → Bool
in_range l (s, e) = leb s l && ltb l e

pub Tiles-le : (a b : ℕ) (rs : List (ℕ × ℕ)) → Tiles a rs b → a ≤ b
Tiles-le a b [] t = omega arith
Tiles-le a b ((s, e) ∷ rs) t = omega (arith, Tiles-le e b rs t.2)

-- Below the start of a tiling no range holds a number, and in it some range does.
pub Tiles-below :
    (a b l : ℕ) (rs : List (ℕ × ℕ)) → Tiles a rs b → l < a → any (in_range l) rs ≡ false
unfolding any
Tiles-below a b l [] t h = refl
Tiles-below a b l ((s, e) ∷ rs) t h = ground (arith, Tiles-below e b l rs t.2)

pub Tiles-any :
    (a b l : ℕ) (rs : List (ℕ × ℕ)) → Tiles a rs b → a ≤ l → l < b → any (in_range l) rs ≡ true
unfolding any
Tiles-any a b l [] t h k = absurd (omega arith)
Tiles-any a b l ((s, e) ∷ rs) t h k = ground (arith, Tiles-any e b l rs t.2)

pub Tiles-All : (a b : ℕ) (rs : List (ℕ × ℕ)) → Tiles a rs b → All (λ r. (a ≤ r.0) × (r.1 ≤ b)) rs
Tiles-All a b rs t = go a a b rs (omega arith) t
  where
    go :
        (lo a b : ℕ) (rs : List (ℕ × ℕ))
        → lo ≤ a
        → Tiles a rs b
        → All (λ r. (lo ≤ r.0) × (r.1 ≤ b)) rs
    go lo a b [] h t = tt
    go lo a b ((s, e) ∷ rs) h t =
        ((omega arith, omega (arith, Tiles-le e b rs t.2)), go lo e b rs (omega arith) t.2)
