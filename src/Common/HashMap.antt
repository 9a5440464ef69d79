-- ===== src/Common/HashMap.antt =====
-- `std::collections::HashMap` with string keys, as a list of entries. The order of iteration is
-- unspecified in the source; here it is the order in which the keys were first inserted.
use Prim.Native.String.{String}
use mathlib.Core.Path.{◌≡◌, refl}
use mathlib.Core.Bool.{Bool, true, false}
use mathlib.Core.List.{List, [], ◌∷◌}
use mathlib.Core.Option.{Option, none, some}
use native.Mathlib.Omega.{arith}
use text.Mathlib.Text.{◌==◌ as str_eq}
use text.Mathlib.TextEquality.{eq_iff}
use hyverk_distributed_llm.Common.Tests.{if◌then◌else◌}
use hyverk_distributed_llm.Common.Lists.{contains, distinct}

abbrev pub HashMap {ℓ} : Type ℓ → Type ℓ
HashMap V = List (String × V)

module _ {ℓ} {V : Type ℓ} where
  unfoldable pub get : String → HashMap V → Option V
  get k [] = none
  get k ((j, v) ∷ m) = if str_eq j k then some v else get k m

  unfoldable pub insert : String → V → HashMap V → HashMap V
  insert k v [] = (k, v) ∷ []
  insert k v ((j, w) ∷ m) = if str_eq j k then (j, v) ∷ m else (j, w) ∷ insert k v m

  -- A key occurs once at most, so the rest of the entries is kept as it is.
  unfoldable pub remove : String → HashMap V → HashMap V
  remove k [] = []
  remove k ((j, w) ∷ m) = if str_eq j k then m else (j, w) ∷ remove k m

  -- `if let Some(v) = m.get_mut(k) { *v = f(*v) }`
  unfoldable pub modify : String → (V → V) → HashMap V → HashMap V
  modify k f [] = []
  modify k f ((j, w) ∷ m) = if str_eq j k then (j, f w) ∷ m else (j, w) ∷ modify k f m

  -- `m.retain(|_, v| keep(v))`
  unfoldable pub retain : (V → Bool) → HashMap V → HashMap V
  retain keep [] = []
  retain keep ((j, w) ∷ m) = let rest = retain keep m in if keep w then (j, w) ∷ rest else rest

  -- `for v in m.values_mut() { *v = f(*v) }`
  unfoldable pub map_values : (V → V) → HashMap V → HashMap V
  map_values f [] = []
  map_values f ((j, w) ∷ m) = (j, f w) ∷ map_values f m

  unfoldable pub values : HashMap V → List V
  values [] = []
  values ((j, w) ∷ m) = w ∷ values m

  abbrev pub keys : HashMap V → List String
  keys [] = []
  keys ((j, w) ∷ m) = j ∷ keys m

  -- What a hash map guarantees of its own: no key occurs twice.
  abbrev pub IsMap : HashMap V → Type 0
  IsMap m = distinct (keys m) ≡ true

  pub get-insert :
      (k j : String) (v : V) (m : HashMap V)
      → get j (insert k v m) ≡ (if str_eq k j then some v else get j m)
  unfolding get insert
  get-insert k j v [] = refl
  get-insert k j v ((i, w) ∷ m) =
      ground (arith, eq_iff k j, eq_iff i k, eq_iff i j, get-insert k j v m)

  pub get-modify :
      (k j : String) (f : V → V) (m : HashMap V)
      → get j (modify k f m)
        ≡ (if str_eq k j then elim (get j m) [ none ↦ none | some v ↦ some (f v) ] else get j m)
  unfolding get modify
  get-modify k j f [] = ground arith
  get-modify k j f ((i, w) ∷ m) =
      ground (arith, eq_iff k j, eq_iff i k, eq_iff i j, get-modify k j f m)

  pub get-map_values :
      (j : String) (f : V → V) (m : HashMap V)
      → get j (map_values f m) ≡ elim (get j m) [ none ↦ none | some v ↦ some (f v) ]
  unfolding get map_values
  get-map_values j f [] = refl
  get-map_values j f ((i, w) ∷ m) = ground (arith, get-map_values j f m)

  pub get-absent : (k : String) (m : HashMap V) → contains (keys m) k ≡ false → get k m ≡ none
  unfolding get contains
  get-absent k [] h = refl
  get-absent k ((i, w) ∷ m) h = ground (arith, get-absent k m)

  pub contains-keys-retain :
      (keep : V → Bool) (k : String) (m : HashMap V)
      → contains (keys m) k ≡ false
      → contains (keys (retain keep m)) k ≡ false
  unfolding retain contains
  contains-keys-retain keep k [] h = refl
  contains-keys-retain keep k ((i, w) ∷ m) h = ground (arith, contains-keys-retain keep k m)

  pub retain-IsMap : (keep : V → Bool) (m : HashMap V) → IsMap m → IsMap (retain keep m)
  unfolding retain distinct
  retain-IsMap keep [] h = refl
  retain-IsMap keep ((i, w) ∷ m) h =
      ground (arith, retain-IsMap keep m, contains-keys-retain keep i m)

  pub get-retain :
      (keep : V → Bool) (j : String) (m : HashMap V)
      → IsMap m
      → get j (retain keep m)
        ≡ elim (get j m) [ none ↦ none | some v ↦ (if keep v then some v else none) ]
  unfolding get retain distinct
  get-retain keep j [] h = refl
  get-retain keep j ((i, w) ∷ m) h = ground (
    arith,
    eq_iff i j,
    get-retain keep j m,
    get-absent i m,
    get-absent i (retain keep m),
    contains-keys-retain keep i m,
  )

  pub contains-keys-insert :
      (k j : String) (v : V) (m : HashMap V)
      → contains (keys (insert k v m)) j ≡ (if str_eq k j then true else contains (keys m) j)
  unfolding insert contains
  contains-keys-insert k j v [] = ground arith
  contains-keys-insert k j v ((i, w) ∷ m) =
      ground (arith, eq_iff k j, eq_iff i k, eq_iff i j, contains-keys-insert k j v m)

  pub insert-IsMap : (k : String) (v : V) (m : HashMap V) → IsMap m → IsMap (insert k v m)
  unfolding insert distinct
  insert-IsMap k v [] h = ground arith
  insert-IsMap k v ((i, w) ∷ m) h =
      ground (arith, eq_iff i k, eq_iff k i, insert-IsMap k v m, contains-keys-insert k i v m)

  pub keys-modify : (k : String) (f : V → V) (m : HashMap V) → keys (modify k f m) ≡ keys m
  unfolding modify
  keys-modify k f [] = refl
  keys-modify k f ((i, w) ∷ m) = ground (arith, keys-modify k f m)

  pub keys-map_values : (f : V → V) (m : HashMap V) → keys (map_values f m) ≡ keys m
  unfolding map_values
  keys-map_values f [] = refl
  keys-map_values f ((i, w) ∷ m) = ground (arith, keys-map_values f m)

  pub contains-keys-remove :
      (k j : String) (m : HashMap V)
      → contains (keys m) j ≡ false
      → contains (keys (remove k m)) j ≡ false
  unfolding remove contains
  contains-keys-remove k j [] h = h
  contains-keys-remove k j ((i, w) ∷ m) h = ground (arith, contains-keys-remove k j m)

  pub remove-IsMap : (k : String) (m : HashMap V) → IsMap m → IsMap (remove k m)
  unfolding remove distinct
  remove-IsMap k [] h = h
  remove-IsMap k ((i, w) ∷ m) h = ground (arith, remove-IsMap k m, contains-keys-remove k i m)

  pub get-remove :
      (k j : String) (m : HashMap V)
      → IsMap m
      → get j (remove k m) ≡ (if str_eq k j then none else get j m)
  unfolding get remove distinct
  get-remove k j [] h = ground arith
  get-remove k j ((i, w) ∷ m) h =
      ground (arith, eq_iff k j, eq_iff i k, eq_iff i j, get-remove k j m, get-absent i m)

  pub remove-none : (k : String) (m : HashMap V) → get k m ≡ none → remove k m ≡ m
  unfolding get remove
  remove-none k [] e = refl
  remove-none k ((j, w) ∷ m) e = ground (arith, remove-none k m)

  -- The entries without those of some keys.
  abbrev pub without : List String → HashMap V → HashMap V
  without [] m = m
  without (k ∷ ks) m = without ks (remove k m)

  pub get-without :
      (j : String) (ks : List String) (m : HashMap V)
      → IsMap m
      → get j (without ks m) ≡ (if contains ks j then none else get j m)
  unfolding contains
  get-without j [] m h = refl
  get-without j (k ∷ ks) m h =
      ground (arith, get-without j ks (remove k m) (remove-IsMap k m h), get-remove k j m h)

  pub without-absent :
      (k : String) (v : V) (ks : List String) (m : HashMap V)
      → contains ks k ≡ false
      → without ks ((k, v) ∷ m) ≡ (k, v) ∷ without ks m
  unfolding contains remove
  without-absent k v [] m h = refl
  without-absent k v (j ∷ ks) m h =
      ground (arith, eq_iff j k, eq_iff k j, without-absent k v ks (remove j m))
