-- ===== src/Common/Utf8.antt =====
-- UTF-8: `str::as_bytes`, and `String::from_utf8_lossy`, which puts U+FFFD for each longest part that
-- begins a character and does not go on as one.
use Prim.Native.Nat.{ℕ, zero, suc, compare, Ordering, ◌+◌, ◌-◌, ◌*◌, ◌/◌, ◌%◌, ◌<◌}
use Prim.Native.Char.{Char, char, code, IsLt}
use Prim.Native.String.{String}
use mathlib.Core.Path.{◌≡◌, refl}
use mathlib.Core.Bool.{Bool, not, ◌&&◌}
use mathlib.Core.List.{List, [], ◌∷◌, ◌++◌}
use native.Mathlib.Omega.{arith}
use text.Mathlib.TextEquality.{Char-path}
use hyverk_distributed_llm.Common.Tests.{ltb, leb, ◌==◌, if◌then◌else◌}
use hyverk_distributed_llm.Common.Lists.{length, get_or, All}

abbrev pub replacement : ℕ
replacement = 0xfffd

-- The UTF-8 bytes of a code point.
unfoldable pub encode_code : ℕ → List ℕ
encode_code c =
    if ltb c 0x80
    then c ∷ []
    else if ltb c 0x800
    then (0xc0 + c / 0x40) ∷ (0x80 + c % 0x40) ∷ []
    else if ltb c 0x10000
    then (0xe0 + c / 0x1000) ∷ (0x80 + c / 0x40 % 0x40) ∷ (0x80 + c % 0x40) ∷ []
    else (0xf0 + c / 0x40000)
      ∷ (0x80 + c / 0x1000 % 0x40)
      ∷ (0x80 + c / 0x40 % 0x40)
      ∷ (0x80 + c % 0x40)
      ∷ []

-- The code points of a text.
abbrev pub codes : String → List ℕ
codes String.[] = []
codes (String.◌∷◌ c s) = code c ∷ codes s

unfoldable pub encode : List ℕ → List ℕ
unfolding encode_code
encode [] = []
encode (c ∷ cs) = encode_code c ++ encode cs

-- `s.as_bytes()`
unfoldable pub as_bytes : String → List ℕ
unfolding encode
as_bytes s = encode (codes s)

is_between : ℕ → ℕ → ℕ → Bool
is_between lo hi b = leb lo b && leb b hi

is_continuation : ℕ → Bool
unfolding is_between
is_continuation = is_between 0x80 0xbf

-- The bytes that may follow the first byte `b` of a character of three or four bytes.
second_ok : ℕ → ℕ → Bool
unfolding is_between
second_ok b c =
    is_between (if b == 0xe0 then 0xa0 else if b == 0xf0 then 0x90 else 0x80)
      (if b == 0xed then 0x9f else if b == 0xf4 then 0x8f else 0xbf) c

-- The character that begins with the byte `b`, and how many of the bytes after it belong to it. A
-- byte that is missing reads as 0, which goes on no character.
decode_step : ℕ → List ℕ → ℕ × ℕ
unfolding is_between is_continuation second_ok
decode_step b bs =
    let c = get_or bs 0 0 in
    let d = get_or bs 1 0 in
    let e = get_or bs 2 0 in
    if ltb b 0x80
    then (b, 0)
    else if is_between 0xc2 0xdf b && is_continuation c
    then ((b - 0xc0) * 0x40 + (c - 0x80), 1)
    else if not (is_between 0xe0 0xf4 b && second_ok b c)
    then (replacement, 0)
    else if not (is_continuation d)
    then (replacement, 1)
    else if ltb b 0xf0
    then (((b - 0xe0) * 0x40 + (c - 0x80)) * 0x40 + (d - 0x80), 2)
    else if not (is_continuation e)
    then (replacement, 2)
    else ((((b - 0xf0) * 0x40 + (c - 0x80)) * 0x40 + (d - 0x80)) * 0x40 + (e - 0x80), 3)

skip_bytes : ℕ → List ℕ → List ℕ
skip_bytes zero bs = bs
skip_bytes (suc n) [] = []
skip_bytes (suc n) (b ∷ bs) = skip_bytes n bs

-- On fuel; each step takes a byte at least.
decode : ℕ → List ℕ → List ℕ
unfolding decode_step skip_bytes
decode zero bs = []
decode (suc fuel) [] = []
decode (suc fuel) (b ∷ bs) = let (c, n) = decode_step b bs in c ∷ decode fuel (skip_bytes n bs)

-- A scalar value by clauses, so that a proof is found where there is one.
abbrev IsSecond : Ordering → Ordering → Type 0
IsSecond Ordering.lt o = IsLt o
IsSecond Ordering.eq o = ⊥
IsSecond Ordering.gt o = ⊥

abbrev IsScalar : Ordering → Ordering → Ordering → Type 0
IsScalar Ordering.lt o p = Unit
IsScalar Ordering.eq o p = IsSecond o p
IsScalar Ordering.gt o p = IsSecond o p

second_or : (o p : Ordering) → (IsSecond o p → Char) → Char
second_or Ordering.lt Ordering.lt f = f tt
second_or Ordering.lt Ordering.eq f = char 0xfffd tt
second_or Ordering.lt Ordering.gt f = char 0xfffd tt
second_or Ordering.eq p f = char 0xfffd tt
second_or Ordering.gt p f = char 0xfffd tt

scalar_or : (o p q : Ordering) → (IsScalar o p q → Char) → Char
unfolding second_or
scalar_or Ordering.lt p q f = f tt
scalar_or Ordering.eq p q f = second_or p q f
scalar_or Ordering.gt p q f = second_or p q f

-- The character of a code point; what is no scalar value becomes U+FFFD.
to_char : ℕ → Char
unfolding scalar_or
to_char n = scalar_or (compare n 55296) (compare 57343 n) (compare n 1114112) (char n)

pub from_codes : List ℕ → String
from_codes [] = String.[]
from_codes (c ∷ cs) = String.◌∷◌ (to_char c) (from_codes cs)

unfoldable pub from_utf8_lossy : List ℕ → String
unfolding decode
from_utf8_lossy bs = from_codes (decode (length bs) bs)

-- A text of ASCII characters is read back.
code-scalar_or :
    (n : ℕ) (o p q : Ordering) (f : IsScalar o p q → Char)
    → o ≡ Ordering.lt
    → ((h : IsScalar o p q) → code (f h) ≡ n)
    → code (scalar_or o p q f) ≡ n
unfolding scalar_or second_or
code-scalar_or n Ordering.lt p q f e h = h tt
code-scalar_or n Ordering.eq p q f e h = cc
code-scalar_or n Ordering.gt p q f e h = cc

to_char-ascii : (c : Char) → code c < 0x80 → to_char (code c) ≡ c
unfolding to_char
to_char-ascii (char n p) h =
    Char-path _ _ (code-scalar_or n (compare n 55296) _ _ (char n) (ground arith) (λ q. refl))

abbrev pub IsAscii : String → Type 0
IsAscii s = All (λ c. c < 0x80) (codes s)

encode-ascii : (cs : List ℕ) → All (λ c. c < 0x80) cs → encode cs ≡ cs
unfolding encode
encode-ascii [] h = refl
encode-ascii (c ∷ cs) h = ground (arith, encode-ascii cs h.1)

decode-ascii : (cs : List ℕ) → All (λ c. c < 0x80) cs → decode (length cs) cs ≡ cs
unfolding decode
decode-ascii [] h = refl
decode-ascii (c ∷ cs) h = ground (arith, decode-ascii cs h.1)

from_codes-codes : (s : String) → All (λ c. c < 0x80) (codes s) → from_codes (codes s) ≡ s
unfolding from_codes
from_codes-codes String.[] h = refl
from_codes-codes (String.◌∷◌ c s) h = cc (to_char-ascii c h.0, from_codes-codes s h.1)

pub from_utf8_lossy-as_bytes : (s : String) → IsAscii s → from_utf8_lossy (as_bytes s) ≡ s
unfolding from_utf8_lossy as_bytes
from_utf8_lossy-as_bytes s h =
    let e = encode-ascii (codes s) h in rw e (rw (decode-ascii (codes s) h) (from_codes-codes s h))
