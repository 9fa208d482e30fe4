-- ===== src/Common/Text.antt =====
-- The operations of Python's `str` that the program uses: `split` by one character or by
-- spaces, and `lower` and
-- `upper`, which change the letters of ASCII and keep every other character.
use Prim.Native.Nat.{ℕ, zero, suc, ◌-◌}
use Prim.Native.Char.{Char, code}
use Prim.Native.String
use Prim.Native.String.{String}
use mathlib.Core.Path.{◌≡◌, refl}
use mathlib.Core.Bool.{Bool, true, not, ◌&&◌, ◌||◌}
use mathlib.Core.List.{List, [], ◌∷◌}
use Prim.Native.String.append
use native.Mathlib.Omega.{arith}
use container_service_extens.Common.Tests.{leb, nat_eq, if◌then◌else◌}

-- One more character in front of the first piece.
abbrev grow : Char → List String → List String
grow c [] = (String.◌∷◌ c String.[]) ∷ []
grow c (piece ∷ pieces) = (String.◌∷◌ c piece) ∷ pieces

-- `s.split(sep)` for a separator of one character, given by its code.
unfoldable pub split : ℕ → String → List String
split sep String.[] = String.[] ∷ []
split sep (String.◌∷◌ c s) =
    let rest = split sep s in if nat_eq (code c) sep then String.[] ∷ rest else grow c rest

-- A space character of ASCII, as `str.split()` takes it.
is_space : Char → Bool
is_space c =
    nat_eq (code c) 32
    || (leb 9 (code c) && leb (code c) 13)
    || (leb 28 (code c) && leb (code c) 31)

pieces : String → List String
unfolding is_space
pieces String.[] = String.[] ∷ []
pieces (String.◌∷◌ c s) =
    let rest = pieces s in if is_space c then String.[] ∷ rest else grow c rest

nonempty : List String → List String
nonempty [] = []
nonempty (String.[] ∷ ts) = nonempty ts
nonempty (String.◌∷◌ c s ∷ ts) = (String.◌∷◌ c s) ∷ nonempty ts

-- `s.split()`
unfoldable pub words : String → List String
unfolding pieces nonempty
words s = nonempty (pieces s)

-- The letter at a position of an alphabet.
letter_at : ℕ → String → Char → Char
letter_at i String.[] d = d
letter_at zero (String.◌∷◌ c s) d = c
letter_at (suc i) (String.◌∷◌ c s) d = letter_at i s d

lower_char : Char → Char
unfolding letter_at
lower_char c =
    if leb b'A' (code c) && leb (code c) b'Z'
    then letter_at (code c - b'A') "abcdefghijklmnopqrstuvwxyz" c
    else c

upper_char : Char → Char
unfolding letter_at
upper_char c =
    if leb b'a' (code c) && leb (code c) b'z'
    then letter_at (code c - b'a') "ABCDEFGHIJKLMNOPQRSTUVWXYZ" c
    else c

unfoldable pub lower : String → String
unfolding lower_char
lower String.[] = String.[]
lower (String.◌∷◌ c s) = String.◌∷◌ (lower_char c) (lower s)

unfoldable pub upper : String → String
unfolding upper_char
upper String.[] = String.[]
upper (String.◌∷◌ c s) = String.◌∷◌ (upper_char c) (upper s)

-- `s[1:]`
unfoldable pub without_first : String → String
without_first String.[] = String.[]
without_first (String.◌∷◌ c s) = s

-- No character of the text has this code.
abbrev pub lacks : ℕ → String → Bool
lacks sep String.[] = true
lacks sep (String.◌∷◌ c s) = not (nat_eq (code c) sep) && lacks sep s

-- A text without the separator is one piece.
pub split_of_lacks : (sep : ℕ) (s : String) → lacks sep s ≡ true → split sep s ≡ s ∷ []
unfolding split
split_of_lacks sep String.[] h = refl
split_of_lacks sep (String.◌∷◌ c s) h = ground (arith, split_of_lacks sep s)

-- Up to the first separator stands the first piece.
pub split-append :
    (sep : ℕ) (s : String) (c : Char) (t : String)
    → lacks sep s ≡ true
    → nat_eq (code c) sep ≡ true
    → split sep (String.◌++◌ s (String.◌∷◌ c t)) ≡ s ∷ split sep t
unfolding split
split-append sep String.[] c t h e = rw (append.nil, e)
split-append sep (String.◌∷◌ d s) c t h e = rw append.cons (ground (arith, split-append sep s c t))

pub lacks-append :
    (sep : ℕ) (s t : String) → lacks sep (String.◌++◌ s t) ≡ (lacks sep s && lacks sep t)
lacks-append sep String.[] t = rw append.nil
lacks-append sep (String.◌∷◌ c s) t = rw append.cons (ground (arith, lacks-append sep s t))

pub lower-append : (s t : String) → lower (String.◌++◌ s t) ≡ String.◌++◌ (lower s) (lower t)
unfolding lower
lower-append String.[] t = rw (append.nil, append.nil)
lower-append (String.◌∷◌ c s) t = rw (append.cons, append.cons, lower-append s t)
