-- ===== src/Prelude/Bytes.antt =====
-- Go strings as lists of bytes, with slices and the functions of package `strings` on them.
use Prim.Native.Nat.{ℕ, suc, ◌-◌}
use Prim.Native.Char.{code}
use Prim.Native.String.{String}
use mathlib.Core.Bool.{Bool, true, false, ◌&&◌}
use mathlib.Core.Option.{Option, none, some}
use mathlib.Core.List.{List, [], ◌∷◌, ◌++◌}
use agentsdk.Prelude.Tests.{nat_eq, if◌then◌else◌}
use agentsdk.Prelude.Lists.{take, drop}

abbrev pub Bytes : Type 0
Bytes = List ℕ

-- The code points of a literal, which are its bytes when the text is ASCII.
abbrev pub codes : String → Bytes
codes String.[] = []
codes (String.◌∷◌ c s) = code c ∷ codes s

abbrev pub newline : ℕ
newline = b'\n'

-- s == t
abbrev pub bytes_eq : Bytes → Bytes → Bool
bytes_eq [] [] = true
bytes_eq (x ∷ s) (y ∷ t) = nat_eq x y && bytes_eq s t
bytes_eq _ _ = false

-- s[a:b]
abbrev pub slice : ℕ → ℕ → Bytes → Bytes
slice a b s = take (b - a) (drop a s)

-- `strings.HasPrefix(s, p)`, with the prefix first
unfoldable pub has_prefix : Bytes → Bytes → Bool
has_prefix [] s = true
has_prefix (x ∷ p) [] = false
has_prefix (x ∷ p) (y ∷ s) = nat_eq x y && has_prefix p s

abbrev pub next_index : Option ℕ → Option ℕ
next_index none = none
next_index (some i) = some (suc i)

-- `strings.Index(s, needle)`, with the needle first; `none` is -1.
unfoldable pub index : Bytes → Bytes → Option ℕ
unfolding has_prefix
index needle [] = if has_prefix needle [] then some 0 else none
index needle (c ∷ s) =
    let rest = next_index (index needle s) in if has_prefix needle (c ∷ s) then some 0 else rest

abbrev pub push_first : ℕ → List Bytes → List Bytes
push_first c [] = (c ∷ []) ∷ []
push_first c (part ∷ parts) = (c ∷ part) ∷ parts

-- `strings.Split` at one byte
unfoldable pub split : ℕ → Bytes → List Bytes
split sep [] = [] ∷ []
split sep (c ∷ s) = let rest = split sep s in if nat_eq c sep then [] ∷ rest else push_first c rest

-- `strings.Join` with one byte
unfoldable pub join : ℕ → List Bytes → Bytes
join sep [] = []
join sep (part ∷ []) = part
join sep (part ∷ next ∷ parts) = part ++ sep ∷ join sep (next ∷ parts)

-- The last byte.
abbrev pub last_is : ℕ → Bytes → Bool
last_is b [] = false
last_is b (c ∷ []) = nat_eq c b
last_is b (c ∷ d ∷ s) = last_is b (d ∷ s)
