-- ===== src/Prelude/Text.antt =====
-- Python's `str.strip`, and `str.lower` on the ASCII letters.
use Prim.Native.Char.{Char, code}
use Prim.Native.String.{String, [], ◌∷◌}
use mathlib.Core.Path.{◌≡◌, refl}
use mathlib.Core.Bool.{Bool, false, ◌&&◌, ◌||◌}
use net_soc_ops.Prelude.Tests.{leb, ◌==◌, str_eq, if◌then◌else◌}

-- `str.isspace` of one character.
unfoldable pub is_space : Char → Bool
is_space ch =
    let c = code ch in
    (leb 9 c && leb c 13)
    || (leb 28 c && leb c 32)
    || c == 0x85
    || c == 0xa0
    || c == 0x1680
    || (leb 0x2000 c && leb c 0x200a)
    || c == 0x2028
    || c == 0x2029
    || c == 0x202f
    || c == 0x205f
    || c == 0x3000

lstrip : String → String
unfolding is_space
lstrip [] = []
lstrip (c ∷ s) = let rest = lstrip s in if is_space c then rest else c ∷ s

rstrip : String → String
unfolding is_space
rstrip [] = []
rstrip (c ∷ s) = let rest = rstrip s in if is_space c && str_eq rest "" then [] else c ∷ rest

unfoldable pub strip : String → String
unfolding lstrip rstrip
strip s = lstrip (rstrip s)

-- The texts without a space.
abbrev pub IsSolid : String → Type 0
IsSolid [] = Unit
IsSolid (c ∷ s) = (is_space c ≡ false) × IsSolid s

rstrip-IsSolid : (s : String) → IsSolid s → rstrip s ≡ s
unfolding rstrip
rstrip-IsSolid [] h = refl
rstrip-IsSolid (c ∷ s) (h, hs) = rw (rstrip-IsSolid s hs) (rw h)

pub strip-IsSolid : (s : String) → IsSolid s → strip s ≡ s
unfolding strip lstrip
strip-IsSolid [] h = refl
strip-IsSolid (c ∷ s) (h, hs) = rw (rstrip-IsSolid (c ∷ s) (h, hs)) (rw h)

strip_test : strip "  a b " ≡ "a b"
unfolding strip
strip_test = refl

-- The character of the second text at the place of `ch` in the first.
translate : Char → String → String → Char
translate ch (f ∷ from) (t ∷ to) =
    let rest = translate ch from to in if code ch == code f then t else rest
translate ch _ _ = ch

unfoldable pub lower : String → String
unfolding translate
lower [] = []
lower (c ∷ s) = translate c "ABCDEFGHIJKLMNOPQRSTUVWXYZ" "abcdefghijklmnopqrstuvwxyz" ∷ lower s

lower_test : lower "AcTive" ≡ "active"
unfolding lower
lower_test = refl
