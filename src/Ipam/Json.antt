-- ===== src/Ipam/Json.antt =====
-- What `resp.json()` gives the imports, and what they do with one of its values.
use Prim.Native.String as Text
use net_soc_ops.Prelude.{
  ℕ, zero, suc, String, Bool, true, false, not, Option, none, some, str_eq, if◌then◌else◌,
}
use net_soc_ops.Prelude.Int.{ℤ, pos}
use net_soc_ops.Ipam.Store.{NetText}

-- A number with a fraction, or a list: what `int` makes of it, whether it is true, and whether it
-- equals 1.
pub record Other : Type 0 where
  pub int_of : Option ℤ
  pub truth : Bool
  pub is_one : Bool

mutual
  pub data Json : Type 0 where
    null : Json
    boolean : Bool → Json
    integer : ℤ → Json
    text : String → Json
    other : Other → Json
    object : Members → Json

  pub data Members : Type 0 where
    no_members : Members
    member : String → Json → Members → Members

-- `str` of a value that is not a text, and of an integer.
pub record Printer : Type 0 where
  pub str : Json → String
  pub decimal : ℤ → String

-- `row.get(key)`: `None` for a missing key.
unfoldable pub get : String → Members → Json
get key no_members = null
get key (member k v m) = let rest = get key m in if str_eq k key then v else rest

unfoldable pub truth : Json → Bool
truth null = false
truth (boolean b) = b
truth (integer (pos zero)) = false
truth (integer _) = true
truth (text s) = not (str_eq s "")
truth (other o) = o.truth
truth (object no_members) = false
truth (object (member k v m)) = true

-- `a or b`.
unfoldable pub or_else : Json → Json → Json
unfolding truth
or_else a b = if truth a then a else b

unfoldable pub str_of : Printer → Json → String
str_of py (text s) = s
str_of py v = py.str v

-- `int(v)`; `none` is `TypeError` or `ValueError`.
unfoldable pub int_of : NetText → Json → Option ℤ
int_of t null = none
int_of t (boolean true) = some (pos 1)
int_of t (boolean false) = some (pos 0)
int_of t (integer n) = some n
int_of t (text s) = t.int_of s
int_of t (other o) = o.int_of
int_of t (object m) = none

-- `s[:n]`.
unfoldable pub sliced : ℕ → String → String
sliced n Text.[] = Text.[]
sliced zero (Text.◌∷◌ c s) = Text.[]
sliced (suc n) (Text.◌∷◌ c s) = Text.◌∷◌ c (sliced n s)

-- `s or None`.
abbrev pub full_or_none : String → Option String
full_or_none s = if str_eq s "" then none else some s
