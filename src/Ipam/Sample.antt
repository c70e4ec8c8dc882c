-- ===== src/Ipam/Sample.antt =====
-- A small reading of texts for the examples: a network is written `4`, its address in unary, `/` and
-- its length in unary.
use Prim.Native.Char.{Char, code}
use Prim.Native.String as Text
use net_soc_ops.Prelude.{
  ℕ, zero, suc, ◌+◌, ◌%◌, ◌^◌, String, ◌≡◌, refl, inl, inr, ◌⊎◌, Bool, true, false, strip, ◌&&◌,
  Option, none, some, leb, leb_iff, ◌==◌, ==_iff, is_space, IsSolid, strip-IsSolid, arith,
  Bool-cases, if◌then◌else◌,
}
use net_soc_ops.Prelude.Int.{ℤ}
use net_soc_ops.Ipam.Network.{Version, v4, v6, Network, width, num_addresses, IsNetwork}
use net_soc_ops.Ipam.Store.{NetText, Date}

unary : ℕ → String → String
unary zero s = s
unary (suc n) s = Text.◌∷◌ "1" (unary n s)

version_char : Version → Char
version_char v4 = "4"
version_char v6 = "6"

unfoldable pub print : Network → String
unfolding unary version_char
print n =
    Text.◌∷◌ (version_char n.version)
      (unary n.network_address (Text.◌∷◌ "/" (unary n.prefixlen "")))

is_network : Network → Bool
is_network n =
    leb n.prefixlen (width n.version)
    && (n.network_address % num_addresses n == 0)
    && leb (n.network_address + num_addresses n) (2 ^ width n.version)

is_network-IsNetwork : (n : Network) → is_network n ≡ true → IsNetwork n
unfolding is_network
is_network-IsNetwork n h = record {
  len_fits = ground (arith, leb_iff n.prefixlen (width n.version));
  aligned = ground (arith, ==_iff (n.network_address % num_addresses n) 0);
  in_space = ground (arith, leb_iff (n.network_address + num_addresses n) (2 ^ width n.version));
}

IsNetwork-is_network : (n : Network) → IsNetwork n → is_network n ≡ true
unfolding is_network
IsNetwork-is_network n h = ground (
  arith,
  h.len_fits,
  h.aligned,
  h.in_space,
  leb_iff n.prefixlen (width n.version),
  ==_iff (n.network_address % num_addresses n) 0,
  leb_iff (n.network_address + num_addresses n) (2 ^ width n.version),
)

-- The second part: the length, to the end of the text.
read_length : Version → ℕ → ℕ → String → Option Network
read_length v address n Text.[] =
    some (record { version = v; network_address = address; prefixlen = n })
read_length v address n (Text.◌∷◌ c s) =
    let rest = read_length v address (suc n) s in if code c == 49 then rest else none

read_address : Version → ℕ → String → Option Network
unfolding read_length
read_address v n Text.[] = none
read_address v n (Text.◌∷◌ c s) =
    let rest = read_address v (suc n) s in
    let done = read_length v n 0 s in
    if code c == 49 then rest else if code c == 47 then done else none

checked : Option Network → Option Network
checked none = none
checked (some n) = if is_network n then some n else none

unfoldable pub parse : String → Option Network
unfolding read_address checked is_network
parse Text.[] = none
parse (Text.◌∷◌ c s) =
    let four = checked (read_address v4 0 s) in
    let six = checked (read_address v6 0 s) in
    if code c == 52 then four else if code c == 54 then six else none

add_zero : (k : ℕ) → k + 0 ≡ k
add_zero k = omega arith

zero_add : (k : ℕ) → 0 + k ≡ k
zero_add k = omega arith

add_suc : (k n : ℕ) → suc k + n ≡ k + suc n
add_suc k n = omega arith

read_length-unary :
    (v : Version) (address k n : ℕ)
    → read_length v address k (unary n "")
      ≡ some (record { version = v; network_address = address; prefixlen = k + n })
unfolding read_length unary
read_length-unary v address k zero = rw (add_zero k)
read_length-unary v address k (suc n) = rw (← add_suc k n) (read_length-unary v address (suc k) n)

read_address-unary :
    (v : Version) (k n len : ℕ)
    → read_address v k (unary n (Text.◌∷◌ "/" (unary len "")))
      ≡ some (record { version = v; network_address = k + n; prefixlen = len })
unfolding read_address unary
read_address-unary v k zero len =
    let done = rw (zero_add len) at (read_length-unary v k 0 len) in rw (add_zero k) done
read_address-unary v k (suc n) len = rw (← add_suc k n) (read_address-unary v (suc k) n len)

abbrev fields : Version → ℕ → ℕ → Network
fields v address len = record { version = v; network_address = address; prefixlen = len }

parse-fields :
    (v : Version) (address len : ℕ)
    → IsNetwork (fields v address len)
    → parse (print (fields v address len)) ≡ some (fields v address len)
unfolding parse print version_char checked
parse-fields v4 address len h =
    let valid = IsNetwork-is_network (fields v4 address len) h in
    let read = rw (zero_add address) at (read_address-unary v4 0 address len) in rw read (rw valid)
parse-fields v6 address len h =
    let valid = IsNetwork-is_network (fields v6 address len) h in
    let read = rw (zero_add address) at (read_address-unary v6 0 address len) in rw read (rw valid)

pub parse-print : (n : Network) → IsNetwork n → parse (print n) ≡ some n
parse-print n h = parse-fields n.version n.network_address n.prefixlen h

checked-IsNetwork : (o : Option Network) (n : Network) → checked o ≡ some n → IsNetwork n
unfolding checked
checked-IsNetwork none n h = cc
checked-IsNetwork (some m) n h = elim (Bool-cases (is_network m)) [
  | inl e ↦ from_same (rw e at h) e
  | inr e ↦ cc (rw e at h)
]
  where
    from_same : some m ≡ some n → is_network m ≡ true → IsNetwork n
    from_same k e = is_network-IsNetwork n (cc (k, e))

pub parse-IsNetwork : (s : String) (n : Network) → parse s ≡ some n → IsNetwork n
unfolding parse
parse-IsNetwork Text.[] n h = cc
parse-IsNetwork (Text.◌∷◌ c s) n h = elim (Bool-cases (code c == 52)) [
  | inl e ↦ checked-IsNetwork (read_address v4 0 s) n (rw e at h)
  | inr e ↦ elim (Bool-cases (code c == 54)) [
    | inl e' ↦ checked-IsNetwork (read_address v6 0 s) n (rw (e, e') at h)
    | inr e' ↦ cc (rw (e, e') at h)
  ]
]

unary-IsSolid : (n : ℕ) (s : String) → IsSolid s → IsSolid (unary n s)
unfolding unary is_space
unary-IsSolid zero s h = h
unary-IsSolid (suc n) s h = (refl, unary-IsSolid n s h)

pub print-IsSolid : (v : Version) (address len : ℕ) → IsSolid (print (fields v address len))
unfolding print version_char is_space
print-IsSolid v4 address len = (refl, unary-IsSolid address _ (refl, unary-IsSolid len "" tt))
print-IsSolid v6 address len = (refl, unary-IsSolid address _ (refl, unary-IsSolid len "" tt))

pub no_date : String → Option Date
no_date s = none

pub no_number : String → Option ℤ
no_number s = none

-- No text is a date or a number here.
unfoldable pub sample : NetText
sample = record {
  parse = parse;
  print = print;
  strptime = no_date;
  int_of = no_number;
  parse-IsNetwork = parse-IsNetwork;
  parse-print = parse-print;
  strip-print =
      λ n. strip-IsSolid (print n) (print-IsSolid n.version n.network_address n.prefixlen);
}

one_IsSolid : (c : Char) → (code c == 49) ≡ true → is_space c ≡ false
unfolding is_space
one_IsSolid c h = rw ((==_iff (code c) 49).0 h)

read_length-IsSolid :
    (v : Version) (address k : ℕ) (s : String) (n : Network)
    → read_length v address k s ≡ some n
    → IsSolid s
unfolding read_length
read_length-IsSolid v address k Text.[] n h = tt
read_length-IsSolid v address k (Text.◌∷◌ c s) n h = elim (Bool-cases (code c == 49)) [
  | inl e ↦ (one_IsSolid c e, read_length-IsSolid v address (suc k) s n (rw e at h))
  | inr e ↦ cc (rw e at h)
]

slash_IsSolid : (c : Char) → (code c == 47) ≡ true → is_space c ≡ false
unfolding is_space
slash_IsSolid c h = rw ((==_iff (code c) 47).0 h)

read_address-IsSolid :
    (v : Version) (k : ℕ) (s : String) (n : Network) → read_address v k s ≡ some n → IsSolid s
unfolding read_address
read_address-IsSolid v k Text.[] n h = cc
read_address-IsSolid v k (Text.◌∷◌ c s) n h = elim (Bool-cases (code c == 49)) [
  | inl e ↦ (one_IsSolid c e, read_address-IsSolid v (suc k) s n (rw e at h))
  | inr e ↦ elim (Bool-cases (code c == 47)) [
    | inl e' ↦ (slash_IsSolid c e', read_length-IsSolid v k 0 s n (rw (e, e') at h))
    | inr e' ↦ cc (rw (e, e') at h)
  ]
]

unchecked : (o : Option Network) (n : Network) → checked o ≡ some n → (m : Network) × (o ≡ some m)
unfolding checked
unchecked none n h = cc
unchecked (some m) n h = (m, refl)

version_IsSolid :
    (c : Char) (k : ℕ) → (code c == k) ≡ true → (k ≡ 52) ⊎ (k ≡ 54) → is_space c ≡ false
unfolding is_space
version_IsSolid c k h (inl e) = rw ((==_iff (code c) k).0 h) (rw e)
version_IsSolid c k h (inr e) = rw ((==_iff (code c) k).0 h) (rw e)

parse-IsSolid : (s : String) (n : Network) → parse s ≡ some n → IsSolid s
unfolding parse
parse-IsSolid Text.[] n h = cc
parse-IsSolid (Text.◌∷◌ c s) n h = elim (Bool-cases (code c == 52)) [
  | inl e ↦
      let (m, read) = unchecked (read_address v4 0 s) n (rw e at h) in
      (version_IsSolid c 52 e (inl refl), read_address-IsSolid v4 0 s m read)
  | inr e ↦ elim (Bool-cases (code c == 54)) [
    | inl e' ↦
        let (m, read) = unchecked (read_address v6 0 s) n (rw (e, e') at h) in
        (version_IsSolid c 54 e' (inr refl), read_address-IsSolid v6 0 s m read)
    | inr e' ↦ cc (rw (e, e') at h)
  ]
]

-- A network's text has no space around it.
pub parse-strip : (s : String) (n : Network) → parse s ≡ some n → parse (strip s) ≡ some n
parse-strip s n h = rw (strip-IsSolid s (parse-IsSolid s n h)) h
