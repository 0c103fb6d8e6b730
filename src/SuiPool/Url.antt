-- ===== src/SuiPool/Url.antt =====
-- `isPrivateIPv4` and `validateRpcUrl` of keeper/src/sui-pool.ts. The platform's `URL` parser is not
-- modelled: its result is an argument, `none` where it throws. A host name is `localhost`, four
-- numbers of at most three digits, as the source's expression asks for, or any other.
use walwatch.Prelude.{
  ℕ, ◌+◌, ◌*◌, ◌%◌, ◌^◌, ◌≤◌, ◌<◌, ◌≡◌, ◌↔◌, ◌⊎◌, inl, inr, Bool, true, false, not, ◌&&◌, ◌||◌,
  List, [], ◌∷◌, Option, none, some, leb, ◌==◌, any, if◌then◌else◌, arith, refl, Bool-cases, map,
  ap, ap₂, ◌∙◌, sym,
}

pub data Protocol : Type 0 where
  https http other_protocol : Protocol

pub data Hostname : Type 0 where
  localhost : Hostname
  dotted : ℕ → ℕ → ℕ → ℕ → Hostname
  named : Hostname

pub record ParsedUrl : Type 0 where
  pub protocol : Protocol
  pub hostname : Hostname

-- How a check ends: with the address, and perhaps a warning, or with an error.
pub data Validation : Type 0 where
  accepted accepted_with_warning invalid insecure private_range : Validation

-- `PRIVATE_RANGES`, the first and last address of each.
abbrev pub private_ranges : List (ℕ × ℕ)
private_ranges =
    (0, 16777215)
    ∷ (167772160, 184549375)
    ∷ (309329920, 310378495)
    ∷ (1681915904, 1686110207)
    ∷ (2130706432, 2147483647)
    ∷ (2851995648, 2852061183)
    ∷ (2886729728, 2887778303)
    ∷ (3232235520, 3232301055)
    ∷ (4294901760, 4294967295)
    ∷ []

-- `((a << 24) | (b << 16) | (c << 8) | d) >>> 0`, of bytes.
unfoldable pub numeric : ℕ → ℕ → ℕ → ℕ → ℕ
numeric a b c d = (a * 2 ^ 24 + b * 2 ^ 16 + c * 2 ^ 8 + d) % 2 ^ 32

abbrev pub is_byte : ℕ → Bool
is_byte n = leb n 255

unfoldable pub is_private_ipv4 : ℕ → ℕ → ℕ → ℕ → Bool
unfolding numeric
is_private_ipv4 a b c d =
    is_byte a
    && (is_byte b && (is_byte c && is_byte d))
    && any (λ r. leb r.0 (numeric a b c d) && leb (numeric a b c d) r.1) private_ranges

abbrev pub is_https : Protocol → Bool
is_https https = true
is_https _ = false

abbrev is_http : Protocol → Bool
is_http http = true
is_http _ = false

-- `hostname === 'localhost' || hostname === '127.0.0.1'`.
abbrev pub is_local : Hostname → Bool
is_local localhost = true
is_local (dotted a b c d) = a == 127 && (b == 0 && (c == 0 && d == 1))
is_local named = false

unfoldable pub is_private : Hostname → Bool
unfolding is_private_ipv4
is_private (dotted a b c d) = is_private_ipv4 a b c d
is_private _ = false

-- The three checks of `validateRpcUrl`, in order.
unfoldable pub validate_parsed : ParsedUrl → Validation
unfolding is_private
validate_parsed url =
    if not (is_https url.protocol) && not (is_local url.hostname)
    then insecure
    else if is_private url.hostname
    then private_range
    else if is_http url.protocol && is_local url.hostname
    then accepted_with_warning
    else accepted

unfoldable pub validate_rpc_url : Option ParsedUrl → Validation
unfolding validate_parsed
validate_rpc_url none = invalid
validate_rpc_url (some url) = validate_parsed url

-- The networks that the source refuses, by their bytes: 0/8, 10/8, 18.112/12, 100.64/10, 127/8,
-- 169.254/16, 172.16/12, 192.168/16 and 255.255/16.
abbrev pub IsBlocked : ℕ → ℕ → Type 0
IsBlocked a b =
    (a ≡ 0)
    ⊎ (a ≡ 10)
    ⊎ ((a ≡ 18) × (112 ≤ b) × (b ≤ 127))
    ⊎ ((a ≡ 100) × (64 ≤ b) × (b ≤ 127))
    ⊎ (a ≡ 127)
    ⊎ ((a ≡ 169) × (b ≡ 254))
    ⊎ ((a ≡ 172) × (16 ≤ b) × (b ≤ 31))
    ⊎ ((a ≡ 192) × (b ≡ 168))
    ⊎ ((a ≡ 255) × (b ≡ 255))

-- A range of whole networks, as the range of its addresses.
abbrev widen : ℕ × ℕ → ℕ × ℕ
widen r = (r.0 * 65536, r.1 * 65536 + 65535)

-- The ranges, by the first two bytes.
abbrev networks : List (ℕ × ℕ)
networks =
    (0, 255)
    ∷ (2560, 2815)
    ∷ (4720, 4735)
    ∷ (25664, 25727)
    ∷ (32512, 32767)
    ∷ (43518, 43518)
    ∷ (44048, 44063)
    ∷ (49320, 49320)
    ∷ (65535, 65535)
    ∷ []

within : ℕ → ℕ × ℕ → Bool
within n r = leb r.0 n && leb n r.1

within-widen : (m lo : ℕ) (r : ℕ × ℕ) → lo < 65536 → within (m * 65536 + lo) (widen r) ≡ within m r
unfolding within
within-widen m lo r h = ground arith

any-widen :
    (m lo : ℕ) (rs : List (ℕ × ℕ))
    → lo < 65536
    → any (within (m * 65536 + lo)) (map widen rs) ≡ any (within m) rs
any-widen m lo [] h = refl
any-widen m lo (r ∷ rs) h = ap₂ (◌||◌) (within-widen m lo r h) (any-widen m lo rs h)

numeric-bytes :
    (a b c d : ℕ)
    → a ≤ 255
    → b ≤ 255
    → c ≤ 255
    → d ≤ 255
    → numeric a b c d ≡ (a * 256 + b) * 65536 + (c * 256 + d)
unfolding numeric
numeric-bytes a b c d ha hb hc hd = omega arith

any-networks :
    (a b : ℕ) → b ≤ 255 → (any (within (a * 256 + b)) networks ≡ true) ↔ (a ≤ 255 × IsBlocked a b)
unfolding within
any-networks a b hb = ground arith

all_bytes :
    (a b c d : ℕ)
    → a ≤ 255
    → b ≤ 255
    → c ≤ 255
    → d ≤ 255
    → (is_byte a && (is_byte b && (is_byte c && is_byte d))) ≡ true
all_bytes a b c d ha hb hc hd = ground arith

guarded_iff :
    {P Q : Type 0} {t x y : Bool}
    → t ≡ true
    → x ≡ y
    → P
    → (y ≡ true) ↔ (P × Q)
    → ((t && x) ≡ true) ↔ Q
guarded_iff {t = true} ht e p h = ((λ g. (h.0 (sym e ∙ g)).1), λ q. e ∙ h.1 (p, q))
guarded_iff {t = false} ht e p h = absurd (cc ht)

-- An address of four bytes is private to the source exactly if it is in one of its networks.
pub is_private_ipv4_iff :
    (a b c d : ℕ)
    → a ≤ 255
    → b ≤ 255
    → c ≤ 255
    → d ≤ 255
    → (is_private_ipv4 a b c d ≡ true) ↔ IsBlocked a b
unfolding is_private_ipv4 within
is_private_ipv4_iff a b c d ha hb hc hd =
    let in_networks = any-networks a b hb in
    let same : any (within (numeric a b c d)) private_ranges ≡ any (within (a * 256 + b)) networks =
      ap (λ n. any (within n) private_ranges) (numeric-bytes a b c d ha hb hc hd)
      ∙ any-widen (a * 256 + b) (c * 256 + d) networks (omega arith) in
    guarded_iff (all_bytes a b c d ha hb hc hd) same ha in_networks

is_private_loopback : is_private (dotted 127 0 0 1) ≡ true
unfolding is_private is_private_ipv4 numeric
is_private_loopback = refl

-- An address is let through exactly if it is HTTPS or `localhost`, and is not an IPv4 address of a
-- private network.
pub validate_rpc_url_iff :
    (url : ParsedUrl)
    → let v = validate_rpc_url (some url) in
      ((v ≡ accepted) ⊎ (v ≡ accepted_with_warning)) ↔ (
        ((is_https url.protocol ≡ true) ⊎ (url.hostname ≡ localhost))
        × (is_private url.hostname ≡ false))
unfolding validate_rpc_url
validate_rpc_url_iff url = of_parts url.protocol url.hostname
  where
    of_parts :
        (p : Protocol) (h : Hostname)
        → let v = validate_parsed (record { protocol = p; hostname = h }) in
          ((v ≡ accepted) ⊎ (v ≡ accepted_with_warning))
          ↔ (((is_https p ≡ true) ⊎ (h ≡ localhost)) × (is_private h ≡ false))
    of_parts p localhost = unfold validate_parsed is_private in ground arith
    of_parts p named = unfold validate_parsed is_private in ground arith
    of_parts p (dotted a b c d) = elim (Bool-cases (is_private (dotted a b c d))) [
      | inl e ↦ unfold validate_parsed in ground (arith, e)
      | inr e ↦ unfold validate_parsed in ground (arith, e, is_private_loopback)
    ]
