-- ===== src/Api/Cursor.antt =====
-- Cursors: `encodeCursor` and `decodeCursor` (modules/operator/internal/apiserver/api.go), with the
-- unpadded URL alphabet of Go's `base64.RawURLEncoding` written out.
use route_prism.Common.{
  ℕ, ◌+◌, ◌-◌, ◌*◌, ◌/◌, ◌%◌, ◌<◌, ◌≡◌, refl, Bool, true, not, ◌&&◌, ◌||◌, Option, none, some, [],
  ◌∷◌, arith, ltb, leb, ◌==◌, if◌then◌else◌, Str, is_empty, filter, All, filter-All,
}

encode_digit : ℕ → ℕ
encode_digit v =
    if ltb v 26
    then b'A' + v
    else if ltb v 52
    then b'a' + (v - 26)
    else if ltb v 62
    then b'0' + (v - 52)
    else if v == 62
    then b'-'
    else b'_'

decode_digit : ℕ → Option ℕ
decode_digit c =
    if leb b'A' c && leb c b'Z'
    then some (c - b'A')
    else if leb b'a' c && leb c b'z'
    then some (c - b'a' + 26)
    else if leb b'0' c && leb c b'9'
    then some (c - b'0' + 52)
    else if c == b'-'
    then some 62
    else if c == b'_'
    then some 63
    else none

-- `base64.RawURLEncoding.EncodeToString`
encode_to_string : Str → Str
encode_to_string [] = []
encode_to_string (a ∷ []) = encode_digit (a / 4) ∷ encode_digit (a % 4 * 16) ∷ []
encode_to_string (a ∷ b ∷ []) =
    encode_digit (a / 4) ∷ encode_digit (a % 4 * 16 + b / 16) ∷ encode_digit (b % 16 * 4) ∷ []
encode_to_string (a ∷ b ∷ c ∷ s) =
    encode_digit (a / 4)
    ∷ encode_digit (a % 4 * 16 + b / 16)
    ∷ encode_digit (b % 16 * 4 + c / 64)
    ∷ encode_digit (c % 64)
    ∷ encode_to_string s

infixl 5 ◌>>=◌
abbrev ◌>>=◌ {ℓ κ} : {A : Type ℓ} {B : Type κ} → Option A → (A → Option B) → Option B
none >>= k = none
some a >>= k = k a

-- The quanta of the decoder; bits that are left over at the end are dropped.
decode_quanta : Str → Option Str
decode_quanta [] = some []
decode_quanta (p ∷ []) = none
decode_quanta (p ∷ q ∷ []) = do a ← decode_digit p; b ← decode_digit q; some ((a * 4 + b / 16) ∷ [])
decode_quanta (p ∷ q ∷ r ∷ []) = do
  a ← decode_digit p
  b ← decode_digit q
  c ← decode_digit r
  some ((a * 4 + b / 16) ∷ (b % 16 * 16 + c / 4) ∷ [])
decode_quanta (p ∷ q ∷ r ∷ t ∷ s) = do
  a ← decode_digit p
  b ← decode_digit q
  c ← decode_digit r
  d ← decode_digit t
  rest ← decode_quanta s
  some ((a * 4 + b / 16) ∷ (b % 16 * 16 + c / 4) ∷ (c % 4 * 64 + d) ∷ rest)

-- The decoder skips line ends wherever they stand.
abbrev not_newline : ℕ → Bool
not_newline c = not (c == 10 || c == 13)

-- `base64.RawURLEncoding.DecodeString`
decode_string : Str → Option Str
unfolding decode_quanta
decode_string s = decode_quanta (filter not_newline s)

pub encode_cursor : Str → Str
unfolding encode_to_string encode_digit
encode_cursor s = encode_to_string s

-- An empty or a malformed cursor decodes to the empty one.
pub decode_cursor : Str → Str
unfolding decode_string decode_digit
decode_cursor s = elim (decode_string s) [ none ↦ [] | some b ↦ b ]

-- Bytes.
abbrev pub IsBytes : Str → Type 0
IsBytes s = All (λ c. c < 256) s

decode_digit-encode_digit : (v : ℕ) → v < 64 → decode_digit (encode_digit v) ≡ some v
unfolding decode_digit encode_digit
decode_digit-encode_digit v h = ground arith

not_newline-encode_digit : (v : ℕ) → v < 64 → not_newline (encode_digit v) ≡ true
unfolding encode_digit
not_newline-encode_digit v h = ground arith

encode-not_newline : (s : Str) → IsBytes s → All (λ c. not_newline c ≡ true) (encode_to_string s)
unfolding encode_to_string
encode-not_newline [] h = tt
encode-not_newline (a ∷ []) h =
    (not_newline-encode_digit _ (omega arith), (not_newline-encode_digit _ (omega arith), tt))
encode-not_newline (a ∷ b ∷ []) h = (
  not_newline-encode_digit _ (omega arith),
  (not_newline-encode_digit _ (omega arith), (not_newline-encode_digit _ (omega arith), tt)),
)
encode-not_newline (a ∷ b ∷ c ∷ s) (ha, (hb, (hc, h))) = (
  not_newline-encode_digit _ (omega arith),
  (
    not_newline-encode_digit _ (omega arith),
    (
      not_newline-encode_digit _ (omega arith),
      (not_newline-encode_digit _ (omega arith), encode-not_newline s h),
    ),
  ),
)

decode_quanta-encode : (s : Str) → IsBytes s → decode_quanta (encode_to_string s) ≡ some s
unfolding decode_quanta encode_to_string
decode_quanta-encode [] h = refl
decode_quanta-encode (a ∷ []) h =
    ground (arith, decode_digit-encode_digit (a / 4), decode_digit-encode_digit (a % 4 * 16))
decode_quanta-encode (a ∷ b ∷ []) h = ground (
  arith,
  decode_digit-encode_digit (a / 4),
  decode_digit-encode_digit (a % 4 * 16 + b / 16),
  decode_digit-encode_digit (b % 16 * 4),
)
decode_quanta-encode (a ∷ b ∷ c ∷ s) (ha, (hb, (hc, h))) = ground (
  arith,
  decode_digit-encode_digit (a / 4),
  decode_digit-encode_digit (a % 4 * 16 + b / 16),
  decode_digit-encode_digit (b % 16 * 4 + c / 64),
  decode_digit-encode_digit (c % 64),
  decode_quanta-encode s h,
)

decode_string-encode : (s : Str) → IsBytes s → decode_string (encode_to_string s) ≡ some s
unfolding decode_string
decode_string-encode s h =
    rw (filter-All not_newline _ (encode-not_newline s h)) (decode_quanta-encode s h)

-- A cursor made from any byte string decodes to that string.
pub decode_cursor-encode_cursor : (s : Str) → IsBytes s → decode_cursor (encode_cursor s) ≡ s
unfolding decode_cursor encode_cursor
decode_cursor-encode_cursor s h = ground (arith, decode_string-encode s h)

pub encode_cursor-empty : (s : Str) → is_empty (encode_cursor s) ≡ is_empty s
unfolding encode_cursor
encode_cursor-empty [] = refl
encode_cursor-empty (a ∷ []) = refl
encode_cursor-empty (a ∷ b ∷ []) = refl
encode_cursor-empty (a ∷ b ∷ c ∷ s) = refl

pub decode_cursor-empty : (s : Str) → is_empty s ≡ true → decode_cursor s ≡ []
unfolding decode_cursor decode_string decode_quanta
decode_cursor-empty [] h = refl
decode_cursor-empty (c ∷ s) h = cc h
