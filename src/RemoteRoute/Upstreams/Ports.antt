-- ===== src/RemoteRoute/Upstreams/Ports.antt =====
-- The ports of `port_for_url`.
use route_prism.Common.{
  ℕ, ◌+◌, ◌*◌, ◌/◌, ◌^◌, ◌<◌, ◌≤◌, ◌≡◌, refl, true, none, Str, ap, ◌↔◌, Bool, false, some, is_empty,
  ltb, if◌then◌else◌, arith,
}
use route_prism.Common.Atoi.{digits_value, atoi_unsigned}
use route_prism.Common.Int.{ℤ, pos, pos_part, neg_part, int32}
use route_prism.Common.Results.{value, failure}
use route_prism.RemoteRoute.Upstreams.{Url, invalid_port, port_for_url, atoi_port}

-- The number `p` has 32 bits with a sign, and agrees with `n` up to multiples of 2 ^ 32; it is `n`
-- itself exactly if `n` is below 2 ^ 31.
pub record IsWrapped (n : ℕ) (p : ℤ) : Type 0 where
  pub above : neg_part p ≤ 2 ^ 31
  pub below : pos_part p < 2 ^ 31
  pub turns : ℕ
  pub agrees : n + neg_part p ≡ pos_part p + turns * 2 ^ 32
  pub exact : (p ≡ pos n) ↔ (n < 2 ^ 31)

int32-above : (n : ℕ) → neg_part (int32 n) ≤ 2 ^ 31
unfolding int32
int32-above n = ground arith

int32-below : (n : ℕ) → pos_part (int32 n) < 2 ^ 31
unfolding int32
int32-below n = ground arith

int32-turns : (n : ℕ) → (k : ℕ) × (n + neg_part (int32 n) ≡ pos_part (int32 n) + k * 2 ^ 32)
unfolding int32
int32-turns n = ((n + 2 ^ 31) / 2 ^ 32, ground arith)

int32-exact : (n : ℕ) → (int32 n ≡ pos n) ↔ (n < 2 ^ 31)
unfolding int32
int32-exact n =
    ((λ h. let a = ap pos_part h in let b = ap neg_part h in ground arith), λ h. ground arith)

int32-IsWrapped : (n : ℕ) → IsWrapped n (int32 n)
int32-IsWrapped n = record {
  above = int32-above n;
  below = int32-below n;
  turns = (int32-turns n).0;
  agrees = (int32-turns n).1;
  exact = int32-exact n;
}

ranged :
    (b : Bool) (text : Str) (n : ℕ)
    → atoi_port text (if b then some n else none)
      ≡ (if b then value (int32 n) else failure (invalid_port text))
ranged true text n = refl
ranged false text n = refl

-- A decimal port of a URL is taken, without a check, as its low 32 bits with a sign, if it is below
-- 2 ^ 63, and refused from there on. What is taken is the number of the URL exactly if that is below
-- 2 ^ 31; the numbers from 2 ^ 31 on are taken as other ones, which may be negative.
pub port_for_url_wraps :
    (u : Url) (n : ℕ)
    → is_empty u.port ≡ false
    → digits_value 0 u.port ≡ some n
    → (port_for_url u ≡ (if ltb n (2 ^ 63) then value (int32 n) else failure (invalid_port u.port)))
      × IsWrapped n (int32 n)
unfolding port_for_url atoi_unsigned
port_for_url_wraps u n given parsed =
    (rw (given, parsed) (ranged (ltb n (2 ^ 63)) u.port n), int32-IsWrapped n)
