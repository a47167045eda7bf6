-- ===== src/NtpServer/Console/Text.antt =====
-- What `diag_serve_` of ntp_server.cpp uses of `snprintf`: decimal and hexadecimal numbers, and lines
-- of fields with a space before each.
use esphome_gps_pps_ntp_serv.Base.{
  ℕ, zero, suc, ◌+◌, ◌-◌, ◌*◌, ◌/◌, ◌%◌, ◌≤◌, ◌<◌, ltb, List, [], ◌∷◌, ◌++◌, length, arith, ℤ,
  pos_part, neg_part, if◌then◌else◌, length-snoc,
}
use Prim.Native.Char.{code}
use Prim.Native.String.{String}

-- The bytes of an ASCII text.
abbrev pub codes : String → List ℕ
codes String.[] = []
codes (String.◌∷◌ c s) = code c ∷ codes s

-- The digits of a number in a base, the first one first, on fuel; ten and more are `a` and on.
abbrev pub digit : ℕ → ℕ
digit n = if ltb n 10 then b'0' + n else b'a' + (n - 10)

unfoldable pub digits : ℕ → ℕ → ℕ → List ℕ
digits base zero n = []
digits base (suc fuel) n =
    let more = digits base fuel (n / base) ++ digit (n % base) ∷ [] in
    if ltb n base then digit n ∷ [] else more

-- `%u`, `%d` and `%lld`: a 64-bit number has 20 digits at most.
unfoldable pub u_text : ℕ → List ℕ
u_text n = digits 10 20 n

unfoldable pub d_text : ℤ → List ℕ
d_text a = if ltb 0 (neg_part a) then b'-' ∷ u_text (neg_part a) else u_text (pos_part a)

-- `%x` of a 16-bit number, `%04x` of one, and `%02x` of a byte.
unfoldable pub x_text : ℕ → List ℕ
x_text n = digits 16 4 n

unfoldable pub x2_text : ℕ → List ℕ
x2_text n = digit (n / 16 % 16) ∷ digit (n % 16) ∷ []

unfoldable pub x4_text : ℕ → List ℕ
x4_text n = x2_text (n / 256 % 256) ++ x2_text (n % 256)

-- A line: its name, the fields with a space before each, and a newline.
abbrev pub spaced : List (List ℕ) → List ℕ
spaced [] = 10 ∷ []
spaced (f ∷ fs) = (b' ' ∷ f) ++ spaced fs

abbrev pub line_of : List ℕ → List (List ℕ) → List ℕ
line_of name fields = name ++ spaced fields

abbrev pub ten_pow : ℕ → ℕ
ten_pow zero = 1
ten_pow (suc k) = 10 * ten_pow k

-- A number below 10^k has k digits at most, and at least one.
digits-length :
    (fuel k n : ℕ)
    → 0 < k
    → n < ten_pow k
    → (length (digits 10 fuel n) ≤ k) × (0 < fuel → 0 < length (digits 10 fuel n))
unfolding digits
digits-length zero k n hk h = (omega arith, λ f. f)
digits-length (suc fuel) zero n hk h = elim hk [ ]
digits-length (suc fuel) (suc zero) n hk h = ground arith
digits-length (suc fuel) (suc (suc k)) n hk h =
    let rest = digits-length fuel (suc k) (n / 10) (omega arith) (omega (arith, h)) in
    ground (arith, rest.0, length-snoc (digits 10 fuel (n / 10)) (digit (n % 10)))

pub u_text-length :
    (n k : ℕ) → 0 < k → n < ten_pow k → (0 < length (u_text n)) × (length (u_text n) ≤ k)
unfolding u_text
u_text-length n k hk h = let d = digits-length 20 k n hk h in (d.1 (omega arith), d.0)

pub d_text-length :
    (a : ℤ) (k : ℕ)
    → 0 < k
    → neg_part a < ten_pow k
    → pos_part a < ten_pow (suc k)
    → length (d_text a) ≤ suc k
unfolding d_text
d_text-length a k hk hn hp =
    ground (arith, u_text-length (neg_part a) k, u_text-length (pos_part a) (suc k))
