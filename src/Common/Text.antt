-- ===== src/Common/Text.antt =====
-- A `std::string` is the list of its bytes. Literals, comparison and `std::to_string`.
use Prim.Native.Nat.{ℕ, zero, suc, ◌+◌, ◌-◌, ◌*◌, ◌/◌, ◌%◌, ◌<◌}
use Prim.Native.Char.{code}
use Prim.Native.String.{String}
use mathlib.Core.Path.{◌≡◌, refl, ap, ◌∙◌, subst}
use mathlib.Core.Bool.{Bool, true, false, ◌&&◌, ◌||◌}
use mathlib.Core.List.{List, [], ◌∷◌}
use mathlib.Core.Logic.{◌≢◌, inl, inr}
use native.Mathlib.Omega.{arith}
use torrent_builder.Common.Lists.{All}
use torrent_builder.Common.Tests.{ltb, leb, ◌==◌, if◌then◌else◌, Bool-cases, ltb→le, ltb→lt}

abbrev pub Bytes : Type 0
Bytes = List ℕ

-- The bytes of an ASCII literal.
abbrev pub codes : String → Bytes
codes String.[] = []
codes (String.◌∷◌ c s) = code c ∷ codes s

-- The byte `c` does not occur.
abbrev pub Lacks : ℕ → Bytes → Type 0
Lacks c = All (λ d. d ≢ c)

-- `a == b` on strings.
abbrev pub bytes_eq : Bytes → Bytes → Bool
bytes_eq [] [] = true
bytes_eq [] (d ∷ t) = false
bytes_eq (c ∷ s) [] = false
bytes_eq (c ∷ s) (d ∷ t) = (c == d) && bytes_eq s t

pub bytes_eq_refl : (s : Bytes) → bytes_eq s s ≡ true
bytes_eq_refl [] = refl
bytes_eq_refl (c ∷ s) = ground (arith, bytes_eq_refl s)

pub bytes_eq_sound : (s t : Bytes) → bytes_eq s t ≡ true → s ≡ t
bytes_eq_sound [] [] h = refl
bytes_eq_sound [] (d ∷ t) h = cc
bytes_eq_sound (c ∷ s) [] h = cc
bytes_eq_sound (c ∷ s) (d ∷ t) h = ground (arith, bytes_eq_sound s t)

-- Writes the decimal digits of `n` in front of `out`; `n + 1` rounds are enough, since `n / 10 < n`.
digits : ℕ → ℕ → Bytes → Bytes
digits zero n out = out
digits (suc fuel) n out =
    let more = digits fuel (n / 10) ((b'0' + n % 10) ∷ out) in
    if ltb n 10 then (b'0' + n) ∷ out else more

-- `std::to_string` of a non-negative integer.
unfoldable pub to_string : ℕ → Bytes
unfolding digits
to_string n = digits (n + 1) n []

-- `std::isdigit`.
abbrev pub isdigit : ℕ → Bool
isdigit c = leb b'0' c && leb c b'9'

-- The number that digits stand for, behind the digits that gave `acc`.
abbrev pub decimal : Bytes → ℕ → ℕ
decimal [] acc = acc
decimal (c ∷ s) acc = decimal s (acc * 10 + (c - b'0'))

last_digit : (n : ℕ) → n / 10 * 10 + (b'0' + n % 10 - b'0') ≡ n
last_digit n = omega arith

digits-decimal :
    (fuel n : ℕ) (out : Bytes) → n < fuel → decimal (digits fuel n out) 0 ≡ decimal out n
unfolding digits
digits-decimal zero n out h = absurd (omega (arith, h))
digits-decimal (suc fuel) n out h = elim (Bool-cases (ltb n 10)) [
  | inl small ↦ rw small (ap (decimal out) (omega arith))
  | inr big ↦ rw big (
      digits-decimal fuel (n / 10) ((b'0' + n % 10) ∷ out) (omega (arith, ltb→le _ _ big, h))
      ∙ ap (decimal out) (last_digit n))
]

pub decimal-to_string : (n : ℕ) → decimal (to_string n) 0 ≡ n
unfolding to_string
decimal-to_string n = digits-decimal (n + 1) n [] (omega arith)

pub isdigit_digit : (d : ℕ) → d < 10 → isdigit (b'0' + d) ≡ true
isdigit_digit d h = ground arith

digits-All :
    (fuel n : ℕ) (out : Bytes)
    → All (λ c. isdigit c ≡ true) out
    → All (λ c. isdigit c ≡ true) (digits fuel n out)
unfolding digits
digits-All zero n out h = h
digits-All (suc fuel) n out h = elim (Bool-cases (ltb n 10)) [
  | inl small ↦ rw small (isdigit_digit n (ltb→lt _ _ small), h)
  | inr big ↦
      rw big
        (digits-All fuel (n / 10) ((b'0' + n % 10) ∷ out) (isdigit_digit (n % 10) (omega arith), h))
]

pub to_string-All : (n : ℕ) → All (λ c. isdigit c ≡ true) (to_string n)
unfolding to_string
to_string-All n = digits-All (n + 1) n [] tt

digits_nonempty : (fuel n : ℕ) (out : Bytes) → out ≢ [] → digits fuel n out ≢ []
unfolding digits
digits_nonempty zero n out h = h
digits_nonempty (suc fuel) n out h = elim (Bool-cases (ltb n 10)) [
  | inl small ↦ rw small (λ e. cc e)
  | inr big ↦ rw big (digits_nonempty fuel (n / 10) ((b'0' + n % 10) ∷ out) (λ e. cc e))
]

digits-suc_nonempty : (fuel n : ℕ) (out : Bytes) → digits (suc fuel) n out ≢ []
unfolding digits
digits-suc_nonempty fuel n out = elim (Bool-cases (ltb n 10)) [
  | inl small ↦ rw small (λ e. cc e)
  | inr big ↦ rw big (digits_nonempty fuel (n / 10) ((b'0' + n % 10) ∷ out) (λ e. cc e))
]

pub to_string_nonempty : (n : ℕ) → to_string n ≢ []
unfolding to_string
to_string_nonempty n =
    subst (λ f. digits f n [] ≢ []) {x = suc n} (omega arith) (digits-suc_nonempty n n [])

-- `std::isspace`, in the "C" locale.
abbrev pub isspace : ℕ → Bool
isspace c = c == b' ' || (leb 9 c && leb c 13)
