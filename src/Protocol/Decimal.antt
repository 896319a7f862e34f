-- ===== src/Protocol/Decimal.antt =====
-- The decimal text of a number, which the command identifiers of protocol/types.py are.
use thchaos_backend.Prelude.{
  ap, sym, subst, ◌∙◌, ◌↔◌, ℕ, zero, suc, ◌+◌, ◌-◌, ◌*◌, ◌/◌, ◌%◌, ◌^◌, ◌≤◌, ◌<◌, Bool, true, false,
  List, [], ◌∷◌, ◌++◌, ◌≡◌, refl, arith, length, all, ltb, if◌then◌else◌, Bool-cases, inl, inr,
  ◌==◌, nat_eq, not,
}
use thchaos_backend.Protocol.Types.{is_digit, decimal, has_leading_zero, validate_command_id}

-- The codes of `str(n)`: `fuel` is one less than the number of digits that it has room for.
unfoldable pub print_digits : ℕ → ℕ → List ℕ
print_digits zero n = (b'0' + n) ∷ []
print_digits (suc fuel) n =
    let rest = print_digits fuel (n / 10) in
    if ltb n 10 then (b'0' + n) ∷ [] else rest ++ (b'0' + n % 10) ∷ []

-- `str(n)` of a number of 20 digits at most.
abbrev pub print_number : ℕ → List ℕ
print_number n = print_digits 19 n

decimal-append :
    (acc : ℕ) (xs : List ℕ) (c : ℕ) → decimal acc (xs ++ c ∷ []) ≡ decimal acc xs * 10 + (c - b'0')
unfolding decimal
decimal-append acc [] c = refl
decimal-append acc (x ∷ xs) c = decimal-append (acc * 10 + (x - b'0')) xs c

all-append :
    {A : Type 0} (p : A → Bool) (xs : List A) (x : A)
    → all p xs ≡ true
    → p x ≡ true
    → all p (xs ++ x ∷ []) ≡ true
all-append p [] x e f = ground arith
all-append p (y ∷ xs) x e f = ground (arith, all-append p xs x)

tenth : (k n : ℕ) → n < 10 ^ suc k → n / 10 < 10 ^ k
tenth k n h = omega arith

decimal-print_digits : (fuel n : ℕ) → n < 10 ^ suc fuel → decimal 0 (print_digits fuel n) ≡ n
unfolding decimal print_digits
decimal-print_digits zero n h = omega arith
decimal-print_digits (suc fuel) n h = elim (Bool-cases (ltb n 10)) [
  | inl one ↦ rw one (omega arith)
  | inr more ↦
      rw
        (
          more,
          decimal-append 0 (print_digits fuel (n / 10)) (b'0' + n % 10),
          decimal-print_digits fuel (n / 10) (tenth (suc fuel) n h),
        )
        (omega arith)
]

pub digits-print_digits :
    (fuel n : ℕ) → n < 10 ^ suc fuel → all is_digit (print_digits fuel n) ≡ true
unfolding print_digits
digits-print_digits zero n h = ground arith
digits-print_digits (suc fuel) n h = elim (Bool-cases (ltb n 10)) [
  | inl one ↦ rw one (ground (arith, one))
  | inr more ↦ rw more (
      all-append is_digit (print_digits fuel (n / 10)) (b'0' + n % 10)
        (digits-print_digits fuel (n / 10) (tenth (suc fuel) n h)) (ground arith))
]

-- The first code is that of another digit than 0.
abbrev leads : List ℕ → Bool
leads [] = false
leads (c ∷ cs) = not (c == b'0')

leads-append : (xs ys : List ℕ) → leads xs ≡ true → leads (xs ++ ys) ≡ true
leads-append [] ys e = absurd (cc)
leads-append (x ∷ xs) ys e = e

leads-print_digits : (fuel n : ℕ) → n < 10 ^ suc fuel → 1 ≤ n → leads (print_digits fuel n) ≡ true
unfolding print_digits
leads-print_digits zero n h p = ground arith
leads-print_digits (suc fuel) n h p = elim (Bool-cases (ltb n 10)) [
  | inl one ↦ rw one (ground (arith, one))
  | inr more ↦ rw more (
      leads-append (print_digits fuel (n / 10)) ((b'0' + n % 10) ∷ [])
        (leads-print_digits fuel (n / 10) (tenth (suc fuel) n h) (ground arith)))
]

leads-has_leading_zero :
    (xs : List ℕ) → leads xs ≡ true → (has_leading_zero xs ≡ false) × (ltb 0 (length xs) ≡ true)
leads-has_leading_zero [] e = absurd (cc)
leads-has_leading_zero (x ∷ []) e = (refl, ground arith)
leads-has_leading_zero (x ∷ y ∷ xs) e = (ground arith, ground arith)

pub validate_command_id-print_number :
    (n : ℕ)
    → 1 ≤ n
    → n ≤ 18446744073709551615
    → (validate_command_id (print_number n) ≡ true) × (decimal 0 (print_number n) ≡ n)
unfolding validate_command_id
validate_command_id-print_number n positive small =
    let room : n < 10 ^ 20 = omega arith in
    let value : decimal 0 (print_number n) ≡ n = decimal-print_digits 19 n room in
    let all_digits : all is_digit (print_number n) ≡ true = digits-print_digits 19 n room in
    let (lead, long) =
      leads-has_leading_zero (print_number n) (leads-print_digits 19 n room positive) in
    (rw (all_digits, lead, long, value) (ground arith), value)

-- One more place for digits changes nothing.
print_digits-fuel :
    (fuel n : ℕ) → n < 10 ^ suc fuel → print_digits (suc fuel) n ≡ print_digits fuel n
unfolding print_digits
print_digits-fuel zero n h = ground arith
print_digits-fuel (suc fuel) n h = elim (Bool-cases (ltb n 10)) [
  | inl one ↦ rw one refl
  | inr more ↦ rw (more, print_digits-fuel fuel (n / 10) (tenth (suc fuel) n h)) refl
]

decimal-le : (acc : ℕ) (cs : List ℕ) → acc ≤ decimal acc cs
unfolding decimal
decimal-le acc [] = omega arith
decimal-le acc (c ∷ cs) = omega (arith, decimal-le (acc * 10 + (c - b'0')) cs)

append-nil : (xs : List ℕ) → xs ++ [] ≡ xs
append-nil [] = refl
append-nil (x ∷ xs) = ap (λ ys. x ∷ ys) (append-nil xs)

append-cons : (xs : List ℕ) (c : ℕ) (cs : List ℕ) → (xs ++ c ∷ []) ++ cs ≡ xs ++ c ∷ cs
append-cons [] c cs = refl
append-cons (x ∷ xs) c cs = ap (λ ys. x ∷ ys) (append-cons xs c cs)

-- A digit put after a number.
print_digits-digit :
    (fuel acc c : ℕ)
    → 1 ≤ acc
    → is_digit c ≡ true
    → acc * 10 + (c - b'0') < 10 ^ suc fuel
    → print_digits fuel (acc * 10 + (c - b'0')) ≡ print_digits fuel acc ++ c ∷ []
unfolding print_digits
print_digits-digit zero acc c p d h = absurd (ground arith)
print_digits-digit (suc fuel) acc c p d h =
    let long : ltb (acc * 10 + (c - b'0')) 10 ≡ false = ground arith in
    let front : (acc * 10 + (c - b'0')) / 10 ≡ acc = ground arith in
    let last : b'0' + (acc * 10 + (c - b'0')) % 10 ≡ c = ground arith in
    let same = print_digits-fuel fuel acc (omega arith) in
    rw (long, front, last) (ap (λ xs. xs ++ c ∷ []) (sym same))

print_digits-decimal :
    (fuel acc : ℕ) (cs : List ℕ)
    → 1 ≤ acc
    → all is_digit cs ≡ true
    → decimal acc cs < 10 ^ suc fuel
    → print_digits fuel (decimal acc cs) ≡ print_digits fuel acc ++ cs
unfolding decimal
print_digits-decimal fuel acc [] p d h = sym (append-nil (print_digits fuel acc))
print_digits-decimal fuel acc (c ∷ cs) p d h =
    let next : ℕ = acc * 10 + (c - b'0') in
    print_digits-decimal fuel next cs (omega arith) (ground arith) h
    ∙ ap (λ xs. xs ++ cs)
        (print_digits-digit fuel acc c p (ground arith) (omega (arith, decimal-le next cs)))
    ∙ append-cons (print_digits fuel acc) c cs

-- The first digit.
print_digits-lead :
    (c : ℕ) (cs : List ℕ)
    → all is_digit (c ∷ cs) ≡ true
    → (c == b'0') ≡ false
    → decimal 0 (c ∷ cs) < 10 ^ 20
    → print_number (decimal 0 (c ∷ cs)) ≡ c ∷ cs
unfolding decimal print_digits
print_digits-lead c cs d lead h =
    let first : decimal 0 (c ∷ cs) ≡ decimal (c - b'0') cs = ap (λ a. decimal a cs) (omega arith) in
    let small : ltb (c - b'0') 10 ≡ true = ground arith in
    let code : b'0' + (c - b'0') ≡ c = ground arith in
    ap print_number first
    ∙ print_digits-decimal 19 (c - b'0') cs (ground arith) (ground arith)
        (subst (λ a. a < 10 ^ 20) first h)
    ∙ rw (small, code) refl

lead_one : (c : ℕ) → validate_command_id (c ∷ []) ≡ true → (c == b'0') ≡ false
unfolding validate_command_id decimal
lead_one c e = ground arith

-- A text is accepted as a command identifier exactly where it is the decimal text, as `str` writes
-- it, of a number from 1 to 2^64 - 1.
pub validate_command_id_iff :
    (value : List ℕ)
    → (validate_command_id value ≡ true)
      ↔ ((n : ℕ) × (1 ≤ n) × (n ≤ 18446744073709551615) × (value ≡ print_number n))
unfolding validate_command_id
validate_command_id_iff value = (
  λ e. (decimal 0 value, ground arith, ground arith, sym (printed value e)),
  λ (n, positive, small, same).
      subst (λ v. validate_command_id v ≡ true) (sym same)
        (validate_command_id-print_number n positive small).0,
)
  where
    printed :
        (value : List ℕ) → validate_command_id value ≡ true → print_number (decimal 0 value) ≡ value
    printed [] e = absurd (ground arith)
    printed (c ∷ []) e = print_digits-lead c [] (ground arith) (lead_one c e) (ground arith)
    printed (c ∷ d ∷ cs) e =
        print_digits-lead c (d ∷ cs) (ground arith) (ground arith) (ground arith)
