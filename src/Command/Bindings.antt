-- ===== src/Command/Bindings.antt =====
-- How the values of a program should reach SQLite, described without the overloads of command.cpp.
use vsqlite.Base.{
  ℕ, zero, suc, ◌+◌, ◌-◌, ◌*◌, ◌/◌, ◌%◌, ◌<◌, ◌≤◌, ◌≡◌, ◌⊎◌, inl, inr, refl, arith, ℤ, pos, negsuc,
  true, ltb, if◌then◌else◌, ap, ◌∙◌, sym, subst, length, int_of_size, int_of_size_small, dec_lt,
  cast, low_bits, Width, InRange,
}
use native.Mathlib.Omega.{div_fact}
use native.Mathlib.Nat.{mul-pos, zero-div}
use vsqlite.Sqlite.{Binding}
use vsqlite.Command.Values.{Value, generic, direct, to_micros, scale, div_trunc}

-- What is left of a number modulo 2^64.
abbrev pub residue : ℤ → ℕ
residue (pos n) = n % 18446744073709551616
residue (negsuc n) = 18446744073709551615 - n % 18446744073709551616

-- The number of 64 signed bits that another is cut to.
abbrev pub IsCut : ℤ → ℤ → Type 0
IsCut n m = InRange Width.w64 true m × (residue m ≡ residue n)

-- So many whole microseconds are in a count of periods of num/den seconds, without its sign: what
-- remains is less than one. No ratio of C++ has the denominator 0.
abbrev pub Holds : ℕ → ℕ → ℕ → ℕ → Type 0
Holds n num den m = (rest : ℕ) × (m * den + rest ≡ n * (num * 1000000)) × ((rest < den) ⊎ (den ≡ 0))

-- Microseconds, rounded towards zero.
abbrev pub AreMicros : ℤ → ℕ → ℕ → ℤ → Type 0
AreMicros (pos n) num den (pos m) = Holds n num den m
AreMicros (negsuc n) num den (pos m) = (m ≡ 0) × Holds (suc n) num den 0
AreMicros (negsuc n) num den (negsuc m) = Holds (suc n) num den (suc m)
AreMicros (pos n) num den (negsuc m) = ⊥

-- The size that is passed with a text, unless the text has 2^31 bytes or more.
abbrev pub IsSize : ℕ → ℤ → Type 0
IsSize len n = (n ≡ pos len) ⊎ (2147483648 ≤ len)

-- What a value comes to where its type alone decides.
abbrev pub Converts : Value → Binding → Type 0
Converts Value.nil b = b ≡ Binding.null
Converts (Value.int n) b = b ≡ Binding.int64 n
Converts (Value.int64 n) b = (m : ℤ) × (b ≡ Binding.int64 m) × IsCut n m
Converts (Value.real d) b = b ≡ Binding.double d
Converts (Value.text t) b = (n : ℤ) × (b ≡ Binding.text t n) × IsSize (length t) n
Converts (Value.bytes t) b = (n : ℤ) × (b ≡ Binding.blob t n) × IsSize (length t) n
Converts Value.absent b = b ≡ Binding.null
Converts (Value.present v) b = Converts v b
Converts (Value.duration n num den) b = (m : ℤ) × (b ≡ Binding.int64 m) × AreMicros n num den m
Converts (Value.time_point n num den) b = (m : ℤ) × (b ≡ Binding.int64 m) × AreMicros n num den m
Converts (Value.enumerator n) b = (m : ℤ) × (b ≡ Binding.int64 m) × IsCut n m

-- The same where an int by itself stays an int.
abbrev pub Carries : Value → Binding → Type 0
Carries (Value.int n) b = b ≡ Binding.int n
Carries v b = Converts v b

cast-IsCut : (n : ℤ) → IsCut n (cast Width.w64 true n)
unfolding cast low_bits
cast-IsCut (pos n) = ground arith
cast-IsCut (negsuc n) = ground arith

int_of_size-IsSize : (len : ℕ) → IsSize len (int_of_size len)
int_of_size-IsSize len = elim (dec_lt len 2147483648) [
  | yes h ↦ inl (int_of_size_small len h)
  | no h ↦ inr (omega arith)
]

quotient-Holds : (n num den : ℕ) → Holds n num den (n * (num * 1000000) / den)
quotient-Holds n num zero = (n * (num * 1000000), omega arith, inr refl)
quotient-Holds n num (suc d) =
    let x = n * (num * 1000000) in (x % suc d, grind (arith, div_fact x d), inl (omega arith))

-- A negative number that is a quotient, without its sign.
abbrev below_zero : ℕ → ℤ
below_zero q = if ltb 0 q then negsuc (q - 1) else pos 0

div_trunc-scale_neg :
    (n k den : ℕ) → div_trunc (scale (negsuc n) k) den ≡ below_zero (suc n * k / den)
unfolding div_trunc scale
div_trunc-scale_neg n zero den =
    let none_left : suc n * zero ≡ zero = omega arith in rw none_left (rw (zero-div den) refl)
div_trunc-scale_neg n (suc k) den =
    let whole : suc (suc n * suc k - 1) ≡ suc n * suc k =
      let positive : 0 < suc n * suc k = mul-pos (omega arith) (omega arith) in
      ground (arith, positive) in
    let scaled : scale (negsuc n) (suc k) ≡ negsuc (suc n * suc k - 1) = ground arith in
    ap (λ x. div_trunc x den) scaled ∙ ap (λ x. below_zero (x / den)) whole

below_zero-AreMicros :
    (n num den q : ℕ) → Holds (suc n) num den q → AreMicros (negsuc n) num den (below_zero q)
below_zero-AreMicros n num den zero h = (refl, h)
below_zero-AreMicros n num den (suc q) h =
    let below : below_zero (suc q) ≡ negsuc q = ground arith in
    subst (AreMicros (negsuc n) num den) (sym below) h

to_micros-AreMicros : (n : ℤ) (num den : ℕ) → AreMicros n num den (to_micros n num den)
unfolding to_micros scale div_trunc
to_micros-AreMicros (pos n) num den = quotient-Holds n num den
to_micros-AreMicros (negsuc n) num den =
    subst (AreMicros (negsuc n) num den) (sym (div_trunc-scale_neg n (num * 1000000) den)) (
      below_zero-AreMicros n num den (suc n * (num * 1000000) / den)
        (quotient-Holds (suc n) num den))

generic-Converts : (v : Value) → Converts v (generic v)
unfolding generic
generic-Converts Value.nil = refl
generic-Converts (Value.int n) = refl
generic-Converts (Value.int64 n) = (cast Width.w64 true n, refl, cast-IsCut n)
generic-Converts (Value.real d) = refl
generic-Converts (Value.text t) = (int_of_size (length t), refl, int_of_size-IsSize (length t))
generic-Converts (Value.bytes t) = (int_of_size (length t), refl, int_of_size-IsSize (length t))
generic-Converts Value.absent = refl
generic-Converts (Value.present v) = generic-Converts v
generic-Converts (Value.duration n num den) =
    (to_micros n num den, refl, to_micros-AreMicros n num den)
generic-Converts (Value.time_point n num den) =
    (to_micros n num den, refl, to_micros-AreMicros n num den)
generic-Converts (Value.enumerator n) = (cast Width.w64 true n, refl, cast-IsCut n)

pub direct-Carries : (v : Value) → Carries v (direct v)
unfolding direct
direct-Carries (Value.int n) = refl
direct-Carries Value.nil = generic-Converts Value.nil
direct-Carries (Value.int64 n) = generic-Converts (Value.int64 n)
direct-Carries (Value.real d) = generic-Converts (Value.real d)
direct-Carries (Value.text t) = generic-Converts (Value.text t)
direct-Carries (Value.bytes t) = generic-Converts (Value.bytes t)
direct-Carries Value.absent = generic-Converts Value.absent
direct-Carries (Value.present v) = generic-Converts v
direct-Carries (Value.duration n num den) = generic-Converts (Value.duration n num den)
direct-Carries (Value.time_point n num den) = generic-Converts (Value.time_point n num den)
direct-Carries (Value.enumerator n) = generic-Converts (Value.enumerator n)
