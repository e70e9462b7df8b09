-- ===== src/Alu/Division.antt =====
-- Signed division and remainder.
use native.Mathlib.Nat.{div-add-mod, mod-le, mod-lt, div-le_self, mul-add, add-mul, mul_left_comm}
use dromajo.Prelude.{
  ℕ, zero, suc, ◌+◌, ◌-◌, ◌*◌, ◌/◌, ◌%◌, ◌^◌, ◌≤◌, ◌<◌, ◌≡◌, ◌≢◌, ◌⊎◌, inl, inr, refl, ap, ◌∙◌, sym,
  Bool, true, false, xor, ◌==◌, leb, arith, Bool-cases,
}
use dromajo.Prelude.Bits.{test_bit, test_bit-zero, test_bit-shr}
use dromajo.Alu.{negative, magnitude, signed, quotient, remainder, div64, rem64}

abbrev wrap : ℕ
wrap = 2 ^ 64

negated : (m : ℕ) → m ≤ wrap → (k : ℕ) × (signed true m + m ≡ wrap * k)
unfolding signed
negated zero le = (0, omega arith)
negated (suc m) le = (1, omega arith)

spread : (b x q t : ℕ) → x + q ≡ t → b * x + b * q ≡ b * t
spread b x q t e = ground (arith, mul-add b x q, ap (λ (n : ℕ). b * n) e)

across : (b c x t : ℕ) → b + c ≡ t → b * x + c * x ≡ t * x
across b c x t e = ground (arith, add-mul b c x, ap (λ (n : ℕ). n * x) e)

-- The dividend alone is negative, the divisor alone is, or both are.
dividend_negative :
    (A B q r x y k l : ℕ)
    → x + q ≡ wrap * k
    → y + r ≡ wrap * l
    → A ≡ B * q + r
    → 0 < A
    → A ≤ wrap
    → (B * x + y) % wrap ≡ wrap - A
dividend_negative A B q r x y k l e f g pos le =
    omega (arith, spread B x q (wrap * k) e, mul_left_comm B wrap k)

divisor_negative :
    (A B b q r x k : ℕ)
    → b + B ≡ wrap
    → x + q ≡ wrap * k
    → A ≡ B * q + r
    → A < wrap
    → (b * x + r) % wrap ≡ A
divisor_negative A B b q r x k c e g lt =
    omega (arith, across b B x wrap c, spread B x q (wrap * k) e, mul_left_comm B wrap k)

both_negative :
    (A B b q r y l : ℕ)
    → b + B ≡ wrap
    → y + r ≡ wrap * l
    → A ≡ B * q + r
    → 0 < A
    → A ≤ wrap
    → (b * q + y) % wrap ≡ wrap - A
both_negative A B b q r y l c f g pos le = omega (arith, across b B q wrap c)

magnitude-negative : (a : ℕ) → negative a ≡ true → magnitude a ≡ wrap - a
unfolding magnitude
magnitude-negative a h = ground (arith, h)

magnitude-positive : (a : ℕ) → negative a ≡ false → magnitude a ≡ a
unfolding magnitude
magnitude-positive a h = ground (arith, h)

magnitude-le : (a : ℕ) → a < wrap → magnitude a ≤ wrap
unfolding magnitude
magnitude-le a lt = ground arith

signed_positive : (m : ℕ) → m < wrap → signed false m ≡ m
unfolding signed
signed_positive m lt = omega arith

quotient_signs :
    (a b : ℕ) (x y : Bool)
    → negative a ≡ x
    → negative b ≡ y
    → quotient a b ≡ signed (xor x y) (magnitude a / magnitude b)
unfolding quotient
quotient_signs a b x y e f = rw (e, f) refl

remainder_sign :
    (a b : ℕ) (x : Bool) → negative a ≡ x → remainder a b ≡ signed x (magnitude a % magnitude b)
unfolding remainder
remainder_sign a b x e = rw e refl

same_value : (b q q' r r' : ℕ) → q ≡ q' → r ≡ r' → (b * q + r) % wrap ≡ (b * q' + r') % wrap
same_value b q q' r r' e f = rw (e, f) refl

module _ (a b : ℕ) (wa : a < wrap) (wb : b < wrap) where
  divided : magnitude a ≡ magnitude b * (magnitude a / magnitude b) + magnitude a % magnitude b
  divided = sym (div-add-mod (magnitude a) (magnitude b))

  small_quotient : magnitude a / magnitude b ≤ magnitude a
  small_quotient = div-le_self (magnitude a) (magnitude b)

  small_remainder : magnitude a % magnitude b ≤ magnitude a
  small_remainder = mod-le (magnitude a) (magnitude b)

  undone_nn :
      negative a ≡ true
      → negative b ≡ true
      → magnitude a / magnitude b < wrap
      → (b * quotient a b + remainder a b) % wrap ≡ a
  unfolding xor
  undone_nn na nb small =
      let A = magnitude-negative a na in
      let B = magnitude-negative b nb in
      let n = negated (magnitude a % magnitude b) (omega (arith, small_remainder, A)) in
      let back : wrap - magnitude a ≡ a = omega (arith, A) in
      same_value b (quotient a b) (magnitude a / magnitude b) (remainder a b)
        (signed true (magnitude a % magnitude b))
        (quotient_signs a b true true na nb ∙ signed_positive (magnitude a / magnitude b) small)
        (remainder_sign a b true na)
      ∙ both_negative (magnitude a) (magnitude b) b (magnitude a / magnitude b)
          (magnitude a % magnitude b) (signed true (magnitude a % magnitude b)) n.0
          (omega (arith, B)) n.1 divided (omega (arith, A)) (omega (arith, A))
      ∙ back

  undone_np : negative a ≡ true → negative b ≡ false → (b * quotient a b + remainder a b) % wrap ≡ a
  unfolding xor
  undone_np na pb =
      let A = magnitude-negative a na in
      let B = magnitude-positive b pb in
      let n = negated (magnitude a % magnitude b) (omega (arith, small_remainder, A)) in
      let k = negated (magnitude a / magnitude b) (omega (arith, small_quotient, A)) in
      let back : wrap - magnitude a ≡ a = omega (arith, A) in
      same_value b (quotient a b) (signed true (magnitude a / magnitude b)) (remainder a b)
        (signed true (magnitude a % magnitude b)) (quotient_signs a b true false na pb)
        (remainder_sign a b true na)
      ∙ ap
          (λ (c : ℕ).
            (c * signed true (magnitude a / magnitude b) + signed true (magnitude a % magnitude b))
            % wrap)
          (sym B)
      ∙ dividend_negative (magnitude a) (magnitude b) (magnitude a / magnitude b)
          (magnitude a % magnitude b) (signed true (magnitude a / magnitude b))
          (signed true (magnitude a % magnitude b)) k.0 n.0 k.1 n.1 divided (omega (arith, A))
          (omega (arith, A))
      ∙ back

  undone_pn : negative a ≡ false → negative b ≡ true → (b * quotient a b + remainder a b) % wrap ≡ a
  unfolding xor
  undone_pn pa nb =
      let A = magnitude-positive a pa in
      let B = magnitude-negative b nb in
      let k = negated (magnitude a / magnitude b) (omega (arith, small_quotient, A)) in
      same_value b (quotient a b) (signed true (magnitude a / magnitude b)) (remainder a b)
        (magnitude a % magnitude b) (quotient_signs a b false true pa nb)
        (remainder_sign a b false pa
          ∙ signed_positive (magnitude a % magnitude b) (omega (arith, small_remainder, A)))
      ∙ divisor_negative (magnitude a) (magnitude b) b (magnitude a / magnitude b)
          (magnitude a % magnitude b) (signed true (magnitude a / magnitude b)) k.0
          (omega (arith, B)) k.1 divided (omega (arith, A))
      ∙ A

  undone_pp :
      negative a ≡ false → negative b ≡ false → (b * quotient a b + remainder a b) % wrap ≡ a
  unfolding xor
  undone_pp pa pb =
      let A = magnitude-positive a pa in
      let B = magnitude-positive b pb in
      same_value b (quotient a b) (magnitude a / magnitude b) (remainder a b)
        (magnitude a % magnitude b)
        (quotient_signs a b false false pa pb
          ∙ signed_positive (magnitude a / magnitude b) (omega (arith, small_quotient, A)))
        (remainder_sign a b false pa
          ∙ signed_positive (magnitude a % magnitude b) (omega (arith, small_remainder, A)))
      ∙ ap (λ (c : ℕ). (c * (magnitude a / magnitude b) + magnitude a % magnitude b) % wrap) (sym B)
      ∙ ap (λ (c : ℕ). c % wrap) (sym divided)
      ∙ omega (arith, A)

negative_nonzero : (a : ℕ) → negative a ≡ true → 0 < a
negative_nonzero zero h = absurd (ground (arith, h, test_bit-zero 63))
negative_nonzero (suc a) h = omega arith

undone : (a b : ℕ) → a < wrap → b < wrap → (b * quotient a b + remainder a b) % wrap ≡ a
undone a b wa wb = elim (Bool-cases (negative a)) [
  | inl na ↦ elim (Bool-cases (negative b)) [
    | inl nb ↦
        undone_nn a b wa wb na nb
          (omega (arith, small_quotient a b wa wb, magnitude-negative a na, negative_nonzero a na))
    | inr pb ↦ undone_np a b wa wb na pb
  ]
  | inr pa ↦ elim (Bool-cases (negative b)) [
    | inl nb ↦ undone_pn a b wa wb pa nb
    | inr pb ↦ undone_pp a b wa wb pa pb
  ]
]

overflow : (a b : ℕ) → a ≡ 2 ^ 63 → b ≡ 2 ^ 64 - 1 → (b * a + 0) % 2 ^ 64 ≡ a
overflow a b e f = rw (e, f) refl

negative-leb : (x : ℕ) → x < wrap → negative x ≡ leb (2 ^ 63) x
unfolding test_bit
negative-leb x lt = ground (arith, test_bit-shr 63 x 0)

magnitude-half : (x : ℕ) → x < wrap → magnitude x ≤ 2 ^ 63
unfolding magnitude
magnitude-half x lt = ground (arith, negative-leb x lt)

magnitude-pos : (x : ℕ) → x < wrap → x ≢ 0 → 0 < magnitude x
unfolding magnitude
magnitude-pos x lt ne = ground (arith, negative-leb x lt)

signed-lt : (neg : Bool) (r : ℕ) → signed neg r < wrap
unfolding signed
signed-lt neg r = ground arith

magnitude-signed : (neg : Bool) (r : ℕ) → r < 2 ^ 63 → magnitude (signed neg r) ≡ r
unfolding magnitude signed
magnitude-signed neg r lt = ground (arith, negative-leb (signed neg r) (signed-lt neg r))

remainder-small : (a b : ℕ) → b < wrap → b ≢ 0 → magnitude (remainder a b) < magnitude b
remainder-small a b wb ne =
    let below = mod-lt (magnitude a) (magnitude-pos b wb ne) in
    omega (
      arith,
      magnitude-half b wb,
      below,
      ap magnitude (remainder_sign a b (negative a) refl),
      magnitude-signed (negative a) (magnitude a % magnitude b)
          (omega (arith, magnitude-half b wb, below)),
    )

none_left : (b : ℕ) → b < wrap → b ≢ 0 → magnitude 0 < magnitude b
none_left b wb ne = omega (arith, magnitude-pos b wb ne, magnitude-positive 0 (test_bit-zero 63))

-- For all words, the quotient times the divisor plus the remainder is the dividend, modulo 2 ^ 64: also
-- for a divisor of zero and for the one quotient that overflows. The divisor is zero or
-- the remainder is smaller than it in absolute value.
pub div64-rem64 :
    (a b : ℕ)
    → a < 2 ^ 64
    → b < 2 ^ 64
    → ((b * div64 a b + rem64 a b) % 2 ^ 64 ≡ a) × ((b ≡ 0) ⊎ (magnitude (rem64 a b) < magnitude b))
unfolding div64 rem64
div64-rem64 a b wa wb = (
  ground (arith, undone a b wa wb, overflow a b),
  elim (Bool-cases (b == 0)) [
    | inl e ↦ inl (ground arith)
    | inr e ↦
        (let ne : b ≢ 0 = λ z. ground arith in
          inr (ground (arith, remainder-small a b wb ne, none_left b wb ne)))
  ],
)
