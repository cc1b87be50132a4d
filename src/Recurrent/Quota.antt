-- ===== src/Recurrent/Quota.antt =====
-- How `HotSetPolicy::Quota` of src/recurrent_planner.cpp rations windows over the ordinals of a period.
use recurlocal.Base.{
  ℕ, zero, suc, ◌+◌, ◌-◌, ◌*◌, ◌/◌, ◌%◌, ◌≤◌, ◌<◌, ◌≡◌, refl, Bool, true, false, not, ◌&&◌, ◌==◌,
  ltb, if◌then◌else◌, arith, mul64, ◌⊎◌, inl, inr, lt_cases, subst, sym, ap, ◌∙◌, ◌^◌,
}
use native.Mathlib.Nat.{
  mul-add-mod_self_right, mod-eq_of_lt, mod-eq-sub-mod, mul-le-mul, mul-le-mul_right,
}

-- The period: the declared number of layers, or the windows that the hot set counts.
abbrev pub quota_period : ℕ → ℕ → ℕ → ℕ
quota_period ordinal_period hot window =
    if ordinal_period == 0 && not (window == 0)
    then hot / window + (if hot % window == 0 then 0 else 1)
    else ordinal_period

-- Whether ordinal i of the period gets its window.
unfoldable pub admits : ℕ → ℕ → ℕ → Bool
admits period admitted i = ltb 0 admitted && ltb (mul64 i admitted % period) admitted

-- How many of the first n ordinals are admitted.
unfoldable pub admitted_among : ℕ → ℕ → ℕ → ℕ
admitted_among period admitted zero = 0
admitted_among period admitted (suc n) =
    let rest = admitted_among period admitted n in
    if admits period admitted n then suc rest else rest

abbrev Steps : ℕ → ℕ → ℕ → ℕ → Type 0
Steps p a r x = ((x ≡ r + a) × (r + a < p)) ⊎ ((x + p ≡ r + a) × (p ≤ r + a))

-- Stepping by a ≤ p adds one to the quotient exactly when the remainder falls below a.
step_mod : (p a q r : ℕ) → a ≤ p → r < p → Steps p a r ((q * p + (r + a)) % p)
step_mod p a q r h k = elim (lt_cases (r + a) p) [
  | inl below ↦ inl (mul-add-mod_self_right q p (r + a) ∙ mod-eq_of_lt below, below)
  | inr above ↦
      let cut : (r + a) % p ≡ r + a - p =
        mod-eq-sub-mod above ∙ mod-eq_of_lt {n = r + a - p} {m = p} (omega arith) in
      inr (ground (arith, mul-add-mod_self_right q p (r + a), cut), above)
]

-- The product of an ordinal and the admitted count does not wrap.
product_fits : (p a i : ℕ) → p ≤ 2 ^ 31 → a ≤ p → i < p → mul64 i a ≡ i * a
product_fits p a i h k l = mod-eq_of_lt (
    ground
      (arith, mul-le-mul {n₁ = i} {m₁ = a} {n₂ = 2 ^ 31} {m₂ = 2 ^ 31} (omega arith) (omega arith)))

-- After n + 1 ordinals the count c and a remainder r below p satisfy n * a + p = c * p + r.
abbrev Spread : ℕ → ℕ → ℕ → ℕ → Type 0
Spread p a n c = (r : ℕ) × (r < p) × (0 < c) × (n * a + p ≡ c * p + r)

Spread-step :
    (p a n c x : ℕ) (b : Bool)
    → a ≤ p
    → Spread p a n c
    → x ≡ suc n * a
    → b ≡ ltb (x % p) a
    → Spread p a (suc n) (if b then suc c else c)
Spread-step p a n zero x b h s e f = ground arith
Spread-step p a n (suc c) x b h (r, small, positive, total) e f =
    let split : x ≡ c * p + (r + a) = omega (arith, e, total) in
    elim (step_mod p a c r h small) [
      | inl below ↦
          let at : x % p ≡ r + a = ap (λ y. y % p) split ∙ below.0 in
          let test : ltb (x % p) a ≡ false = ground (arith, at) in
          subst (λ t. Spread p a (suc n) (if t then suc (suc c) else suc c)) (sym (f ∙ test))
            (r + a, below.1, positive, omega (arith, total))
      | inr above ↦
          let at : x % p + p ≡ r + a = ap (λ y. y % p + p) split ∙ above.0 in
          let test : ltb (x % p) a ≡ true = ground (arith, at) in
          subst (λ t. Spread p a (suc n) (if t then suc (suc c) else suc c)) (sym (f ∙ test))
            (r + a - p, omega arith, omega arith, omega (arith, total, above.1))
    ]

admits_lem : (p a i : ℕ) → p ≤ 2 ^ 31 → 0 < a → a ≤ p → i < p → admits p a i ≡ ltb (i * a % p) a
unfolding admits
admits_lem p a i h k l m = ground (arith, product_fits p a i h l m)

admitted_among-Spread :
    (p a n : ℕ) → p ≤ 2 ^ 31 → 0 < a → a ≤ p → n < p → Spread p a n (admitted_among p a (suc n))
unfolding admitted_among
admitted_among-Spread p a zero h k l m =
    let test : admits p a 0 ≡ true = admits_lem p a 0 h k l m ∙ ground arith in
    subst (λ t. Spread p a 0 (if t then 1 else 0)) (sym test) (0, m, omega arith, omega arith)
admitted_among-Spread p a (suc n) h k l m =
    Spread-step p a n (admitted_among p a (suc n)) (suc n * a) (admits p a (suc n)) l
      (admitted_among-Spread p a n h k l (omega arith)) refl (admits_lem p a (suc n) h k l m)

admitted_among-none : (p n : ℕ) → admitted_among p 0 n ≡ 0
unfolding admitted_among admits
admitted_among-none p zero = refl
admitted_among-none p (suc n) = admitted_among-none p n

Spread-period : (a n c : ℕ) → 0 < a → a ≤ suc n → Spread (suc n) a n c → c ≡ a
Spread-period a n c h k (r, small, positive, total) = elim (lt_cases c a) [
  | inl below ↦ omega (arith, total, mul-le-mul_right {m = suc c} {n = a} (suc n) below)
  | inr above ↦ elim (lt_cases a c) [
    | inl more ↦ omega (arith, total, mul-le-mul_right {m = suc a} {n = c} (suc n) more)
    | inr same ↦ omega arith
  ]
]

-- Of a period of at most 2 ^ 31 ordinals exactly the admitted number get a window.
pub admitted_among-period : (p a : ℕ) → p ≤ 2 ^ 31 → a ≤ p → admitted_among p a p ≡ a
admitted_among-period p zero h k = admitted_among-none p p
admitted_among-period zero (suc a) h k = omega arith
admitted_among-period (suc n) (suc a) h k =
    Spread-period (suc a) n (admitted_among (suc n) (suc a) (suc n)) (omega arith) k
      (admitted_among-Spread (suc n) (suc a) n h (omega arith) k (omega arith))
