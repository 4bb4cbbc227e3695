-- ===== src/Iso8601/Datetime/Months.antt =====
-- The days of a month in the Gregorian calendar, against `month_days` (iso8601.rs).
use rbpmn.Common.{
  ℕ, zero, suc, ◌*◌, ◌/◌, ◌%◌, ◌≤◌, ◌≡◌, ◌⊎◌, refl, Bool, true, not, ◌&&◌, ◌||◌, ◌==◌, arith,
  Bool-cases, inl, inr, if◌then◌else◌,
}
use rbpmn.Iso8601.Datetime.{month_days}

-- `n` is a multiple of `k`.
abbrev pub Divides : ℕ → ℕ → Type 0
Divides k n = (q : ℕ) × (n ≡ k * q)

-- A multiple of four but not of a hundred, or a multiple of four hundred.
abbrev pub IsLeap : ℕ → Type 0
IsLeap y = (Divides 4 y × (Divides 100 y → ⊥)) ⊎ Divides 400 y

-- The length of a month, by the year and the month's number.
pub data MonthHas (y : ℕ) : ℕ → ℕ → Type 0 where
  january : MonthHas y 1 31
  february : (IsLeap y → ⊥) → MonthHas y 2 28
  leap_february : IsLeap y → MonthHas y 2 29
  march : MonthHas y 3 31
  april : MonthHas y 4 30
  may : MonthHas y 5 31
  june : MonthHas y 6 30
  july : MonthHas y 7 31
  august : MonthHas y 8 31
  september : MonthHas y 9 30
  october : MonthHas y 10 31
  november : MonthHas y 11 30
  december : MonthHas y 12 31

-- The test of the source.
abbrev leaps : ℕ → Bool
leaps y = y % 4 == 0 && (not (y % 100 == 0) || y % 400 == 0)

leaps-IsLeap : (y : ℕ) → leaps y ≡ true → IsLeap y
leaps-IsLeap y h = elim (Bool-cases (y % 400 == 0)) [
  | inl e ↦ inr (y / 400, ground (arith, e))
  | inr e ↦ inl ((y / 4, ground (arith, h)), λ (q, d). ground (arith, h, e, d))
]

IsLeap-leaps : (y : ℕ) → IsLeap y → leaps y ≡ true
IsLeap-leaps y (inl ((q, d), h)) = elim (Bool-cases (y % 100 == 0)) [
  | inl e ↦ absurd (h (y / 100, ground (arith, e)))
  | inr e ↦ ground (arith, d, e)
]
IsLeap-leaps y (inr (q, d)) = ground (arith, d)

february_length : (y : ℕ) → MonthHas y 2 (if leaps y then 29 else 28)
february_length y = elim (Bool-cases (leaps y)) [
  | inl e ↦ rw e (leap_february (leaps-IsLeap y e))
  | inr e ↦ rw e (february (λ l. let e' = IsLeap-leaps y l in cc))
]

pub month_days-MonthHas : (y m : ℕ) → 1 ≤ m → m ≤ 12 → MonthHas y m (month_days y m)
unfolding month_days
month_days-MonthHas y zero h k = absurd (omega (arith, h))
month_days-MonthHas y (suc zero) h k = january
month_days-MonthHas y (suc (suc zero)) h k = february_length y
month_days-MonthHas y (suc (suc (suc zero))) h k = march
month_days-MonthHas y (suc (suc (suc (suc zero)))) h k = april
month_days-MonthHas y (suc (suc (suc (suc (suc zero))))) h k = may
month_days-MonthHas y (suc (suc (suc (suc (suc (suc zero)))))) h k = june
month_days-MonthHas y (suc (suc (suc (suc (suc (suc (suc zero))))))) h k = july
month_days-MonthHas y (suc (suc (suc (suc (suc (suc (suc (suc zero)))))))) h k = august
month_days-MonthHas y (suc (suc (suc (suc (suc (suc (suc (suc (suc zero))))))))) h k = september
month_days-MonthHas y (suc (suc (suc (suc (suc (suc (suc (suc (suc (suc zero)))))))))) h k = october
month_days-MonthHas y (suc (suc (suc (suc (suc (suc (suc (suc (suc (suc (suc zero))))))))))) h k =
    november
month_days-MonthHas y (suc (suc (suc (suc (suc (suc (suc (suc (suc (suc (suc (suc zero)))))))))))) h
      k =
    december
month_days-MonthHas y
      (suc (suc (suc (suc (suc (suc (suc (suc (suc (suc (suc (suc (suc m))))))))))))) h k =
    absurd (omega (arith, k))

pub MonthHas-month_days : (y : ℕ) {m n : ℕ} → MonthHas y m n → month_days y m ≡ n
unfolding month_days
MonthHas-month_days y january = refl
MonthHas-month_days y (february l) = elim (Bool-cases (leaps y)) [
  | inl e ↦ absurd (l (leaps-IsLeap y e))
  | inr e ↦ rw e refl
]
MonthHas-month_days y (leap_february l) = rw (IsLeap-leaps y l) refl
MonthHas-month_days y march = refl
MonthHas-month_days y april = refl
MonthHas-month_days y may = refl
MonthHas-month_days y june = refl
MonthHas-month_days y july = refl
MonthHas-month_days y august = refl
MonthHas-month_days y september = refl
MonthHas-month_days y october = refl
MonthHas-month_days y november = refl
MonthHas-month_days y december = refl
