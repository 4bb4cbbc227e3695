-- ===== src/Iso8601/Datetime/Calendar.antt =====
-- The datetimes that are accepted.
use mathlib.Core.Path.{subst}
use rbpmn.Common.{
  ℕ, suc, ◌+◌, ◌-◌, ◌*◌, ◌/◌, ◌%◌, ◌≤◌, ◌<◌, ◌≡◌, refl, sym, ap, ◌∙◌, List, [], ◌∷◌, arith,
  Bool-cases, inl, inr,
}
use rbpmn.Condition.Decimals.{is_digit}
use rbpmn.Iso8601.Texts.{Checked, good, ◌>>=◌, >>=-eq-good, digits, expect, good_inj}
use rbpmn.Iso8601.Datetime.Months.{MonthHas, month_days-MonthHas, MonthHas-month_days}
use rbpmn.Iso8601.Datetime.{Stamp, month_days, stamp, in_range, fraction, offset, validate_datetime}

-- A second of a day of the Gregorian calendar, of the years 1 to 9999.
pub record IsMoment (t : Stamp) : Type 0 where
  pub year_in : (1 ≤ t.year) × (t.year ≤ 9999)
  pub month_in : (1 ≤ t.month) × (t.month ≤ 12)
  pub day_in : (last : ℕ) × (MonthHas t.year t.month last × ((1 ≤ t.day) × (t.day ≤ last)))
  pub time_in : (t.hour ≤ 23) × (t.minute ≤ 59) × (t.second ≤ 59)

-- Two digits and four, most significant first.
abbrev pub two : ℕ → List ℕ → List ℕ
two v s = (48 + v / 10) ∷ (48 + v % 10) ∷ s

abbrev pub four : ℕ → List ℕ → List ℕ
four v s = (48 + v / 1000) ∷ (48 + v / 100 % 10) ∷ (48 + v / 10 % 10) ∷ (48 + v % 10) ∷ s

digits-two : (v : ℕ) (s : List ℕ) → v < 100 → digits 2 0 (two v s) ≡ good (v, s)
unfolding digits is_digit
digits-two v s h = ground arith

digits-four : (v : ℕ) (s : List ℕ) → v < 10000 → digits 4 0 (four v s) ≡ good (v, s)
unfolding digits is_digit
digits-four v s h = ground arith

-- A digit that was read, and the rest.
digits-suc :
    (n acc v : ℕ) (s rest : List ℕ)
    → digits (suc n) acc s ≡ good (v, rest)
    → (d : ℕ) × (t : List ℕ) × ((s ≡ (48 + d) ∷ t)
        × ((d ≤ 9) × (digits n (acc * 10 + d) t ≡ good (v, rest))))
unfolding digits is_digit
digits-suc n acc v [] rest h = cc
digits-suc n acc v (c ∷ s) rest h = elim (Bool-cases (is_digit c)) [
  | inl e ↦
      (c - 48, s, (ap (λ x. x ∷ s) (ground (arith, e)), (ground (arith, e), rw (e, digits) at h)))
  | inr e ↦ cc (rw (e, digits) at h)
]

digits-zero :
    (acc v : ℕ) (s rest : List ℕ) → digits 0 acc s ≡ good (v, rest) → (v ≡ acc) × (s ≡ rest)
unfolding digits
digits-zero acc v s rest h = ground (arith, h)

-- What is read comes from the digits that it is written with.
two-digits : (s rest : List ℕ) (v : ℕ) → digits 2 0 s ≡ good (v, rest) → (s ≡ two v rest) × (v ≤ 99)
two-digits s rest v h =
    let (a, s1, (e0, (l0, h0))) = digits-suc 1 0 v s rest h in
    let (b, s2, (e1, (l1, h1))) = digits-suc 0 (0 * 10 + a) v s1 rest h0 in
    let (e, r) = digits-zero ((0 * 10 + a) * 10 + b) v s2 rest h1 in
    let e' : v ≡ a * 10 + b = omega (arith, e) in
    let first : 48 + a ≡ 48 + v / 10 = omega (arith, e', l0, l1) in
    let second : 48 + b ≡ 48 + v % 10 = omega (arith, e', l0, l1) in
    (cc (e0, e1, r, first, second), omega (arith, e', l0, l1))

four-digits :
    (s rest : List ℕ) (v : ℕ) → digits 4 0 s ≡ good (v, rest) → (s ≡ four v rest) × (v ≤ 9999)
four-digits s rest v h =
    let (a, s1, (e0, (l0, h0))) = digits-suc 3 0 v s rest h in
    let (b, s2, (e1, (l1, h1))) = digits-suc 2 (0 * 10 + a) v s1 rest h0 in
    let (c, s3, (e2, (l2, h2))) = digits-suc 1 ((0 * 10 + a) * 10 + b) v s2 rest h1 in
    let (d, s4, (e3, (l3, h3))) = digits-suc 0 (((0 * 10 + a) * 10 + b) * 10 + c) v s3 rest h2 in
    let (e, r) = digits-zero ((((0 * 10 + a) * 10 + b) * 10 + c) * 10 + d) v s4 rest h3 in
    let e' : v ≡ a * 1000 + b * 100 + c * 10 + d = omega (arith, e) in
    let first : 48 + a ≡ 48 + v / 1000 = omega (arith, e', l0, l1, l2, l3) in
    let second : 48 + b ≡ 48 + v / 100 % 10 = omega (arith, e', l0, l1, l2, l3) in
    let third : 48 + c ≡ 48 + v / 10 % 10 = omega (arith, e', l0, l1, l2, l3) in
    let fourth : 48 + d ≡ 48 + v % 10 = omega (arith, e', l0, l1, l2, l3) in
    (cc (e0, e1, e2, e3, r, first, second, third, fourth), omega (arith, e', l0, l1, l2, l3))

expect-eq-good : (c : ℕ) (s rest : List ℕ) → expect c s ≡ good rest → s ≡ c ∷ rest
unfolding expect
expect-eq-good c [] rest h = cc
expect-eq-good c (d ∷ s) rest h = ground (arith, h)

-- The text of a second, before what follows its seconds.
unfoldable pub dated : Stamp → List ℕ → List ℕ
dated t s = four t.year (
    b'-'
    ∷ two t.month
        (b'-' ∷ two t.day (b'T' ∷ two t.hour (b':' ∷ two t.minute (b':' ∷ two t.second s)))))

-- A character and two digits that were read.
two_then :
    {A : Type 0} (c : ℕ) (s : List ℕ) (f : ℕ × List ℕ → Checked A) {r : A} (Q : List ℕ → Type 0)
    → (expect c s >>= λ a. digits 2 0 a >>= f) ≡ good r
    → ((v : ℕ) (t : List ℕ) → f (v, t) ≡ good r → Q (c ∷ two v t))
    → Q s
two_then c s f Q h k =
    let (a, x, e0) = >>=-eq-good (expect c s) _ h in
    let (vt, r, e1) = >>=-eq-good (digits 2 0 a) f e0 in
    subst Q (sym (expect-eq-good c s a x ∙ ap (λ y. c ∷ y) (two-digits a vt.1 vt.0 r).0))
      (k vt.0 vt.1 e1)

stamp-dated :
    (s rest : List ℕ) (t : Stamp) → stamp s ≡ good (t, rest) → (s ≡ dated t rest) × (t.year ≤ 9999)
unfolding stamp dated
stamp-dated s rest t h =
    let (y, r0, e0) = >>=-eq-good (digits 4 0 s) _ h in
    let (w, l) = four-digits s y.1 y.0 r0 in
    let Q : List ℕ → Type 0 = λ x. (x ≡ dated t rest) × (t.year ≤ 9999) in
    subst Q (sym w) (
      two_then b'-' y.1 _ (λ x. Q (four y.0 x)) e0
        (λ mo t1 h1.
          two_then b'-' t1 _ (λ x. Q (four y.0 (b'-' ∷ two mo x))) h1
            (λ d t2 h2.
              two_then b'T' t2 _ (λ x. Q (four y.0 (b'-' ∷ two mo (b'-' ∷ two d x)))) h2
                (λ ho t3 h3.
                  two_then b':' t3 _
                    (λ x. Q (four y.0 (b'-' ∷ two mo (b'-' ∷ two d (b'T' ∷ two ho x))))) h3
                    (λ mi t4 h4.
                      two_then b':' t4 _
                        (λ x. Q (
                          four y.0
                            (b'-' ∷ two mo (b'-' ∷ two d (b'T' ∷ two ho (b':' ∷ two mi x))))))
                        h4
                        (λ se t5 h5.
                          subst
                            (λ (r : Stamp × List ℕ).
                              (dated
                                  (record {
                                    year = y.0;
                                    month = mo;
                                    day = d;
                                    hour = ho;
                                    minute = mi;
                                    second = se;
                                  })
                                  t5
                                ≡ dated r.0 r.1)
                              × (r.0.year ≤ 9999))
                            (good_inj h5) (refl, l)))))))

in_range-IsMoment : (t : Stamp) → t.year ≤ 9999 → in_range t ≡ good tt → IsMoment t
unfolding in_range
in_range-IsMoment t y h =
    let lo : 1 ≤ t.month = ground (arith, h) in
    let hi : t.month ≤ 12 = ground (arith, h) in
    record {
      year_in = ground (arith, h, y);
      month_in = (lo, hi);
      day_in = (
        month_days t.year t.month,
        (month_days-MonthHas t.year t.month lo hi, ground (arith, h)),
      );
      time_in = ground (arith, h);
    }

-- An accepted text is written with a second of a day that the Gregorian calendar has, in the years 1
-- to 9999, and what follows the seconds.
pub validate_datetime-IsMoment :
    (s : List ℕ)
    → validate_datetime s ≡ good tt
    → (t : Stamp) × (rest : List ℕ) × ((s ≡ dated t rest) × IsMoment t)
unfolding validate_datetime
validate_datetime-IsMoment s h =
    let (t, read, e) = >>=-eq-good (stamp s) _ h in
    let (_, ranged, e') = >>=-eq-good (in_range t.0) _ e in
    let (written, below) = stamp-dated s t.1 t.0 read in
    (t.0, t.1, (written, in_range-IsMoment t.0 below ranged))

day_at_most : (t : Stamp) (m : IsMoment t) → t.day ≤ month_days t.year t.month
day_at_most t m = omega (arith, m.day_in.1.1.1, MonthHas-month_days t.year m.day_in.1.0)

month_days-le : (year month : ℕ) → month_days year month ≤ 31
unfolding month_days
month_days-le year month = ground arith

IsMoment-in_range : (t : Stamp) → IsMoment t → in_range t ≡ good tt
unfolding in_range
IsMoment-in_range t m =
    ground (arith, m.year_in, m.month_in, m.day_in.1.1.0, day_at_most t m, m.time_in)

stamp-printed : (t : Stamp) (s : List ℕ) → IsMoment t → stamp (dated t s) ≡ good (t, s)
unfolding stamp expect dated
stamp-printed t s m = rw (digits-four t.year _ (omega (arith, m.year_in))) (
    rw (digits-two t.month _ (omega (arith, m.month_in))) (
      rw (digits-two t.day _ (omega (arith, day_at_most t m, month_days-le t.year t.month))) (
        rw (digits-two t.hour _ (omega (arith, m.time_in))) (
          rw (digits-two t.minute _ (omega (arith, m.time_in)))
            (rw (digits-two t.second _ (omega (arith, m.time_in))) refl)))))

-- The text of every second of every day of the Gregorian calendar, of the years 1 to 9999, with the
-- suffix of UTC is accepted, as `2030-01-31T08:00:00Z` is.
pub validate_datetime-printed :
    (t : Stamp) → IsMoment t → validate_datetime (dated t (b'Z' ∷ [])) ≡ good tt
unfolding validate_datetime offset fraction
validate_datetime-printed t m = rw (stamp-printed t (b'Z' ∷ []) m) (rw (IsMoment-in_range t m) refl)
