-- ===== src/Reporter.antt =====
-- crates/tryke_reporter/src/duration.rs: a duration of a minute or more, in milliseconds, as text.
-- The shorter ones go through floating point numbers and are left out.
mod Samples
use tryke.Prelude.{
  false, zero, refl, ap, lt→ltb, ltb→lt, digits, suc, Bool-cases, inl, inr, ℕ, ◌+◌, ◌*◌, ◌/◌, ◌%◌,
  ◌≡◌, ◌≤◌, ◌<◌, List, [], ◌∷◌, ◌++◌, Text, codes, decimal, ltb, if◌then◌else◌, arith,
}

-- `(d.as_millis() + 5) / 10`
abbrev pub centis_of : ℕ → ℕ
centis_of ms = (ms + 5) / 10

abbrev pub minutes_of : ℕ → ℕ
minutes_of centis = centis / 6000

abbrev pub seconds_of : ℕ → ℕ
seconds_of centis = (centis / 100) % 60

-- `{:02}`
unfoldable pub two_digits : ℕ → Text
unfolding decimal
two_digits n = if ltb n 10 then b'0' ∷ decimal n else decimal n

-- `format_duration` from a minute on.
unfoldable pub format_minutes : ℕ → Text
unfolding decimal two_digits
format_minutes ms =
    let centis = centis_of ms in
    decimal (minutes_of centis)
    ++ (b':' ∷ (two_digits (seconds_of centis) ++ (b'.' ∷ two_digits (centis % 100))))

digits_below_10 : (f n : ℕ) → n < 10 → digits (suc f) n ≡ (48 + n) ∷ []
unfolding digits
digits_below_10 f n h = rw (lt→ltb n 10 h, digits) refl

digits_of_large :
    (f n : ℕ)
    → ltb n 10 ≡ false
    → n < 100
    → digits (suc (suc f)) n ≡ (48 + n / 10) ∷ (48 + n % 10) ∷ []
unfolding digits
digits_of_large f n large h =
    rw (large, digits)
      (ap (λ ds. ds ++ (48 + n % 10) ∷ []) (digits_below_10 f (n / 10) (omega arith)))

-- Two digits of a number that has no more.
two_digits_are : (n : ℕ) → n < 100 → two_digits n ≡ (48 + n / 10) ∷ (48 + n % 10) ∷ []
unfolding two_digits decimal
two_digits_are zero h = refl
two_digits_are (suc m) h = elim (Bool-cases (ltb (suc m) 10)) [
  | inl small ↦
      let below = ltb→lt (suc m) 10 small in
      let tens : suc m / 10 ≡ 0 = omega (arith, below) in
      let ones : suc m % 10 ≡ suc m = omega (arith, below) in
      rw (two_digits, small, decimal, digits_below_10 (suc m) (suc m) below, tens, ones) refl
  | inr large ↦ rw (two_digits, large, decimal, digits_of_large m (suc m) large h) refl
]

-- Of the minutes, seconds below 60 and centiseconds below 100 that add up to a duration within half a
-- centisecond, the half rounded up, the text shows the minutes in decimal, a colon, the two digits of
-- the seconds, a point and the two digits of the centiseconds.
pub format_minutes_rounds :
    (ms minutes seconds centis : ℕ)
    → seconds < 60
    → centis < 100
    → (minutes * 6000 + seconds * 100 + centis) * 10 ≤ ms + 5
    → ms + 5 < (minutes * 6000 + seconds * 100 + centis) * 10 + 10
    → format_minutes ms
      ≡ decimal minutes
        ++ b':'
          ∷ (b'0' + seconds / 10)
          ∷ (b'0' + seconds % 10)
          ∷ b'.'
          ∷ (b'0' + centis / 10)
          ∷ (b'0' + centis % 10)
          ∷ []
unfolding format_minutes
format_minutes_rounds ms minutes seconds centis below_60 below_100 low high =
    let below_60' : seconds < 100 = omega (arith, below_60) in
    let rounded : centis_of ms ≡ minutes * 6000 + seconds * 100 + centis = omega arith in
    let m : minutes_of (centis_of ms) ≡ minutes = omega arith in
    let s : seconds_of (centis_of ms) ≡ seconds = omega arith in
    let c : centis_of ms % 100 ≡ centis = omega arith in
    rw (m, s, c, two_digits_are seconds below_60', two_digits_are centis below_100) refl
