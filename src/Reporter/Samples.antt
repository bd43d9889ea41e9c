-- ===== src/Reporter/Samples.antt =====
-- Durations around two minutes.
use tryke.Prelude.{[], ◌≡◌, refl, ◌∷◌, ◌++◌, decimal, arith, codes}
use tryke.Reporter.{format_minutes, format_minutes_rounds}

format_minutes_runs :
    (format_minutes 65500 ≡ codes "1:05.50") × (format_minutes 119999 ≡ codes "2:00.00")
unfolding format_minutes
format_minutes_runs = (refl, refl)

format_minutes_rounds_example :
    format_minutes 65505 ≡ decimal 1 ++ b':' ∷ b'0' ∷ b'5' ∷ b'.' ∷ b'5' ∷ b'1' ∷ []
format_minutes_rounds_example =
    format_minutes_rounds 65505 1 5 51 (omega arith) (omega arith) (omega arith) (omega arith)
