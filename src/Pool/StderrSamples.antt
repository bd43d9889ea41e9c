-- ===== src/Pool/StderrSamples.antt =====
-- Two chunks of a worker's standard error.
use tryke.Prelude.{ℕ, ◌≤◌, ◌≡◌, List, [], ◌∷◌, concat, length}
use tryke.Pool.Stderr.{stderr_retain_bytes, stderr_tail, last_bytes, stderr_tail-last_bytes}

abbrev chunks : List (List ℕ)
chunks = (1 ∷ 2 ∷ []) ∷ (3 ∷ []) ∷ []

stderr_tail-last_bytes_example :
    (stderr_tail [] chunks ≡ last_bytes stderr_retain_bytes (concat chunks))
    × (length (stderr_tail [] chunks) ≤ stderr_retain_bytes)
stderr_tail-last_bytes_example = stderr_tail-last_bytes chunks
