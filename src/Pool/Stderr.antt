-- ===== src/Pool/Stderr.antt =====
-- crates/tryke_runner/src/worker.rs: the bytes that are kept of a worker's standard error.
use tryke.Prelude.{
  ℕ, zero, suc, ◌+◌, ◌-◌, ◌^◌, ◌≤◌, ◌≡◌, refl, sym, ap, ◌∙◌, List, [], ◌∷◌, ◌++◌, concat, length,
  length-append, ltb, leb, leb→le, if◌then◌else◌, Bool-cases, inl, inr, append_assoc, append-nil,
  arith,
}

-- `[n..]`, or what is left of `drain(..n)`.
unfoldable pub drop : ℕ → List ℕ → List ℕ
drop zero xs = xs
drop (suc n) [] = []
drop (suc n) (x ∷ xs) = drop n xs

abbrev pub stderr_retain_bytes : ℕ
stderr_retain_bytes = 2 ^ 20

-- With the cap as an argument.
abbrev pub append_capped : ℕ → List ℕ → List ℕ → List ℕ
append_capped cap buf bytes =
    if leb cap (length bytes)
    then drop (length bytes - cap) bytes
    else if ltb cap (length buf + length bytes)
    then drop (length buf + length bytes - cap) buf ++ bytes
    else buf ++ bytes

unfoldable pub append_stderr : List ℕ → List ℕ → List ℕ
unfolding drop
append_stderr buf bytes = append_capped stderr_retain_bytes buf bytes

-- The buffer after the chunks that a reader has read.
unfoldable pub stderr_tail : List ℕ → List (List ℕ) → List ℕ
unfolding append_stderr
stderr_tail buf [] = buf
stderr_tail buf (chunk ∷ chunks) = stderr_tail (append_stderr buf chunk) chunks

-- The last `cap` bytes.
abbrev pub last_bytes : ℕ → List ℕ → List ℕ
last_bytes cap xs = drop (length xs - cap) xs

drop_within : (n : ℕ) (xs ys : List ℕ) → n ≤ length xs → drop n (xs ++ ys) ≡ drop n xs ++ ys
unfolding drop
drop_within zero xs ys h = refl
drop_within (suc n) [] ys h = absurd (omega (arith, h))
drop_within (suc n) (x ∷ xs) ys h = drop_within n xs ys (omega (arith, h))

drop_past : (xs ys : List ℕ) (n k : ℕ) → n ≡ length xs + k → drop n (xs ++ ys) ≡ drop k ys
unfolding drop
drop_past [] ys n k h = ap (λ m. drop m ys) (omega (arith, h))
drop_past (x ∷ xs) ys zero k h = absurd (omega (arith, h))
drop_past (x ∷ xs) ys (suc n) k h = drop_past xs ys n k (omega (arith, h))

drop-drop_append :
    (n m t : ℕ) (xs ys : List ℕ)
    → m ≤ length xs
    → t ≡ m + n
    → drop n (drop m xs ++ ys) ≡ drop t (xs ++ ys)
unfolding drop
drop-drop_append n zero t xs ys h e = ap (λ k. drop k (xs ++ ys)) (omega (arith, e))
drop-drop_append n (suc m) t [] ys h e = absurd (omega (arith, h))
drop-drop_append n (suc m) zero (x ∷ xs) ys h e = absurd (omega (arith, e))
drop-drop_append n (suc m) (suc t) (x ∷ xs) ys h e =
    drop-drop_append n m t xs ys (omega (arith, h)) (omega (arith, e))

length-drop : (n : ℕ) (xs : List ℕ) → length (drop n xs) ≡ length xs - n
unfolding drop
length-drop zero xs = omega arith
length-drop (suc n) [] = omega arith
length-drop (suc n) (x ∷ xs) = omega (arith, length-drop n xs)

drop_none : (n : ℕ) (xs : List ℕ) → n ≡ 0 → drop n xs ≡ xs
unfolding drop
drop_none n xs h = ap (λ m. drop m xs) h

append_capped-last_bytes :
    (cap : ℕ) (buf bytes : List ℕ) → append_capped cap buf bytes ≡ last_bytes cap (buf ++ bytes)
append_capped-last_bytes cap buf bytes =
    let all = length-append buf bytes in
    elim (Bool-cases (leb cap (length bytes))) [
      | inl full ↦ rw full (
          sym (
            drop_past buf bytes (length (buf ++ bytes) - cap) (length bytes - cap)
              (omega (arith, all, leb→le cap (length bytes) full))))
      | inr part ↦ elim (Bool-cases (ltb cap (length buf + length bytes))) [
        | inl over ↦
            rw (part, over)
              (sym (
                ap (λ n. drop n (buf ++ bytes)) (omega (arith, all))
                ∙ drop_within (length buf + length bytes - cap) buf bytes (ground (arith, part))))
        | inr under ↦
            rw (part, under)
              (sym (
                drop_none (length (buf ++ bytes) - cap) (buf ++ bytes)
                  (ground (arith, all, under))))
      ]
    ]

-- What is kept of what was kept.
last_bytes-append :
    (cap : ℕ) (xs ys : List ℕ)
    → last_bytes cap (last_bytes cap xs ++ ys) ≡ last_bytes cap (xs ++ ys)
last_bytes-append cap xs ys =
    let kept = drop (length xs - cap) xs in
    drop-drop_append (length (kept ++ ys) - cap) (length xs - cap) (length (xs ++ ys) - cap) xs ys
      (omega arith)
      (omega (arith, length-append kept ys, length-append xs ys, length-drop (length xs - cap) xs))

stderr_tail_from :
    (chunks : List (List ℕ)) (all : List ℕ)
    → stderr_tail (last_bytes stderr_retain_bytes all) chunks
      ≡ last_bytes stderr_retain_bytes (all ++ concat chunks)
unfolding stderr_tail append_stderr
stderr_tail_from [] all = ap (last_bytes stderr_retain_bytes) (sym (append-nil all))
stderr_tail_from (chunk ∷ chunks) all =
    ap (λ b. stderr_tail b chunks)
      (append_capped-last_bytes stderr_retain_bytes (last_bytes stderr_retain_bytes all) chunk
        ∙ last_bytes-append stderr_retain_bytes all chunk)
    ∙ (stderr_tail_from chunks (all ++ chunk)
        ∙ ap (last_bytes stderr_retain_bytes) (append_assoc all chunk (concat chunks)))

-- However a worker's standard error is cut into chunks, the buffer holds the last 2 ^ 20 bytes of
-- it, all of it where it is no longer, and so never more than 2 ^ 20 bytes.
pub stderr_tail-last_bytes :
    (chunks : List (List ℕ))
    → (stderr_tail [] chunks ≡ last_bytes stderr_retain_bytes (concat chunks))
      × (length (stderr_tail [] chunks) ≤ stderr_retain_bytes)
unfolding drop
stderr_tail-last_bytes chunks =
    let e = stderr_tail_from chunks [] in
    let all = concat chunks in
    (e, rw e (omega (arith, length-drop (length all - stderr_retain_bytes) all)))
