-- ===== src/Discover/Memos.antt =====
-- crates/tryke_discovery/src/filesystem/db.rs: what a query of `discover_file` returns, by the memo
-- that it finds.
use tryke.Prelude.{◌≡◌, ◌⊎◌, inl, inr, Bool-cases, refl, ap, true, Option, none, some, Text, arith}
use tryke.Discover.State.{Analysis, SourceFile, memo_text, discover_file}

module _ (analysis : Analysis) where
  -- What a query has to do with the text: the statements are the text's, and a second query returns
  -- the same.
  pub memo_text_same :
      (m : Option Text) (t : Text) → analysis.same_body (memo_text analysis m t) t ≡ true
  unfolding memo_text
  memo_text_same none t = analysis.same_body_refl t
  memo_text_same (some u) t = ground (arith, analysis.same_body_refl t)

  pub memo_text_from :
      (m : Option Text) (t : Text)
      → (memo_text analysis m t ≡ t) ⊎ (m ≡ some (memo_text analysis m t))
  unfolding memo_text
  memo_text_from none t = inl refl
  memo_text_from (some u) t = elim (Bool-cases (analysis.same_body u t)) [
    | inl same ↦ rw same (inr refl)
    | inr differs ↦ rw differs (inl refl)
  ]

  pub memo_text_again :
      (m : Option Text) (t : Text)
      → memo_text analysis (some (memo_text analysis m t)) t ≡ memo_text analysis m t
  unfolding memo_text
  memo_text_again none t = rw (analysis.same_body_refl t) refl
  memo_text_again (some u) t = ground (arith, analysis.same_body_refl t)

  pub discover_file_again :
      (m : Option Text) (f : SourceFile)
      → discover_file analysis (some (memo_text analysis m f.text)) f ≡ discover_file analysis m f
  unfolding discover_file
  discover_file_again m f =
      ap (λ t. analysis.discover (record f { text = t })) (memo_text_again m f.text)
