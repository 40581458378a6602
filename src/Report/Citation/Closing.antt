-- ===== src/Report/Citation/Closing.antt =====
-- What `isWellFormed` of apps/web/lib/report/citationTest.ts cuts off a question before it looks for
-- names in it: question marks and white space at the end.
use geo_readiness.Common.{
  ℕ, Bool, false, ◌≡◌, refl, ap, ◌∙◌, [], ◌∷◌, ◌++◌, ◌&&◌, ◌||◌, Bool-cases, inl, inr, arith,
}
use geo_readiness.Common.Text.{
  Text, is_space, is_empty, trim_start, trim_end, trim, lower, lower_unit,
}
use geo_readiness.Report.Citation.{is_question_mark, ends_asking, strip_question, asked}

and_false : (b : Bool) → (b && false) ≡ false
and_false b = ground arith

-- A character that is neither white space nor a question mark.
abbrev pub IsWord : ℕ → Type 0
IsWord c = (is_space c ≡ false) × (is_question_mark c ≡ false)

-- Lower-casing makes no white space and no question mark.
space-lower : (c : ℕ) → is_space (lower_unit c) ≡ is_space c
space-lower c = ground arith

mark-lower : (c : ℕ) → is_question_mark (lower_unit c) ≡ is_question_mark c
mark-lower c = ground arith

empty-lower : (s : Text) → is_empty (lower s) ≡ is_empty s
unfolding lower
empty-lower [] = refl
empty-lower (c ∷ s) = refl

trim_start-lower : (s : Text) → trim_start (lower s) ≡ lower (trim_start s)
unfolding lower
trim_start-lower [] = refl
trim_start-lower (c ∷ s) = elim (Bool-cases (is_space c)) [
  | inl e ↦ rw (space-lower c, e, trim_start-lower s)
  | inr e ↦ rw (space-lower c, e)
]

trim_end-lower : (s : Text) → trim_end (lower s) ≡ lower (trim_end s)
unfolding lower
trim_end-lower [] = refl
trim_end-lower (c ∷ s) = elim (Bool-cases (is_empty (trim_end s) && is_space c)) [
  | inl e ↦ rw (trim_end-lower s, empty-lower (trim_end s), space-lower c, e)
  | inr e ↦ rw (trim_end-lower s, empty-lower (trim_end s), space-lower c, e)
]

trim-lower : (s : Text) → trim (lower s) ≡ lower (trim s)
unfolding trim
trim-lower s = ap trim_end (trim_start-lower s) ∙ trim_end-lower (trim_start s)

ends_asking-lower : (s : Text) → ends_asking (lower s) ≡ ends_asking s
unfolding lower
ends_asking-lower [] = refl
ends_asking-lower (c ∷ s) =
    rw (mark-lower c, ends_asking-lower s, trim-lower (c ∷ s), empty-lower (trim (c ∷ s))) refl

strip_question-lower : (s : Text) → strip_question (lower s) ≡ lower (strip_question s)
unfolding lower strip_question
strip_question-lower [] = refl
strip_question-lower (c ∷ s) = elim (Bool-cases (is_question_mark c && ends_asking s)) [
  | inl e ↦ rw (mark-lower c, ends_asking-lower s, e)
  | inr e ↦ rw (mark-lower c, ends_asking-lower s, e, strip_question-lower s)
]

pub asked-lower : (s : Text) → asked (lower s) ≡ lower (asked s)
unfolding asked
asked-lower s = ap trim (strip_question-lower s) ∙ trim-lower (strip_question s)

-- A text that opens with white space does not stand at the beginning of a trimmed one.
abbrev pub Opens : Text → Type 0
Opens [] = Unit
Opens (c ∷ s) = is_space c ≡ false

trim_start-Opens : (s : Text) → Opens (trim_start s)
trim_start-Opens [] = tt
trim_start-Opens (c ∷ s) = elim (Bool-cases (is_space c)) [
  | inl e ↦ rw e (trim_start-Opens s)
  | inr e ↦ rw e e
]

trim_end-Opens : (s : Text) → Opens s → Opens (trim_end s)
trim_end-Opens [] h = tt
trim_end-Opens (c ∷ s) h = rw (h, and_false (is_empty (trim_end s))) h

pub trim-Opens : (s : Text) → Opens (lower (trim s))
unfolding trim lower
trim-Opens s = lower-Opens (trim s) (trim_end-Opens (trim_start s) (trim_start-Opens s))
  where
    lower-Opens : (s : Text) → Opens s → Opens (lower s)
    lower-Opens [] h = tt
    lower-Opens (c ∷ s) h = space-lower c ∙ h

module _ (l : ℕ) (word : IsWord l) where
  trim_end-word : (p s : Text) → trim_end (p ++ l ∷ s) ≡ p ++ l ∷ trim_end s
  trim_end-word [] s = rw (word.0, and_false (is_empty (trim_end s))) refl
  trim_end-word (c ∷ []) s = rw (trim_end-word [] s) refl
  trim_end-word (c ∷ d ∷ p) s = rw (trim_end-word (d ∷ p) s) refl

  -- Trimming keeps what stands before a character that is no white space.
  blank-word : (p s : Text) → is_empty (trim (p ++ l ∷ s)) ≡ false
  unfolding trim
  blank-word [] s = rw word.0 (rw (trim_end-word [] s) refl)
  blank-word (c ∷ p) s = elim (Bool-cases (is_space c)) [
    | inl e ↦ rw e (blank-word p s)
    | inr e ↦ rw e (rw (trim_end-word (c ∷ p) s) refl)
  ]

  ends_asking-word : (p s : Text) → ends_asking (p ++ l ∷ s) ≡ false
  ends_asking-word [] s = rw (word.1, blank-word [] s) refl
  ends_asking-word (c ∷ p) s =
      rw (ends_asking-word p s, blank-word (c ∷ p) s) (or_false (is_question_mark c))
    where
      or_false : (b : Bool) → ((b && false) || false) ≡ false
      or_false b = ground arith

  strip_question-word : (p s : Text) → strip_question (p ++ l ∷ s) ≡ p ++ l ∷ strip_question s
  unfolding strip_question
  strip_question-word [] s = rw word.1 refl
  strip_question-word (c ∷ p) s =
      rw (ends_asking-word p s, and_false (is_question_mark c), strip_question-word p s) refl

  trim_start-word : (p s r : Text) → Opens (p ++ l ∷ s) → trim_start (p ++ l ∷ r) ≡ p ++ l ∷ r
  trim_start-word [] s r h = rw h
  trim_start-word (c ∷ p) s r h = rw h

  -- What is cut off a question stands behind its last word.
  pub asked-word :
      (p s : Text) → Opens (p ++ l ∷ s) → asked (p ++ l ∷ s) ≡ p ++ l ∷ trim_end (strip_question s)
  unfolding asked trim
  asked-word p s h =
      ap (λ t. trim_end (trim_start t)) (strip_question-word p s)
      ∙ ap trim_end (trim_start-word p s (strip_question s) h)
      ∙ trim_end-word p (strip_question s)
