-- ===== src/Report/Citation/Blind.antt =====
-- The questions of apps/web/lib/report/citationTest.ts do not give the site away.
use geo_readiness.Common.{
  ℕ, zero, suc, Bool, true, false, ◌≡◌, ◌≢◌, refl, ap, sym, ◌∙◌, Option, some, List, [], ◌∷◌, ◌++◌,
  ◌&&◌, ltb, length, Bool-cases, inl, inr, arith, All, and_parts, append_assoc,
}
use geo_readiness.Common.Text.{Text, lower, trim, is_empty, starts_with, trim_end}
use geo_readiness.Common.Words.{contains, remove_first}
use geo_readiness.Report.{ReportCluster, ReportDocument}
use geo_readiness.Report.Citation.Closing.{IsWord, Opens, trim-Opens, asked-lower, asked-word}
use mathlib.Core.Path.{subst}
use geo_readiness.Report.Citation.{
  search_suffix, strip_question, Kit, CitationQuery, domain_core, core_of, asked, names_brand,
  names_domain, is_well_formed, query_of, is_taken, select, kit_of, candidates, citation_queries,
}

starts_with-append : (t s : Text) → starts_with t (t ++ s) ≡ true
starts_with-append [] s = refl
starts_with-append (c ∷ t) s = ground (arith, starts_with-append t s)

contains_of_start : (t s : Text) → starts_with t s ≡ true → contains t s ≡ true
unfolding contains
contains_of_start [] [] h = refl
contains_of_start (c ∷ t) [] h = cc
contains_of_start t (d ∷ s) h = rw h refl

contains-append : (a t b : Text) → contains t (a ++ (t ++ b)) ≡ true
unfolding contains
contains-append [] t b = contains_of_start t (t ++ b) (starts_with-append t b)
contains-append (c ∷ a) t b = ground (arith, contains-append a t b)

-- The texts that name the site: the first label of a domain if it is longer than two letters, and
-- the brand if it is not blank.
pub data Names (k : Kit) (t : Text) : Type 0 where
  by_domain : t ≡ domain_core k.domain → ltb 2 (length t) ≡ true → Names k t
  by_brand :
      (brand : Text)
      → k.brand ≡ some brand
      → is_empty (trim brand) ≡ false
      → t ≡ lower brand
      → Names k t

not_both_right : (a b : Bool) → (a && b) ≡ false → a ≡ true → b ≡ false
not_both_right a b h p = ground arith

taken_well_formed :
    (k : Kit) (accepted : List Text) (c : ReportCluster)
    → is_taken k accepted c ≡ true
    → is_well_formed (core_of k.lang (query_of k c)) k.brand k.domain ≡ true
unfolding is_taken
taken_well_formed k accepted c h =
    (and_parts (is_well_formed (core_of k.lang (query_of k c)) k.brand k.domain) _ h).0

absent : (low t a b : Text) → contains t low ≡ false → low ≢ a ++ (t ++ b)
absent low t a b h e = cc (contains-append a t b)

blank_of_empty : (b : Text) → is_empty (trim b) ≡ false → is_empty b ≡ false
unfolding trim
blank_of_empty [] h = cc
blank_of_empty (c ∷ b) h = refl

well_formed_parts :
    (core : Text) (brand : Option Text) (domain : Text)
    → is_well_formed core brand domain ≡ true
    → (names_brand (lower (asked core)) brand ≡ false)
      × (names_domain (lower (asked core)) domain ≡ false)
unfolding is_well_formed
well_formed_parts core brand domain h = ground arith

brand_absent :
    (low brand : Text)
    → is_empty (trim brand) ≡ false
    → names_brand low (some brand) ≡ false
    → contains (lower brand) low ≡ false
unfolding names_brand
brand_absent low brand e h = ground (arith, blank_of_empty brand e)

hidden :
    (k : Kit) (t core : Text)
    → Names k t
    → is_well_formed core k.brand k.domain ≡ true
    → contains t (lower (asked core)) ≡ false
unfolding names_domain
hidden k t core (by_domain e long) h =
    let (_, nd) = well_formed_parts core k.brand k.domain h in
    rw e (
      not_both_right (ltb 2 (length (domain_core k.domain))) _ nd
        (ap (λ s. ltb 2 (length s)) (sym e) ∙ long))
hidden k t core (by_brand brand e blank q) h =
    let (nb, _) = well_formed_parts core k.brand k.domain h in
    rw q (
      brand_absent (lower (asked core)) brand blank
        (ap (names_brand (lower (asked core))) (sym e) ∙ nb))

-- A name stands in the question if it stands in what `isWellFormed` looks at, behind the cut of
-- question marks and white space at the end.
absent_in_core :
    (x a m b : Text) (l : ℕ)
    → IsWord l
    → contains (m ++ l ∷ []) (lower (asked (trim x))) ≡ false
    → lower (trim x) ≢ a ++ ((m ++ l ∷ []) ++ b)
absent_in_core x a m b l word h e =
    absent (lower (asked (trim x))) (m ++ l ∷ []) a (trim_end (strip_question b)) h (
      sym (asked-lower (trim x))
      ∙ ap asked together
      ∙ asked-word l word (a ++ m) b (subst Opens together (trim-Opens x))
      ∙ sym (regroup (trim_end (strip_question b))))
  where
    regroup : (b : Text) → a ++ ((m ++ l ∷ []) ++ b) ≡ (a ++ m) ++ l ∷ b
    regroup b = simp append_assoc

    together : lower (trim x) ≡ (a ++ m) ++ l ∷ b
    together = e ∙ regroup b

module _ (k : Kit) (a m b : Text) (l : ℕ) (word : IsWord l) (n : Names k (m ++ l ∷ [])) where
  abbrev Hidden : CitationQuery → Type 0
  Hidden q = lower (core_of k.lang q.query) ≢ a ++ ((m ++ l ∷ []) ++ b)

  query_of-Hidden :
      (accepted : List Text) (c : ReportCluster)
      → is_taken k accepted c ≡ true
      → lower (core_of k.lang (query_of k c)) ≢ a ++ ((m ++ l ∷ []) ++ b)
  unfolding core_of
  query_of-Hidden accepted c e =
      absent_in_core (remove_first (search_suffix k.lang) (query_of k c)) a m b l word (
        hidden k (m ++ l ∷ []) (core_of k.lang (query_of k c)) n (taken_well_formed k accepted c e))

  select-Hidden :
      (left done : ℕ) (accepted : List Text) (cs : List ReportCluster)
      → All Hidden (select k left done accepted cs)
  unfolding select
  select-Hidden zero done accepted cs = tt
  select-Hidden (suc left) done accepted [] = tt
  select-Hidden (suc left) done accepted (c ∷ cs) = elim (Bool-cases (is_taken k accepted c)) [
    | inl e ↦ rw e (
      query_of-Hidden accepted c e,
      select-Hidden left (suc done) (accepted ++ core_of k.lang (query_of k c) ∷ []) cs,
    )
    | inr e ↦ rw e (select-Hidden (suc left) done accepted cs)
  ]

-- No question that is handed out, its instruction to search and cite cut off, holds a text that
-- names the site, be it in capitals or not: the first label of its domain, if that has more than
-- two letters, or its brand, if that is not blank. The name must end in a character that is
-- neither white space nor a question mark.
pub citation_queries-Hidden :
    (report : ReportDocument) (limit : ℕ) (a m b : Text) (l : ℕ)
    → IsWord l
    → Names (kit_of report) (m ++ l ∷ [])
    → All
        (λ q. lower (core_of (kit_of report).lang q.query) ≢ a ++ ((m ++ l ∷ []) ++ b))
        (citation_queries report limit)
unfolding citation_queries
citation_queries-Hidden report limit a m b l word n =
    select-Hidden (kit_of report) a m b l word n limit 0 [] (candidates report)
