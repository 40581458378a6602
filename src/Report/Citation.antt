-- ===== src/Report/Citation.antt =====
-- The questions of the citation self-test: apps/web/lib/report/citationTest.ts. `Prompts` and
-- `Protocol` have the texts around them. The text `languages` of a profile is not missing, as its type says.
pub mod Prompts
pub mod Protocol
mod Closing
pub mod Blind
pub mod Select
use geo_readiness.Common.{
  ℕ, zero, suc, ◌+◌, Bool, true, false, Option, none, some, List, [], ◌∷◌, ◌++◌, ◌&&◌, ◌||◌, not,
  ltb, leb, ◌==◌, if◌then◌else◌, any, keep, length, head?, map,
}
use geo_readiness.Common.Text.{Text, codes, text_eq, is_empty, trim, lower, before, join, has_text}
use geo_readiness.Common.Words.{
  count_words, remove_word, squeeze, tighten, contains, remove_first, split_space, not_empty, nub,
  show_number,
}
use geo_readiness.Common.Sort.{sort_by}
use geo_readiness.Report.{ReportCluster, ReportProfile, ReportMeta, ReportDocument}

pub data KitLang : Type 0 where
  en de : KitLang

abbrev pub search_suffix : KitLang → Text
search_suffix en =
    codes "Search the web and answer using current, credible sources. Cite the sources you rely on."
search_suffix de =
    codes
      "Durchsuche das Web und antworte anhand aktueller, glaubwürdiger Quellen. Zitiere die Quellen, auf die du dich stützt."

abbrev cite_marker : KitLang → Text
cite_marker en = codes "cite the sources"
cite_marker de = codes "zitiere die quellen"

abbrev pub dangling_tail : List Text
dangling_tail = map codes (
    "für" ∷ "zu" ∷ "an" ∷ "in" ∷ "mit" ∷ "von" ∷ "bei" ∷ "um" ∷ "auf" ∷ "über" ∷ "der" ∷ "die"
    ∷ "das" ∷ "den" ∷ "dem" ∷ "ein" ∷ "eine" ∷ "einen" ∷ "und" ∷ "oder" ∷ "for" ∷ "to" ∷ "of"
    ∷ "about" ∷ "with" ∷ "by" ∷ "on" ∷ "at" ∷ "the" ∷ "a" ∷ "an" ∷ "and" ∷ "or" ∷ [])

pub record CitationQuery : Type 0 where
  pub qid : Text
  pub intent : Text
  pub query : Text

abbrev pub german_words : List Text
german_words = map codes (
    "was" ∷ "welche" ∷ "welcher" ∷ "über" ∷ "für" ∷ "wie" ∷ "sollte" ∷ "man" ∷ "anbieter"
    ∷ "quellen" ∷ "erfahren" ∷ [])

abbrev pub english_words : List Text
english_words = map codes (
    "what" ∷ "which" ∷ "how" ∷ "should" ∷ "providers" ∷ "sources" ∷ "about" ∷ "best" ∷ "learn"
    ∷ "know" ∷ [])

abbrev pub text_or_empty : Option Text → Text
text_or_empty none = []
text_or_empty (some t) = t

-- The base of a language tag.
unfoldable pub base_language : Text → Text
base_language tag = lower (before b'-' tag)

abbrev profile_language : List Text → KitLang
profile_language [] = en
profile_language (tag ∷ tags) =
    let rest = profile_language tags in
    if text_eq (base_language tag) (codes "de")
    then de
    else if text_eq (base_language tag) (codes "en")
    then en
    else rest

abbrev pub more_words : ℕ → ℕ → KitLang → KitLang
more_words german english fallback =
    if ltb english german then de else if ltb german english then en else fallback

unfoldable pub questions_text : ReportDocument → Text
questions_text report =
    lower (join (32 ∷ []) (map (λ c. text_or_empty c.sample_prompt) report.clusters))

unfoldable pub kit_language : ReportDocument → KitLang
kit_language report =
    let questions = questions_text report in
    more_words (count_words german_words questions) (count_words english_words questions)
      (profile_language report.business_profile.languages)

unfoldable pub domain_core : Text → Text
domain_core domain = lower (before b'.' domain)

-- A text that is there and not empty.
abbrev pub given_text : Option Text → List Text
given_text none = []
given_text (some t) = if is_empty t then [] else t ∷ []

abbrev core_needle : Text → List Text
core_needle core = if ltb 2 (length core) then core ∷ [] else []

-- What is taken out of a question, each text once.
unfoldable pub needles : Option Text → Text → List Text
needles brand domain = nub (
    given_text brand ++ (if is_empty domain then [] else domain ∷ core_needle (domain_core domain)))

abbrev remove_needles : List Text → Text → Text
remove_needles [] q = q
remove_needles (n ∷ ns) q = remove_needles ns (trim (squeeze (remove_word n q)))

abbrev is_mark : ℕ → Bool
is_mark c = c == b'?' || c == b'.' || c == b'!' || c == b','

abbrev with_suffix : KitLang → Text → Text
with_suffix lang q =
    if contains (cite_marker lang) (lower q) then q else q ++ 32 ∷ search_suffix lang

-- Takes the brand and the domain out of a question and appends the instruction to search and cite.
unfoldable pub neutralize : Text → Option Text → Text → KitLang → Text
neutralize raw brand domain lang =
    with_suffix lang (trim (tighten is_mark (remove_needles (needles brand domain) (trim raw))))

abbrev is_question_mark : ℕ → Bool
is_question_mark c = c == b'?' || c == 0xff1f

-- `^[?？]*\s*$`
abbrev ends_asking : Text → Bool
ends_asking [] = true
ends_asking (c ∷ s) = (is_question_mark c && ends_asking s) || is_empty (trim (c ∷ s))

-- `s.replace(/[?？]+\s*$/, "")`
unfoldable pub strip_question : Text → Text
strip_question [] = []
strip_question (c ∷ s) =
    let rest = c ∷ strip_question s in if is_question_mark c && ends_asking s then [] else rest

abbrev last_word : List Text → Text
last_word [] = []
last_word (w ∷ []) = w
last_word (w ∷ v ∷ ws) = last_word (v ∷ ws)

-- `[.,:;!?"']`
abbrev is_stop : ℕ → Bool
is_stop c =
    c == b'.'
    || c == b','
    || c == b':'
    || c == b';'
    || c == b'!'
    || c == b'?'
    || c == b'"'
    || c == 39

unfoldable pub names_brand : Text → Option Text → Bool
names_brand low none = false
names_brand low (some brand) =
    not (is_empty brand) && not (is_empty (trim brand)) && contains (lower brand) low

unfoldable pub names_domain : Text → Text → Bool
names_domain low domain = ltb 2 (length (domain_core domain)) && contains (domain_core domain) low

-- The core of a question as `isWellFormed` looks at it.
unfoldable pub asked : Text → Text
asked core = trim (strip_question core)

unfoldable pub is_dangling : List Text → Bool
is_dangling words = has_text (keep (λ c. not (is_stop c)) (lower (last_word words))) dangling_tail

unfoldable pub is_well_formed : Text → Option Text → Text → Bool
is_well_formed core brand domain =
    let q = asked core in
    let words = not_empty (split_space q) in
    not (ltb (length words) 4)
    && not (is_dangling words)
    && not (names_brand (lower q) brand)
    && not (names_domain (lower q) domain)

-- `[?.!,:;"'()]`
abbrev is_punctuation : ℕ → Bool
is_punctuation c = is_stop c || c == b'(' || c == b')'

unfoldable pub word_set : Text → List Text
word_set v = nub (not_empty (split_space (map (λ c. if is_punctuation c then 32 else c) (lower v))))

-- Every word of the smaller set is one of the larger.
unfoldable pub overlaps : List Text → List Text → Bool
overlaps a b =
    let smaller = if leb (length a) (length b) then a else b in
    let larger = if leb (length a) (length b) then b else a in
    ltb 0 (length smaller) && (length (keep (λ w. has_text w larger) smaller) == length smaller)

unfoldable pub near_duplicate : Text → List Text → Bool
near_duplicate core accepted = any (λ other. overlaps (word_set core) (word_set other)) accepted

-- `Q01`, `Q02`, …
unfoldable pub query_id : ℕ → Text
query_id n =
    let digits = show_number n in b'Q' ∷ (if ltb (length digits) 2 then b'0' ∷ digits else digits)

abbrev pub is_candidate : ReportCluster → Bool
is_candidate c =
    not (text_eq c.intent (codes "branded"))
    && not (is_empty (trim (text_or_empty c.sample_prompt)))

-- The clusters with a question that is not branded, the highest priority first.
unfoldable pub candidates : ReportDocument → List ReportCluster
candidates report = sort_by (λ a b. ltb b.priority a.priority) (keep is_candidate report.clusters)

unfoldable pub core_of : KitLang → Text → Text
core_of lang query = trim (remove_first (search_suffix lang) query)

-- What the selection of questions knows: the brand, the domain and the language.
pub record Kit : Type 0 where
  pub brand : Option Text
  pub domain : Text
  pub lang : KitLang

unfoldable pub query_of : Kit → ReportCluster → Text
query_of k c = neutralize (text_or_empty c.sample_prompt) k.brand k.domain k.lang

-- Whether a question is taken, behind those that were.
unfoldable pub is_taken : Kit → List Text → ReportCluster → Bool
is_taken k accepted c =
    let core = core_of k.lang (query_of k c) in
    is_well_formed core k.brand k.domain && not (near_duplicate core accepted)

abbrev pub citation_query : Kit → ℕ → ReportCluster → CitationQuery
citation_query k n c = record { qid = query_id (n + 1); intent = c.intent; query = query_of k c }

-- The loop over the clusters: `left` questions may still be taken, `n` were.
unfoldable pub select : Kit → ℕ → ℕ → List Text → List ReportCluster → List CitationQuery
select k zero n accepted cs = []
select k (suc left) n accepted [] = []
select k (suc left) n accepted (c ∷ cs) =
    let taken =
      citation_query k n c
      ∷ select k left (suc n) (accepted ++ core_of k.lang (query_of k c) ∷ []) cs in
    let passed = select k (suc left) n accepted cs in
    if is_taken k accepted c then taken else passed

abbrev pub kit_of : ReportDocument → Kit
kit_of report = record {
  brand = report.business_profile.brand_name;
  domain = report.meta.canonical_domain;
  lang = kit_language report;
}

unfoldable pub citation_queries : ReportDocument → ℕ → List CitationQuery
unfolding select
citation_queries report limit = select (kit_of report) limit 0 [] (candidates report)

abbrev pub query_text : Option CitationQuery → Option Text
query_text none = none
query_text (some q) = some q.query

unfoldable pub sample_citation_query : ReportDocument → Option Text
sample_citation_query report = query_text (head? (citation_queries report 1))
