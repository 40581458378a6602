-- ===== src/Report/Citation/Prompts.antt =====
-- The texts around the questions of the citation self-test: `measurementPrompt`
-- and `evaluationPrompt` of apps/web/lib/report/citationTest.ts.
use geo_readiness.Common.{ℕ, suc, List, [], ◌∷◌, ◌++◌, ◌==◌, if◌then◌else◌, length}
use geo_readiness.Common.Text.{Text, codes, join}
use geo_readiness.Common.Words.{show_number}
use geo_readiness.Report.Citation.{KitLang, en, de, CitationQuery}

-- Lines, one below the other.
abbrev pub lines : List Text → Text
lines ls = join (10 ∷ []) ls

abbrev numbered : ℕ → List CitationQuery → List Text
numbered n [] = []
numbered n (q ∷ qs) = (show_number n ++ codes ". " ++ q.query) ∷ numbered (suc n) qs

abbrev questions_noun : KitLang → ℕ → Text
questions_noun de n =
    if n == 1
    then codes "1 unabhängige Nutzerfrage"
    else show_number n ++ codes " unabhängige Nutzerfragen"
questions_noun en n =
    if n == 1
    then codes "1 independent user question"
    else show_number n ++ codes " independent user questions"

abbrev measurement_text : KitLang → Text → Text → Text
measurement_text de noun list = lines (
    (codes "Du führst einen verblindeten KI-Suche-Zitationstest durch. Du bekommst "
      ++ noun
      ++ codes ". Die getestete Website ist absichtlich verborgen, versuche nicht, sie zu erraten.")
    ∷ codes ""
    ∷ codes "Regeln"
    ∷ codes "- Behandle jede Frage als eigene, getrennte Suchaufgabe."
    ∷ codes "- Führe für jede Frage eine frische Websuche durch."
    ∷ codes "- Übernimm keine Quellen von einer Frage in eine andere."
    ∷ codes
        "- Liste nur die Quellen, die du für diese Frage tatsächlich verwendet hast, jeweils mit vollständiger URL."
    ∷ codes
        "- Erfinde oder rate keine URLs. Wenn du für eine Frage nicht gesucht hast, schreibe NO_SEARCH."
    ∷ codes ""
    ∷ codes "Fragen"
    ∷ list
    ∷ codes ""
    ∷ codes
        "Beantworte jede Frage normal und füge dann eine Liste „Verwendete Quellen\" mit der vollständigen URL jeder Quelle an. Führe die Suchen jetzt durch und behalte die Quellen je Frage. Wir werten sie in der nächsten Nachricht aus."
    ∷ [])
measurement_text en noun list = lines (
    (codes "You are running a blinded AI-search citation test. You will get "
      ++ noun
      ++ codes
          ". The website being tested is intentionally hidden from you, do not try to guess it.")
    ∷ codes ""
    ∷ codes "Rules"
    ∷ codes "- Treat every question as its own separate search task."
    ∷ codes "- Do a fresh web search for every question."
    ∷ codes "- Do not reuse sources from one question to answer another."
    ∷ codes "- List only the sources you actually used for that question, each with its full URL."
    ∷ codes "- Do not invent or guess URLs. If you did not search for a question, write NO_SEARCH."
    ∷ codes ""
    ∷ codes "Questions"
    ∷ list
    ∷ codes ""
    ∷ codes
        "For each question: answer it normally, then add a \"Sources used\" list with the full URL of every source. Do the searches now and keep the per-question sources. We will evaluate them in the next message."
    ∷ [])

-- Step 1: the questions, blinded.
unfoldable pub measurement_prompt : List CitationQuery → KitLang → Text
measurement_prompt queries lang =
    measurement_text lang (questions_noun lang (length queries)) (lines (numbered 1 queries))

-- Step 2: the domain is named, and the answers are evaluated.
unfoldable pub evaluation_prompt : Text → KitLang → Text
evaluation_prompt domain de = lines (
    codes
      "Die verblindete Phase ist abgeschlossen. Führe KEINE neue Websuche durch und füge KEINE Quelle hinzu, die nicht schon in deiner vorherigen Antwort stand."
    ∷ codes ""
    ∷ (codes "Die getestete Website war: " ++ domain)
    ∷ codes ""
    ∷ codes "Sag mir für jede Frage, ausschließlich anhand der bereits gelisteten Quellen:"
    ∷ (codes "- Wurde "
        ++ domain
        ++ codes " überhaupt zitiert (irgendeine Seite dieser Domain)? JA oder NEIN.")
    ∷ codes "- Falls ja, welche genaue URL wurde zitiert?"
    ∷ codes "- Welche anderen Domains wurden stattdessen zitiert?"
    ∷ codes ""
    ∷ codes "Gib mir dann, gezählt nur über Fragen mit echter Suche:"
    ∷ (codes "- Domain-Zitationsrate = Fragen, in denen "
        ++ domain
        ++ codes " zitiert wurde / Fragen mit echter Suche.")
    ∷ (codes "- Nenne jede Frage, in der eine weniger relevante Seite von "
        ++ domain
        ++ codes " statt der naheliegenden zitiert wurde.")
    ∷ codes ""
    ∷ codes
        "Bleibe faktisch und stütze dich nur auf die bereits gelisteten Quellen. Eine Frage mit NO_SEARCH zählt nicht gegen die Rate."
    ∷ [])
evaluation_prompt domain en = lines (
    codes
      "The blinded phase is done. Do NOT run any new web searches, and do NOT add any source that was not already in your previous answer."
    ∷ codes ""
    ∷ (codes "The website that was being tested is: " ++ domain)
    ∷ codes ""
    ∷ codes "Using only the sources you already listed, for each question tell me:"
    ∷ (codes "- Was " ++ domain ++ codes " cited at all (any page on that domain)? YES or NO.")
    ∷ codes "- If yes, which exact URL was cited?"
    ∷ codes "- Which other domains were cited instead?"
    ∷ codes ""
    ∷ codes "Then give me, counting only questions where you actually searched:"
    ∷ (codes "- Domain citation rate = questions where "
        ++ domain
        ++ codes " was cited / questions with a real search.")
    ∷ (codes "- Note any question where a less relevant page of "
        ++ domain
        ++ codes " was cited instead of the obvious one.")
    ∷ codes ""
    ∷ codes
        "Keep it factual and based only on the sources already listed. A question with NO_SEARCH does not count against the rate."
    ∷ [])
