-- ===== src/Report/Citation/Protocol.antt =====
-- The protocol of the citation self-test: `proProtocolMarkdown` of
-- apps/web/lib/report/citationTest.ts.
use geo_readiness.Common.{List, [], ◌∷◌, ◌++◌, map}
use geo_readiness.Common.Text.{Text, codes, join}
use geo_readiness.Report.{ReportDocument}
use geo_readiness.Report.Citation.{KitLang, en, de, CitationQuery, kit_language, citation_queries}
use geo_readiness.Report.Citation.Prompts.{lines, measurement_prompt, evaluation_prompt}

abbrev question_heading : KitLang → Text
question_heading de = codes "FRAGE"
question_heading en = codes "QUESTION"

abbrev mapping_line : Text → CitationQuery → Text
mapping_line domain q = q.qid ++ codes " → " ++ domain

abbrev manifest_entry : KitLang → CitationQuery → Text
manifest_entry lang q = lines (
    (codes "### " ++ q.qid)
    ∷ codes ""
    ∷ (codes "INTENT: " ++ q.intent)
    ∷ codes ""
    ∷ (question_heading lang ++ codes ":")
    ∷ q.query
    ∷ [])

abbrev protocol_text : KitLang → Text → Text → Text → Text → Text → Text
protocol_text de domain measurement evaluation mapping manifest = lines (
    (codes "# KI-Zitations-Selbsttest — " ++ domain)
    ∷ codes ""
    ∷ codes "Erstellt von Find Your AI Score. Dies misst die TATSÄCHLICHE Zitation in ChatGPT"
    ∷ codes "und Claude, was etwas anderes ist als der Readiness-Score. Eine nicht zitierte"
    ∷ codes "Seite ist nicht automatisch schwach: Autorität, Alter und Wettbewerb spielen mit,"
    ∷ codes "und die Ergebnisse schwanken zwischen Durchläufen. Nutze das, um den Live-Status"
    ∷ codes "zu sehen und Vorher/Nachher zu vergleichen."
    ∷ codes ""
    ∷ (codes "Ziel-Domain: " ++ domain)
    ∷ codes ""
    ∷ codes "## Warum der zweistufige, verblindete Aufbau"
    ∷ codes ""
    ∷ codes "Das Modell darf vor der Suche nicht wissen, welche Seite getestet wird, sonst"
    ∷ codes "misst du „kann es eine genannte Seite abrufen\" statt „findet und zitiert es dich"
    ∷ codes "von selbst\". Deshalb nennt Schritt 1 (Messung) deine Domain nie; Schritt 2"
    ∷ codes "(Auswertung) enthüllt sie und darf keine neue Suche auslösen."
    ∷ codes ""
    ∷ codes "## Für den strengsten Durchlauf"
    ∷ codes ""
    ∷ codes "Führe jede Frage in einem eigenen, frischen, leeren Chat aus (kein Kontext, keine"
    ∷ codes "Marke oder Domain), dann werte aus. Der Batch unten teilt sich einen Chat, das ist"
    ∷ codes "schneller, aber weniger unabhängig."
    ∷ codes ""
    ∷ codes "## Schritt 1 — in einen neuen, leeren ChatGPT- oder Claude-Chat einfügen"
    ∷ codes ""
    ∷ measurement
    ∷ codes ""
    ∷ codes "## Schritt 2 — nach der Antwort in DENSELBEN Chat einfügen"
    ∷ codes ""
    ∷ evaluation
    ∷ codes ""
    ∷ codes "## Testfragen (Zuordnung, bis Schritt 2 geheim halten)"
    ∷ codes ""
    ∷ mapping
    ∷ codes ""
    ∷ codes "## Vollständiges Fragen-Manifest"
    ∷ codes ""
    ∷ manifest
    ∷ codes ""
    ∷ codes "## Ergebnis lesen"
    ∷ codes ""
    ∷ (codes "- Domain zitiert = irgendeine Seite von " ++ domain ++ codes " war eine Quelle.")
    ∷ codes
        "- Exakte Seite zitiert = die konkret relevante Seite war die Quelle, nicht nur die Startseite."
    ∷ codes "- Eine reine Markennennung im Antworttext ohne Quell-URL zählt nicht als Zitation."
    ∷ codes "- NO_SEARCH- und fehlgeschlagene Fragen aus der Rate ausschließen."
    ∷ codes ""
    ∷ codes "## Grenzen"
    ∷ codes ""
    ∷ codes
        "- Ein Batch zu einem Zeitpunkt; Ergebnisse variieren je Durchlauf, Modell, Region und Datum."
    ∷ codes "- Kein offizielles oder dauerhaftes Ranking."
    ∷ codes "- Eine fehlende Zitation beweist für sich genommen keine schlechte Seitenqualität."
    ∷ codes
        "- Readiness (was der Score misst) und Zitation (was dies misst) sind verschiedene Ebenen."
    ∷ codes ""
    ∷ [])
protocol_text en domain measurement evaluation mapping manifest = lines (
    (codes "# AI Citation Self-Test Protocol — " ++ domain)
    ∷ codes ""
    ∷ codes "Generated by Find Your AI Score. This measures ACTUAL citation in ChatGPT and"
    ∷ codes "Claude, which is different from the readiness score. A page that is not cited is"
    ∷ codes "not necessarily weak: authority, age and competition all matter, and results vary"
    ∷ codes "between runs. Use this to see the live status and to compare before and after you"
    ∷ codes "apply the fixes."
    ∷ codes ""
    ∷ (codes "Target domain: " ++ domain)
    ∷ codes ""
    ∷ codes "## Why the two-step, blinded design"
    ∷ codes ""
    ∷ codes "The model must not know which site is being tested before it searches, otherwise"
    ∷ codes "you measure \"can it fetch a named page\" instead of \"does it find and cite you on"
    ∷ codes "its own\". So step 1 (measurement) never mentions your domain; step 2 (evaluation)"
    ∷ codes "reveals it and must not trigger a new search."
    ∷ codes ""
    ∷ codes "## For the strictest run"
    ∷ codes ""
    ∷ codes "Run each question in its own fresh, empty chat (no prior context, no brand or"
    ∷ codes "domain anywhere), then evaluate. The batch below shares one conversation, which is"
    ∷ codes "faster but less independent."
    ∷ codes ""
    ∷ codes "## Step 1 — paste into a new, empty ChatGPT or Claude chat"
    ∷ codes ""
    ∷ measurement
    ∷ codes ""
    ∷ codes "## Step 2 — paste into the SAME chat, after step 1 has answered"
    ∷ codes ""
    ∷ evaluation
    ∷ codes ""
    ∷ codes "## Test questions (mapping, keep private until step 2)"
    ∷ codes ""
    ∷ mapping
    ∷ codes ""
    ∷ codes "## The full question manifest"
    ∷ codes ""
    ∷ manifest
    ∷ codes ""
    ∷ codes "## How to read the result"
    ∷ codes ""
    ∷ (codes "- Domain cited = any page of " ++ domain ++ codes " appeared as a source.")
    ∷ codes "- Exact page cited = the specific relevant page was the source, not just the homepage."
    ∷ codes "- A brand mention in the answer text with no source URL does not count as a citation."
    ∷ codes "- Exclude NO_SEARCH and failed questions from the rate."
    ∷ codes ""
    ∷ codes "## Limitations"
    ∷ codes ""
    ∷ codes "- One batch at one point in time; results vary across runs, models, locales and dates."
    ∷ codes "- This is not an official or permanent ranking."
    ∷ codes "- A missing citation does not by itself prove poor page quality."
    ∷ codes
        "- Readiness (what the score measures) and citation (what this measures) are different layers."
    ∷ codes ""
    ∷ [])

abbrev protocol_of : KitLang → Text → List CitationQuery → Text
protocol_of lang domain queries =
    protocol_text lang domain (measurement_prompt queries lang) (evaluation_prompt domain lang)
      (lines (map (mapping_line domain) queries))
      (join (10 ∷ 10 ∷ []) (map (manifest_entry lang) queries))

-- The whole protocol, with ten questions at most.
unfoldable pub pro_protocol_markdown : ReportDocument → Text
pro_protocol_markdown report =
    protocol_of (kit_language report) report.meta.canonical_domain (citation_queries report 10)
