-- ===== src/Content/Glossary/MoreTerms.antt =====
-- Terms of the glossary: apps/web/lib/content/glossary.ts.
use geo_readiness.Common.{List, [], ◌∷◌}
use geo_readiness.Common.Text.{codes}
use geo_readiness.Content.Glossary.{GlossaryTerm}

unfoldable pub more_terms : List GlossaryTerm
more_terms =
    record {
      term = codes "AI Overviews";
      slug = codes "ai-overviews";
      def =
          codes
            "Google's generated summary that appears above the ordinary results for many searches, built from pages Google has read. Sites named in it get the visibility that used to belong to the first blue link.";
      long =
          codes
            "An AI Overview is assembled from a handful of sources Google selects, and it answers the question on the results page itself. That changes what a good position is worth: a page ranked fourth but quoted in the overview can outperform the page ranked first that is not. The sites that get pulled in tend to state a specific fact plainly, near a heading that matches the question, on a page that loads without JavaScript gymnastics.";
      related = codes "ai-answer-engine" ∷ codes "citation" ∷ codes "answer-extraction" ∷ [];
    }
    ∷ record {
      term = codes "llms.txt";
      slug = codes "llms-txt";
      def =
          codes
            "A plain-text file at the root of a site that lists its most important pages for large language models, in the way robots.txt lists crawl rules. It is a proposed convention, not a standard any engine is obliged to honour.";
      long =
          codes
            "The idea is to hand a model a short, curated map instead of making it infer one from your navigation. It costs almost nothing to publish and it cannot hurt, but be honest about the status: no major engine has committed to reading it, and it will not compensate for pages that are blocked, thin or contradictory. Treat it as a courtesy on top of a site that already works, never as a shortcut around one that does not.";
      related = codes "robots-txt" ∷ codes "crawler" ∷ codes "retrieval" ∷ [];
    }
    ∷ record {
      term = codes "robots.txt";
      slug = codes "robots-txt";
      def =
          codes
            "A file at the root of your site telling automated visitors which paths they may fetch. Many AI crawlers respect it, so a careless rule here can quietly remove you from AI answers entirely.";
      long =
          codes
            "robots.txt is the bluntest instrument on your site: one wrong line can exclude everything. It is also where AI crawlers are handled specifically, since several announce their own user agents. Blocking them is a legitimate business decision, but it should be a decision, not an accident inherited from a template. If you want to be quoted, check that the agents you care about are allowed and that your sitemap is declared here.";
      related = codes "crawler" ∷ codes "llms-txt" ∷ codes "technical-accessibility" ∷ [];
    }
    ∷ record {
      term = codes "JSON-LD";
      slug = codes "json-ld";
      def =
          codes
            "The format used to embed structured data in a page: a block of JSON in a script tag that states machine-readable facts about the page. It is the format Google recommends and the one this audit looks for.";
      long =
          codes
            "JSON-LD sits apart from your visible markup, which is why it is the practical choice: designers can change the layout without breaking the facts. What matters is that the facts are true and match what a reader sees. Schema claiming a price the page does not show, or a rating nobody left, is worse than no schema at all — it is the kind of contradiction that costs trust with both search engines and models.";
      related = codes "structured-data" ∷ codes "entity-clarity" ∷ codes "trust-signals" ∷ [];
    }
    ∷ record {
      term = codes "Canonical URL";
      slug = codes "canonical-url";
      def =
          codes
            "The one address you declare as the real home of a piece of content, when the same content is reachable at several. Without it, machines have to guess which version to trust and quote.";
      long =
          codes
            "Duplicate addresses appear on their own: with and without www, with tracking parameters, with a trailing slash, in a print view. Each one splits the evidence for that page. A canonical tag consolidates them into a single address, which is exactly what a model needs when it decides which URL to cite. It is a small tag with a large effect on whether your strongest page reads as one strong page or four weak ones.";
      related = codes "thin-content" ∷ codes "crawler" ∷ codes "retrieval" ∷ [];
    }
    ∷ record {
      term = codes "Knowledge graph";
      slug = codes "knowledge-graph";
      def =
          codes
            "A machine-held map of things and how they relate: this company, its products, its location, its people. Search engines and AI systems consult one to decide who you are before deciding whether to quote you.";
      long =
          codes
            "You do not edit a knowledge graph directly; you feed it. Consistent naming across your site, matching details in your schema, an imprint that agrees with your footer, and corroboration on independent sources are what turn a name into a recognised entity. Until that happens you are an ambiguous string, and ambiguous strings lose to competitors the machine is sure about.";
      related = codes "entity-clarity" ∷ codes "structured-data" ∷ codes "trust-signals" ∷ [];
    }
    ∷ record {
      term = codes "E-E-A-T";
      slug = codes "e-e-a-t";
      def =
          codes
            "Experience, Expertise, Authoritativeness and Trust: Google's shorthand for the qualities its raters look for in a page. It is not a score you can read anywhere, but the underlying evidence is visible on your site.";
      long =
          codes
            "E-E-A-T is often discussed as if it were a hidden metric. It is better read as a checklist of things you either show or you do not: who wrote this, what they have actually done, whether anyone independent says so, and whether the business behind the page is identifiable and reachable. Those are the same things that make a page safe for a model to quote, which is why the work overlaps almost entirely with GEO.";
      related = codes "trust-signals" ∷ codes "sourceability" ∷ codes "knowledge-graph" ∷ [];
    }
    ∷ record {
      term = codes "RAG (retrieval-augmented generation)";
      slug = codes "rag";
      def =
          codes
            "The standard way answer engines work: fetch relevant documents first, then write an answer from them. It is the reason your page content, not the model's training, decides whether you are quoted today.";
      long =
          codes
            "In a RAG system the model does not answer from memory. A retrieval step finds candidate passages, and the model writes using those. That has a practical consequence worth internalising: your pages compete at the retrieval step, before any writing happens. A page the retriever never returns cannot be cited no matter how good it is, which is why accessibility and clear, self-contained passages matter more than polish.";
      related = codes "retrieval" ∷ codes "chunking" ∷ codes "grounding" ∷ [];
    }
    ∷ record {
      term = codes "Chunking";
      slug = codes "chunking";
      def =
          codes
            "The splitting of a page into smaller passages before a machine indexes it. Each passage is judged on its own, so a fact that only makes sense with the rest of the page around it often loses.";
      long =
          codes
            "Chunking is why long, meandering pages underperform their content. If the answer to a question is spread across three paragraphs, an introduction and a table, no single chunk contains it. The fix is not shorter pages, it is self-contained sections: a heading that states the question, and an answer directly beneath it that stands up when read alone.";
      related = codes "answer-extraction" ∷ codes "rag" ∷ codes "sourceability" ∷ [];
    }
    ∷ record {
      term = codes "Embedding";
      slug = codes "embedding";
      def =
          codes
            "A numerical representation of a passage's meaning, used to match a question against your content. It is why a page can be retrieved for a question that uses none of its exact words.";
      long =
          codes
            "Embeddings mean keyword matching is no longer the whole game: a page about “winter tyre pressure” can surface for “how hard should my tyres be when it is cold”. The practical lesson is the opposite of keyword stuffing. Write the way your customers actually ask, cover the meaning fully, and stop contorting sentences around a phrase — the match happens on sense, not on spelling.";
      related = codes "retrieval" ∷ codes "rag" ∷ codes "prompt-coverage" ∷ [];
    }
    ∷ record {
      term = codes "Prompt coverage";
      slug = codes "prompt-coverage";
      def =
          codes
            "How much of what people actually ask about your kind of business your pages answer. A gap in coverage is a question where an AI system has to use somebody else's site.";
      long =
          codes
            "Coverage is measured by generating the questions a buyer would put to an answer engine about a business like yours, then checking, page by page, whether you answer them. It is the most actionable signal in an audit because every gap names a specific missing page or paragraph. It is also the one most sites are worst at: they describe what they sell, and never answer what people ask before buying it.";
      related = codes "embedding" ∷ codes "answer-extraction" ∷ codes "readiness-score" ∷ [];
    }
    ∷ record {
      term = codes "Grounding";
      slug = codes "grounding";
      def =
          codes
            "Tying a generated answer to real source documents rather than the model's own recollection. Grounded answers carry links, which is where your citation comes from.";
      long =
          codes
            "Grounding is the mechanism behind the little source links under an AI answer. It also explains a frustration site owners report: an engine describing your business wrongly. If nothing on your site states the fact plainly, there is nothing to ground on, and the model falls back on inference. Publishing the fact clearly, in text, is the only reliable correction.";
      related = codes "citation" ∷ codes "hallucination" ∷ codes "rag" ∷ [];
    }
    ∷ record {
      term = codes "First-party content";
      slug = codes "first-party-content";
      def =
          codes
            "Information only you can supply: your prices, your process, your data, your cases. It is the material an answer engine has a reason to quote, because it exists nowhere else.";
      long =
          codes
            "Rewritten industry background competes with a thousand identical pages and wins none of them. First-party content has no competition by definition. A price range, a real project with numbers, the conditions under which you decline a job — these are the passages that get lifted, because a model looking for a specific answer finds it only on your page.";
      related = codes "sourceability" ∷ codes "thin-content" ∷ codes "trust-signals" ∷ [];
    }
    ∷ record {
      term = codes "Client-side rendering";
      slug = codes "client-side-rendering";
      def =
          codes
            "Building the page in the visitor's browser with JavaScript instead of sending finished HTML. Crawlers that do not run scripts see an empty shell where your content should be.";
      long =
          codes
            "Plenty of AI crawlers fetch raw HTML and never execute JavaScript. If your content only exists after the scripts run, those crawlers see a blank page and move on — and you will not get an error, just silence. Testing this is easy: fetch your own page without JavaScript and read what comes back. Whatever is missing is invisible to a meaningful share of the machines you are trying to reach.";
      related = codes "technical-accessibility" ∷ codes "crawler" ∷ codes "retrieval" ∷ [];
    }
    ∷ record {
      term = codes "Technical accessibility";
      slug = codes "technical-accessibility";
      def =
          codes
            "Whether a machine can fetch and read your page at all: status codes, response speed, robots rules and content that exists without JavaScript. It is the precondition for every other signal.";
      long =
          codes
            "This is the least glamorous signal and the one that most often explains a bad result outright. A page behind a blocked path, a slow response, a redirect chain or a script-only render is not judged harshly by an answer engine; it is simply never considered. Fixing accessibility rarely improves anything by itself, but nothing else you fix counts until it is right.";
      related = codes "client-side-rendering" ∷ codes "robots-txt" ∷ codes "crawler" ∷ [];
    }
    ∷ []
