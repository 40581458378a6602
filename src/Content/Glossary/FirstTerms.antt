-- ===== src/Content/Glossary/FirstTerms.antt =====
-- Terms of the glossary: apps/web/lib/content/glossary.ts.
use geo_readiness.Common.{List, [], ◌∷◌}
use geo_readiness.Common.Text.{codes}
use geo_readiness.Content.Glossary.{GlossaryTerm}

unfoldable pub first_terms : List GlossaryTerm
first_terms =
    record {
      term = codes "AI answer engine";
      slug = codes "ai-answer-engine";
      def =
          codes
            "A tool that answers a question with written text instead of a list of links, such as ChatGPT, Gemini, Perplexity or Google's AI overviews. It builds its answer partly from information it reads on websites.";
      long =
          codes
            "Unlike a search engine that returns ten blue links, an answer engine composes one written response and decides for itself which pages to read and quote. That moves the goal from ranking a link to being one of the few sources the model actually pulls facts from. If your pages are slow to fetch, blocked, or vague, the engine simply assembles its answer from someone else.";
      related = codes "geo" ∷ codes "retrieval" ∷ codes "citation" ∷ [];
    }
    ∷ record {
      term = codes "GEO (Generative Engine Optimization)";
      slug = codes "geo";
      def =
          codes
            "The work of making your website easy for AI answer engines to find, trust and quote. The goal is not to rank a link, but to have your facts used inside an AI-generated answer.";
      long =
          codes
            "GEO covers everything that makes your facts usable inside a generated answer: being reachable, being unambiguous about who you are, stating claims plainly, and backing them with evidence a model trusts. It overlaps with SEO on fundamentals like crawlability and clean structure, but the finish line is a citation inside an answer, not a position on a results page. A readiness score measures how close a site is to that.";
      related = codes "seo" ∷ codes "readiness-score" ∷ codes "sourceability" ∷ [];
    }
    ∷ record {
      term = codes "SEO (Search Engine Optimization)";
      slug = codes "seo";
      def =
          codes
            "The work of getting your pages to rank well in traditional search results. GEO and SEO share many fundamentals but aim at different finish lines.";
      long =
          codes
            "SEO optimizes for a ranked list of links, where clicks and backlinks carry a lot of weight. GEO reuses the same technical groundwork — reachable pages, clean structure, clear entities — but adds a heavier emphasis on extractable, well-sourced statements. A site can rank well and still be a weak source for an answer engine, and closing that gap is the point of GEO.";
      related = codes "geo" ∷ codes "retrieval" ∷ codes "structured-data" ∷ [];
    }
    ∷ record {
      term = codes "Retrieval";
      slug = codes "retrieval";
      def =
          codes
            "The step where a system finds and fetches your page. If a page is blocked, unreachable, or clearly not about the topic asked, it is never retrieved, and nothing else matters.";
      long =
          codes
            "Retrieval is the first gate: before a model can trust or quote a page, it has to fetch and read it. A robots rule, an aggressive bot filter, or content that only appears after heavy JavaScript can all leave the crawler with an empty or missing page. This is why technical accessibility is scored first — everything downstream depends on it.";
      related = codes "crawler" ∷ codes "citation" ∷ codes "answer-extraction" ∷ [];
    }
    ∷ record {
      term = codes "Citation";
      slug = codes "citation";
      def =
          codes
            "When an AI answer credits or quotes your page as a source. To be cited, your claims usually need to be specific and backed by identifiable evidence the system trusts.";
      long =
          codes
            "A citation is the payoff of GEO: the model not only read your page but chose it as the source worth naming. Specific, verifiable claims — numbers, dates, named sources — are cited far more often than broad marketing copy. Trust signals like a real about page, contact details and references raise the odds a model is willing to attribute an answer to you.";
      related = codes "trust-signals" ∷ codes "sourceability" ∷ codes "ai-answer-engine" ∷ [];
    }
    ∷ record {
      term = codes "Answer extraction";
      slug = codes "answer-extraction";
      def =
          codes
            "The step where the system lifts a specific fact from your page into its answer, like a price, a definition, a step or a yes or no. Content written as clear, self-contained statements extracts cleanly. Vague copy does not.";
      long =
          codes
            "Extraction rewards writing that answers a question in one place, in plain words, without needing the surrounding page for context. A sentence like \"Our 8.4 kW systems offset about 92% of a typical home's annual use\" extracts cleanly; \"industry-leading efficiency\" gives a model nothing to lift. Tables, lists and direct question-and-answer phrasing all make extraction easier.";
      related = codes "sourceability" ∷ codes "structured-data" ∷ codes "citation" ∷ [];
    }
    ∷ record {
      term = codes "Structured data (schema)";
      slug = codes "structured-data";
      def =
          codes
            "Hidden labels in your page's code that state facts in a machine-readable format, for example that a block of text is your business's name, address and phone number. It removes guesswork for machines.";
      long =
          codes
            "Structured data (usually JSON-LD) states facts in a format machines read directly, instead of inferring them from layout. Organization, Product, Service, FAQ and Article schema tell a model exactly who you are and what you offer, which reduces mistakes and hallucinations. It is one of the seven signals the readiness score checks, because it turns implicit facts into explicit, extractable ones.";
      related = codes "entity-clarity" ∷ codes "sourceability" ∷ codes "answer-extraction" ∷ [];
    }
    ∷ record {
      term = codes "Entity clarity";
      slug = codes "entity-clarity";
      def =
          codes
            "How obvious it is what your business is called, what it does and where it operates. Low entity clarity means AI systems leave you out of specific, local or branded answers.";
      long =
          codes
            "Entity clarity is whether a machine can pin down, unambiguously, who you are — your name, what you do, and where you operate. When those facts are scattered, implied or inconsistent across pages, a model hedges and leaves you out of specific or local answers. A clear business name, consistent details, and Organization schema all raise it.";
      related = codes "structured-data" ∷ codes "trust-signals" ∷ codes "geo" ∷ [];
    }
    ∷ record {
      term = codes "Sourceability";
      slug = codes "sourceability";
      def =
          codes
            "How usable your content is as a source. It asks whether there are concrete facts and figures, attributed claims, and information laid out in extractable structures like tables and lists.";
      long =
          codes
            "Sourceability is the difference between a page a model can quote and one it can only skim. Concrete figures, attributed claims and information laid out in tables or lists give an engine something specific to lift; generic prose does not. It is one of the strongest levers on whether your facts end up inside an answer.";
      related = codes "answer-extraction" ∷ codes "citation" ∷ codes "trust-signals" ∷ [];
    }
    ∷ record {
      term = codes "Crawler (bot)";
      slug = codes "crawler";
      def =
          codes
            "An automated program that fetches web pages. Search engines and AI systems use crawlers to read the web. Crawlers read the raw page and often do not run all of a site's scripts.";
      long =
          codes
            "A crawler fetches the raw HTML your server returns, and many crawlers do not run all of your JavaScript. If your headline, prices or copy are only assembled by scripts in the browser, a crawler can see an almost empty page. Server-rendered or static content, and a robots.txt that does not block your real pages, keep crawlers able to read you.";
      related = codes "retrieval" ∷ codes "structured-data" ∷ codes "thin-content" ∷ [];
    }
    ∷ record {
      term = codes "Thin content and doorway pages";
      slug = codes "thin-content";
      def =
          codes
            "Mass-produced pages with little unique value, for example the same page repeated with only a city name swapped. Search engines demote these, and AI systems ignore them. The fix is genuine, unique content per page, not cosmetic variation.";
      long =
          codes
            "Thin or doorway pages are churned out at scale with barely any unique value — the same template with a city or keyword swapped. Search engines demote them and answer engines ignore them, because there is nothing specific worth quoting. The fix is never more near-duplicate pages; it is genuine, distinct content on each page that earns its place.";
      related = codes "sourceability" ∷ codes "crawler" ∷ codes "readiness-score" ∷ [];
    }
    ∷ record {
      term = codes "Hallucination";
      slug = codes "hallucination";
      def =
          codes
            "When an AI system states something confidently that is wrong or made up. Clear, specific, well-sourced pages reduce the chance a system guesses wrongly about your business.";
      long =
          codes
            "A hallucination is a confident but wrong statement a model invents when it lacks a solid source. When your own pages are vague or contradictory, a model is more likely to fill the gap with a guess about your business. Clear, specific, structured facts give it something real to rely on instead, which is one reason entity clarity and structured data matter.";
      related = codes "entity-clarity" ∷ codes "structured-data" ∷ codes "trust-signals" ∷ [];
    }
    ∷ record {
      term = codes "Trust signals";
      slug = codes "trust-signals";
      def =
          codes
            "Checkable evidence that you are a real, accountable business. This includes an about page, contact and legal details, references or case studies, and claims backed by sources. AI systems favor accountable pages over anonymous ones.";
      long =
          codes
            "Trust signals are the checkable evidence that a real, accountable business stands behind a page: an about page, contact and legal details, named references, and claims backed by sources. Answer engines lean toward accountable pages because attributing an answer to an anonymous site is risky. Adding this evidence is often the difference between being read and being cited.";
      related = codes "citation" ∷ codes "entity-clarity" ∷ codes "sourceability" ∷ [];
    }
    ∷ record {
      term = codes "Readiness score";
      slug = codes "readiness-score";
      def =
          codes
            "A measurement of how prepared your website is to be read, trusted and quoted by AI systems. It is a diagnostic of your site's readiness. It is not a promise of rankings, traffic or actual AI mentions.";
      long =
          codes
            "A readiness score condenses seven signals — from technical accessibility to evidence and trust — into a single 0 to 100 diagnostic of how ready your site is to be found, trusted and quoted. It is deterministic: the same site scores the same way every time, and every point traces back to something observed on your pages. It measures readiness, not outcomes — no tool controls what an AI system ultimately says.";
      related = codes "geo" ∷ codes "sourceability" ∷ codes "trust-signals" ∷ [];
    }
    ∷ record {
      term = codes "AEO (Answer Engine Optimization)";
      slug = codes "aeo";
      def =
          codes
            "Another name for the same job as GEO: preparing a site so answer engines can use it. The two terms are used interchangeably, with AEO emphasising the answer and GEO the generative model producing it.";
      long =
          codes
            "There is no meaningful technical difference between AEO and GEO, and no standards body has separated them. Both describe making a page reachable, unambiguous and quotable so a model composing an answer has something concrete to lift. If a vendor insists the two are different disciplines requiring separate budgets, ask them which specific checks differ. In practice the work is one list: be crawlable, state facts plainly, mark them up, and back them with evidence.";
      related = codes "geo" ∷ codes "seo" ∷ codes "ai-answer-engine" ∷ [];
    }
    ∷ []
