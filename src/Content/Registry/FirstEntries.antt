-- ===== src/Content/Registry/FirstEntries.antt =====
-- Pages of content: apps/web/lib/content/registry.ts.
use geo_readiness.Common.{List, [], ◌∷◌}
use geo_readiness.Common.Text.{codes}
use geo_readiness.Content.Registry.{ContentEntry, explainer, comparison, guide, reference}

unfoldable pub first_entries : List ContentEntry
first_entries =
    record {
      slug = codes "/what-is-geo";
      title = codes "What is GEO? AI Search Readiness explained";
      description =
          codes
            "Generative Engine Optimization (GEO) means making your website easy for AI answer engines to find, trust and quote. Here is what that means for your business, in plain language.";
      category = explainer;
      updated = codes "2026-08-21";
    }
    ∷ record {
      slug = codes "/methodology";
      title = codes "How scoring works";
      description =
          codes
            "How Find Your AI Score turns your website into a 0 to 100 readiness score: the seven weighted components, the three readiness stages, and the deterministic, versioned rules behind every point.";
      category = reference;
      updated = codes "2026-08-26";
    }
    ∷ record {
      slug = codes "/how-ai-reads-your-website";
      title = codes "How AI answer engines read your website";
      description =
          codes
            "ChatGPT, Gemini and Perplexity do not browse like a person. They fetch pages, extract facts and decide what to quote. Here is what actually happens to your site, and why it matters.";
      category = explainer;
      updated = codes "2026-08-21";
    }
    ∷ record {
      slug = codes "/geo-vs-seo";
      title = codes "GEO vs SEO. What is the difference?";
      description =
          codes
            "SEO gets your page ranked. GEO gets your facts quoted in an AI answer. They overlap, but they are not the same job. A plain-language comparison for business owners.";
      category = comparison;
      updated = codes "2026-08-21";
    }
    ∷ record {
      slug = codes "/glossary";
      title = codes "GEO and AI search glossary";
      description =
          codes
            "Clear, jargon-free definitions of the terms behind AI search readiness, from answer extraction to structured data, so the rest of it actually makes sense.";
      category = reference;
      updated = codes "2026-08-21";
    }
    ∷ record {
      slug = codes "/guides/entity-clarity";
      title = codes "Entity Clarity. Make it obvious who your business is";
      description =
          codes
            "AI systems leave you out of specific, local and branded answers when it is unclear what your business is called, what it does and where it operates. Here is how to fix that.";
      category = guide;
      updated = codes "2026-08-21";
    }
    ∷ record {
      slug = codes "/guides/offer-clarity";
      title = codes "Offer Clarity. State what you sell, plainly";
      description =
          codes
            "If your products, services and prices are vague or trapped in images, an AI cannot recommend them. Make your offer unmistakable to both people and machines.";
      category = guide;
      updated = codes "2026-08-21";
    }
    ∷ record {
      slug = codes "/guides/prompt-coverage";
      title = codes "Prompt Coverage. Answer the questions customers actually ask";
      description =
          codes
            "AI answers specific questions. If no page clearly addresses one, a competitor's page does. Here is how to find and cover the questions that matter for your business.";
      category = guide;
      updated = codes "2026-08-21";
    }
    ∷ record {
      slug = codes "/guides/sourceability";
      title = codes "Sourceability. Make your content quotable by AI";
      description =
          codes
            "To be quoted, your pages need concrete facts, attributed claims and extractable structure, not vague marketing copy. Here is how to write content an AI can actually lift.";
      category = guide;
      updated = codes "2026-08-21";
    }
    ∷ []
