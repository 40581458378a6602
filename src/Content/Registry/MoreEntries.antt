-- ===== src/Content/Registry/MoreEntries.antt =====
-- Pages of content: apps/web/lib/content/registry.ts.
use geo_readiness.Common.{List, [], ◌∷◌}
use geo_readiness.Common.Text.{codes}
use geo_readiness.Content.Registry.{ContentEntry, explainer, guide, reference}

unfoldable pub more_entries : List ContentEntry
more_entries =
    record {
      slug = codes "/guides/structured-data";
      title = codes "Structured Data. Stop making machines guess";
      description =
          codes
            "Structured data spells out your facts in a machine-readable format so AI does not have to guess who you are. A plain-language guide to adding it, no coding degree required.";
      category = guide;
      updated = codes "2026-08-21";
    }
    ∷ record {
      slug = codes "/guides/evidence-and-trust";
      title = codes "Evidence and Trust. Show you are a real, accountable business";
      description =
          codes
            "AI favors accountable pages over anonymous ones. Here are the trust signals to add, like about, contact and evidence, most of which you already have the content for.";
      category = guide;
      updated = codes "2026-08-21";
    }
    ∷ record {
      slug = codes "/guides/technical-accessibility";
      title = codes "Technical Accessibility. Make sure machines can read your site at all";
      description =
          codes
            "The best content is worthless if a machine cannot fetch or read it. Here is how to make sure your pages are reachable, server-visible and not accidentally blocking AI.";
      category = guide;
      updated = codes "2026-08-21";
    }
    ∷ record {
      slug = codes "/for";
      title = codes "AI search readiness by site type";
      description =
          codes
            "The audit asks a comparison site different questions than a local business or a one-pager. What that means for each kind of site: the questions, what the audit reads, and the failure modes that keep coming back.";
      category = reference;
      updated = codes "2026-09-03";
    }
    ∷ record {
      slug = codes "/faq";
      title = codes "Frequently asked questions";
      description =
          codes
            "What the audit measures, what it deliberately does not, why it makes no AI-provider calls, and how to read the result. Straight answers, including the uncomfortable ones.";
      category = reference;
      updated = codes "2026-09-03";
    }
    ∷ record {
      slug = codes "/ai-crawlers";
      title = codes "AI crawlers: every user agent, and what blocking each one costs you";
      description =
          codes
            "The AI bots that read your site, taken from each vendor's own documentation: what every user-agent token does, which ones ignore robots.txt, and why blocking the training bots is a different decision from blocking the ones that put you in answers.";
      category = reference;
      updated = codes "2026-09-05";
    }
    ∷ record {
      slug = codes "/is-chatgpt-reading-my-website";
      title = codes "Is ChatGPT reading my website? How to check";
      description =
          codes
            "Four different OpenAI bots can touch your site, and they answer four different questions. How to find out which of them reach you, using your own logs, your robots.txt and a free scan.";
      category = explainer;
      updated = codes "2026-09-05";
    }
    ∷ record {
      slug = codes "/how-to-get-cited-by-chatgpt";
      title = codes "How to get cited by ChatGPT";
      description =
          codes
            "Nobody can guarantee a citation, and anyone who says otherwise is selling something. What you can do is make your page the easiest one to quote. Here is what that takes, and how to check whether it worked.";
      category = guide;
      updated = codes "2026-09-05";
    }
    ∷ record {
      slug = codes "/why-is-my-site-not-in-ai-answers";
      title = codes "Why is my site not showing up in AI answers?";
      description =
          codes
            "The causes, in the order they actually occur: blocked, unreadable, unclear, unspecific, or simply not what was asked. Work down the list and stop at the first one that is true of you.";
      category = guide;
      updated = codes "2026-09-05";
    }
    ∷ record {
      slug = codes "/should-i-block-ai-crawlers";
      title = codes "Should you block AI crawlers?";
      description =
          codes
            "A real decision with real costs on both sides, and it is not one decision but two: whether your work trains their models, and whether you appear in their answers. Who should say no, who should say yes, and what it costs either way.";
      category = guide;
      updated = codes "2026-09-05";
    }
    ∷ []
