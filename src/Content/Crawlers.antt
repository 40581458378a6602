-- ===== src/Content/Crawlers.antt =====
-- The AI crawlers that the site documents: apps/web/lib/content/crawlers.ts.
use geo_readiness.Common.{Bool, true, false, Option, none, some, List, [], ◌∷◌, ◌++◌, map, keep}
use geo_readiness.Common.Text.{Text, codes, join}

pub data CrawlerPurpose : Type 0 where
  search training user ads : CrawlerPurpose

pub record Crawler : Type 0 where
  pub token : Text
  pub company : Text
  pub purpose : CrawlerPurpose
  pub what : Text
  pub obeys_robots : Bool
  pub note : Option Text

unfoldable pub purpose_label : CrawlerPurpose → Text
purpose_label search = codes "Search & answers"
purpose_label training = codes "Model training"
purpose_label user = codes "User-triggered fetch"
purpose_label ads = codes "Ad verification"

unfoldable pub purpose_blurb : CrawlerPurpose → Text
purpose_blurb search =
    codes
      "These decide whether you can appear in an AI answer at all. Blocking one removes you from that product's results."
purpose_blurb training =
    codes
      "These collect content that may be used to train models. Blocking them is a rights and licensing decision; it does not remove you from search or answers."
purpose_blurb user =
    codes
      "These fetch a page because a person asked about it right now. Two of them state outright that they do not follow robots.txt, because a human initiated the request."
purpose_blurb ads =
    codes
      "These check pages submitted as advertisements. Only relevant if you advertise on that platform."

unfoldable pub crawlers : List Crawler
crawlers =
    record {
      token = codes "OAI-SearchBot";
      company = codes "OpenAI";
      purpose = search;
      what = codes "Surfaces websites in ChatGPT's search features.";
      obeys_robots = true;
      note = some (
          codes
            "This is the one that decides whether you can show up in ChatGPT search results. Block it and you are out.");
    }
    ∷ record {
      token = codes "GPTBot";
      company = codes "OpenAI";
      purpose = training;
      what = codes "Crawls content that may be used to train OpenAI's foundation models.";
      obeys_robots = true;
      note = some (
          codes
            "The bot most often blocked by mistake in place of OAI-SearchBot. Blocking GPTBot does not affect ChatGPT search.");
    }
    ∷ record {
      token = codes "ChatGPT-User";
      company = codes "OpenAI";
      purpose = user;
      what = codes "Fetches a page live when a person or a custom GPT asks about it.";
      obeys_robots = false;
      note = some (
          codes
            "OpenAI states this does not follow robots.txt, because the action is initiated by a user rather than by a crawl.");
    }
    ∷ record {
      token = codes "OAI-AdsBot";
      company = codes "OpenAI";
      purpose = ads;
      what = codes "Validates the safety of pages submitted as ads on ChatGPT.";
      obeys_robots = true;
      note = none;
    }
    ∷ record {
      token = codes "Claude-SearchBot";
      company = codes "Anthropic";
      purpose = search;
      what =
          codes
            "Analyses content to improve the relevance and accuracy of search results in Claude.";
      obeys_robots = true;
      note = none;
    }
    ∷ record {
      token = codes "ClaudeBot";
      company = codes "Anthropic";
      purpose = training;
      what = codes "Collects web content that may contribute to training Anthropic's models.";
      obeys_robots = true;
      note = none;
    }
    ∷ record {
      token = codes "Claude-User";
      company = codes "Anthropic";
      purpose = user;
      what = codes "Accesses a page when a Claude user asks a question that needs it.";
      obeys_robots = true;
      note = some (
          codes
            "Unlike its OpenAI and Perplexity equivalents, Anthropic states this one does honour robots.txt.");
    }
    ∷ record {
      token = codes "PerplexityBot";
      company = codes "Perplexity";
      purpose = search;
      what = codes "Surfaces and links websites in Perplexity's results.";
      obeys_robots = true;
      note = some (codes "Perplexity states this is not used for model training.");
    }
    ∷ record {
      token = codes "Perplexity-User";
      company = codes "Perplexity";
      purpose = user;
      what = codes "Visits pages to answer a question a user just asked.";
      obeys_robots = false;
      note = some (
          codes
            "Perplexity states this generally ignores robots.txt, because a user initiated the request.");
    }
    ∷ record {
      token = codes "Google-Extended";
      company = codes "Google";
      purpose = training;
      what =
          codes
            "Controls whether your content trains Gemini models and grounds their answers. Not a crawler of its own.";
      obeys_robots = true;
      note = some (
          codes
            "Google states this has no effect on inclusion in Google Search and is not a ranking signal.");
    }
    ∷ record {
      token = codes "Applebot";
      company = codes "Apple";
      purpose = search;
      what = codes "Powers search in Spotlight, Siri and Safari.";
      obeys_robots = true;
      note = none;
    }
    ∷ record {
      token = codes "Applebot-Extended";
      company = codes "Apple";
      purpose = training;
      what = codes "Opts your content out of training Apple's generative models.";
      obeys_robots = true;
      note = some (
          codes
            "Apple states it does not crawl pages at all, and that disallowing it leaves you in Spotlight, Siri and Safari results.");
    }
    ∷ record {
      token = codes "CCBot";
      company = codes "Common Crawl";
      purpose = training;
      what =
          codes
            "Builds the open Common Crawl corpus, which many model builders use as a training source.";
      obeys_robots = true;
      note = some (
          codes
            "Blocking it reaches further than one vendor, since the corpus is public and widely reused.");
    }
    ∷ []

-- Each company with the page of its documentation.
unfoldable pub sources : List (Text × Text)
sources =
    (codes "OpenAI", codes "https://developers.openai.com/api/docs/bots")
    ∷ (
      codes "Anthropic",
      codes
          "https://support.claude.com/en/articles/8896518-does-anthropic-crawl-data-from-the-web-and-how-can-site-owners-block-the-crawler",
    )
    ∷ (codes "Perplexity", codes "https://docs.perplexity.ai/guides/bots")
    ∷ (
      codes "Google",
      codes "https://developers.google.com/search/docs/crawling-indexing/google-common-crawlers",
    )
    ∷ (codes "Apple", codes "https://support.apple.com/en-us/119829")
    ∷ (codes "Common Crawl", codes "https://commoncrawl.org/ccbot")
    ∷ []

abbrev pub verified_on : Text
verified_on = codes "2026-09-05"

-- `a === b` on purposes.
abbrev pub same_purpose : CrawlerPurpose → CrawlerPurpose → Bool
same_purpose search search = true
same_purpose training training = true
same_purpose user user = true
same_purpose ads ads = true
same_purpose _ _ = false

unfoldable pub crawlers_by_purpose : CrawlerPurpose → List Crawler
unfolding crawlers
crawlers_by_purpose purpose = keep (λ c. same_purpose c.purpose purpose) crawlers

-- The two rules that a snippet can hold.
pub data SnippetRule : Type 0 where
  allow_root disallow_root : SnippetRule

abbrev pub rule_text : SnippetRule → Text
rule_text allow_root = codes "Allow: /"
rule_text disallow_root = codes "Disallow: /"

-- One entry of a snippet.
abbrev pub snippet_entry : SnippetRule → Text → Text
snippet_entry rule t = codes "User-agent: " ++ t ++ 10 ∷ rule_text rule

-- A robots.txt for a set of tokens.
unfoldable pub robots_snippet : List Text → SnippetRule → Text
robots_snippet tokens rule = join (10 ∷ 10 ∷ []) (map (snippet_entry rule) tokens)
