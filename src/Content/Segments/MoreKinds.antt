-- ===== src/Content/Segments/MoreKinds.antt =====
-- Kinds of sites: apps/web/lib/content/segments.ts.
use geo_readiness.Common.{[], ◌∷◌}
use geo_readiness.Common.Text.{codes}
use geo_readiness.Content.Segments.{Segment}

unfoldable pub saas : Segment
saas = record {
  slug = codes "saas";
  name = codes "SaaS and software";
  title = codes "AI search readiness for SaaS and software companies";
  description =
      codes
        "Software buyers ask assistants for shortlists and alternatives. Getting onto those lists depends on facts your marketing site usually states everywhere except in text.";
  intro =
      codes
        "Software is the category where AI assistants are used most heavily for shortlisting, and the category where marketing sites are least willing to say anything concrete. Pricing behind a form, capabilities described as outcomes, integrations shown only as a wall of logos: each one removes a fact a model needed to include you.";
  questions =
      codes "Which provider for invoice automation is recommended?"
      ∷ codes "What are the alternatives to a helpdesk platform?"
      ∷ codes "Which providers for CRM offer suitable integrations?"
      ∷ [];
  reads =
      codes "SoftwareApplication or WebApplication schema, and its category"
      ∷ codes "Whether pricing exists as text on a page, not only inside a calculator"
      ∷ codes "Named integrations, named limits, and who the product is for, stated plainly"
      ∷ [];
  pitfalls =
      (
        codes "Pricing is “contact us”",
        codes
            "A model asked what something costs cannot answer with a form. Even a range, or a starting price with the conditions attached, puts you back into the answer.",
      )
      ∷ (
        codes "Integrations are a logo grid",
        codes
            "Logos are images. If the integration is not named in text, it does not exist for the question “which tools connect to X”, which is one of the highest-intent questions in software.",
      )
      ∷ (
        codes "Capabilities are described as benefits",
        codes
            "“Unlock your team's potential” is unquotable. What the software does, for whom, and what it does not do, is what a shortlist is built from.",
      )
      ∷ (
        codes "The comparison pages are all self-serving",
        codes
            "A comparison where you win every row reads as marketing and is treated as such. Stating where a competitor is the better fit is the single most effective trust move on a software site.",
      )
      ∷ [];
  faqs =
      (
        codes "Should we write pages comparing ourselves to competitors?",
        codes
            "Yes, if they are honest. Alternative and comparison questions are a large share of software search, and a fair page is quotable in a way an advert is not.",
      )
      ∷ (
        codes "Does our docs site count?",
        codes
            "It counts a great deal. Documentation is specific, first-party and structured — the most quotable content most software companies own, and often the part their marketing site links to least.",
      )
      ∷ [];
  updated = codes "2026-09-03";
}

unfoldable pub service_business : Segment
service_business = record {
  slug = codes "service-business";
  name = codes "Service businesses and agencies";
  title = codes "AI search readiness for service businesses and agencies";
  description =
      codes
        "Service buyers ask assistants who does this work, who is any good, and what it costs. Most agency sites answer none of the three in a form a machine can use.";
  intro =
      codes
        "A service business sells something with no specification sheet, which is why its site so often says nothing checkable. The paradox is that vagueness feels safe and reads as absence: a model comparing three agencies uses whichever one stated something, and drops the two that described their passion for their craft.";
  questions =
      codes "Which providers are there for technical SEO consulting?"
      ∷ codes "How do you recognise a trustworthy provider for brand strategy?"
      ∷ codes "Which providers offer design and development from a single source?"
      ∷ [];
  reads =
      codes "Service schema, and whether each service has a page of its own"
      ∷ codes "Named services extracted from your navigation and page titles"
      ∷ codes "Evidence: named clients, real numbers, dated work, an identifiable team"
      ∷ [];
  pitfalls =
      (
        codes "One page lists twelve services",
        codes
            "A page that mentions everything ranks for nothing and answers nothing. Each service a buyer would ask about separately needs somewhere it is the subject.",
      )
      ∷ (
        codes "The case studies name nobody",
        codes
            "Anonymous results are unverifiable and are treated that way. One named client with a real number beats ten anonymous success stories.",
      )
      ∷ (
        codes "No indication of price at all",
        codes
            "You do not have to publish a rate card. A typical project range, or the size of engagement you take on, keeps you in the answer to the question every buyer asks first.",
      )
      ∷ (
        codes "The team is a stock photo",
        codes
            "Who does the work is an expertise signal with a schema field waiting for it. An unattributed agency competes with every other unattributed agency.",
      )
      ∷ [];
  faqs =
      (
        codes "We deliberately do not publish prices. Is that fatal?",
        codes
            "No, but it is a cost. Something bounded — a starting point, a typical range, the size of project you take — recovers most of the ground without publishing a rate card.",
      )
      ∷ (
        codes "Do testimonials help?",
        codes
            "Attributed ones do. A quote with a name, a company and a date is evidence; an anonymous quote is decoration, and both models and readers treat it that way.",
      )
      ∷ [];
  updated = codes "2026-09-03";
}

unfoldable pub one_page_site : Segment
one_page_site = record {
  slug = codes "one-page-site";
  name = codes "One-page sites";
  title = codes "AI search readiness for one-page sites and landing pages";
  description =
      codes
        "A single page has one chance to say what this is, who it is for and why it is credible. Most one-pagers spend it on a slogan.";
  intro =
      codes
        "One page is not a disadvantage in AI search — a focused page can be extremely quotable. The failure mode is different from a large site's: there is no second page to carry the detail a model needs, so anything the single page leaves implicit is simply absent.";
  questions =
      codes "What should you know about agent trajectory marketplaces?"
      ∷ codes "What are the best sources to learn about this topic?"
      ∷ [];
  reads =
      codes "The page title and heading, which usually carry the only statement of what this is"
      ∷ codes "Whether any business identity exists at all: an address, a contact, an imprint"
      ∷ codes "Whether the substance is text or lives inside a hero image"
      ∷ [];
  pitfalls =
      (
        codes "The heading is a slogan",
        codes
            "“Build the future, faster” names no category. If neither the heading nor the title says what the thing is, the audit has nothing to work with, and neither does a model.",
      )
      ∷ (
        codes "The only content is above the fold",
        codes
            "A page with sixty words has nothing to retrieve. A single page can still carry a thousand words of genuine substance without becoming a website.",
      )
      ∷ (
        codes "No identity anywhere",
        codes
            "No company name, no location, no contact. A page nobody appears to be responsible for is a page nothing will quote on a question that matters.",
      )
      ∷ (
        codes "Everything is a signup form",
        codes
            "A gate before any information means there is nothing to read. Whatever you would say on the call, say some of it on the page.",
      )
      ∷ [];
  faqs =
      (
        codes "Should we build more pages just for AI search?",
        codes
            "Only where you have something to put on them. One page with real substance outperforms five pages of padding, and padding is recognisable.",
      )
      ∷ (
        codes "Can a one-page site score well?",
        codes
            "Yes. Focus is an advantage at the retrieval step. What it cannot survive is having nothing concrete on it.",
      )
      ∷ [];
  updated = codes "2026-09-03";
}
