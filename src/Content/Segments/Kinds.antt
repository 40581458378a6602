-- ===== src/Content/Segments/Kinds.antt =====
-- Kinds of sites: apps/web/lib/content/segments.ts.
use geo_readiness.Common.{[], ◌∷◌}
use geo_readiness.Common.Text.{codes}
use geo_readiness.Content.Segments.{Segment}

unfoldable pub local_business : Segment
local_business = record {
  slug = codes "local-business";
  name = codes "Local businesses";
  title = codes "AI search readiness for local businesses";
  description =
      codes
        "When somebody asks an AI assistant for a provider in their town, the answer names a handful of businesses. Here is what decides whether yours is one of them.";
  intro =
      codes
        "A local business is asked for by place, not by name. Nobody types your company into ChatGPT before they know you exist; they ask who does this work near them. That makes two things decisive: whether a machine can tell what you do, and whether it can tell where you do it. Most local sites are clear to a human on both counts and ambiguous to a machine on at least one.";
  questions =
      codes "Which providers are there for childcare in Ulm?"
      ∷ codes "Which childminders in Ulm are recommended?"
      ∷ codes "How do you recognise a trustworthy childcare provider?"
      ∷ [];
  reads =
      codes
        "LocalBusiness schema and its subtypes, including the specific ones like ChildCare, Dentist or Plumber"
      ∷ codes
          "The postal address, phone number and opening hours, and whether they agree across pages"
      ∷ codes
          "The service named in your page titles, with the town and the brand affix stripped off"
      ∷ [];
  pitfalls =
      (
        codes "The town appears only in the footer",
        codes
            "A place name in small print under the copyright is not a statement that you serve that area. The service and the place need to appear together, in a sentence, on the page about that service.",
      )
      ∷ (
        codes "The schema says Organization, not what you actually are",
        codes
            "Generic Organization markup tells a machine you exist. A LocalBusiness subtype tells it what kind of business you are, which is what a local question is matched against.",
      )
      ∷ (
        codes "The offer lives in the logo or a photo",
        codes
            "If the only place your service is named is inside an image, it does not exist for a crawler. The audit reads text; so does the model.",
      )
      ∷ (
        codes "Contact details disagree between pages",
        codes
            "A phone number that differs between the footer, the contact page and the schema is a trust problem before it is a data problem. Machines resolve the conflict by trusting none of them.",
      )
      ∷ [];
  faqs =
      (
        codes "Do I need a Google Business Profile for AI search?",
        codes
            "It helps, because it is a corroborating source, but it does not replace your own site. Answer engines read your pages directly, and a profile cannot state facts your website contradicts.",
      )
      ∷ (
        codes "We serve several towns. Do we need a page for each?",
        codes
            "You need one page per town only if you can write something genuinely different on each. Ten near-identical pages with the place name swapped is the classic doorway pattern and reads as thin content to both search engines and models.",
      )
      ∷ [];
  updated = codes "2026-09-03";
}

unfoldable pub online_shop : Segment
online_shop = record {
  slug = codes "online-shop";
  name = codes "Online shops";
  title = codes "AI search readiness for online shops";
  description =
      codes
        "Shoppers now ask an assistant what to buy before they ever reach a shop. Whether your products are in that answer depends on what your product pages state in machine-readable form.";
  intro =
      codes
        "A shop has the raw material an answer engine wants — names, prices, availability, specifications — and usually hides most of it behind scripts, images and a filter interface. The gap between what a shopper sees and what a crawler receives is wider on shops than on any other kind of site.";
  questions =
      codes "Which providers for garden saunas should be compared?"
      ∷ codes "How much does a Karibu Monterey sauna house cost?"
      ∷ codes "What are the alternatives to a barrel sauna?"
      ∷ [];
  reads =
      codes "Product schema: name, price, currency, availability, and whether the seller is you"
      ∷ codes "The product category, which is the term buyers actually search for"
      ∷ codes "Whether the price a shopper sees matches the price in the markup"
      ∷ [];
  pitfalls =
      (
        codes "The price is rendered by JavaScript",
        codes
            "A crawler that does not run scripts sees a product page with no price. Price is the single most-asked attribute in shopping questions, so this one omission removes you from most of them.",
      )
      ∷ (
        codes "Category pages have nothing but a grid",
        codes
            "The category page is the one that matches a category question, and on most shops it is a wall of tiles with no prose. A few honest paragraphs about choosing within that category is often the highest-value page a shop can add.",
      )
      ∷ (
        codes "Schema claims things the page does not show",
        codes
            "Ratings nobody left, availability that is not real, a price the page contradicts. Answer engines cross-check, and a contradiction costs more than the missing field would have.",
      )
      ∷ (
        codes "Every variant is its own thin page",
        codes
            "Twelve near-identical pages for twelve sizes split the evidence twelve ways. One strong page with variants marked up beats twelve weak ones.",
      )
      ∷ [];
  faqs =
      (
        codes "Will AI search send me traffic or just answer for me?",
        codes
            "Both happen. Transactional questions still send people to a shop to buy, and answers that name a shop are how they choose which one. Being the shop named in the answer is the goal; the click follows it.",
      )
      ∷ (
        codes "Do I need schema on every product?",
        codes
            "On every product you want to be asked about. Start with the products that carry your margin, get name, price, availability and category right there first, then widen.",
      )
      ∷ [];
  updated = codes "2026-09-03";
}

unfoldable pub comparison_site : Segment
comparison_site = record {
  slug = codes "comparison-site";
  name = codes "Comparison and finder sites";
  title = codes "AI search readiness for comparison and finder sites";
  description =
      codes
        "A comparison site is not a seller, and it should not be tested as one. Here is what answer engines actually ask a finder, and what decides whether it is the source they use.";
  intro =
      codes
        "A finder, a comparison site or an affiliate guide lists products it does not sell. That distinction matters more than it sounds: the questions worth winning are not about who supplies a particular model, they are about the decision. Somebody choosing between categories, budgets and types is exactly the reader a comparison site is built for, and exactly the question an answer engine has to source from somewhere.";
  questions =
      codes "Finnish sauna: what should you look out for when buying?"
      ∷ codes "Infrared cabin: what costs should you expect?"
      ∷ codes "Which providers for barrel saunas are there?"
      ∷ [];
  reads =
      codes "Whether the offers on your product pages name you or the manufacturer as the seller"
      ∷ codes "Whether the offer links point to your domain or to somebody else's"
      ∷ codes
          "The Product category field, which supplies the term the decision is actually asked in"
      ∷ [];
  pitfalls =
      (
        codes "The site reads as a shop it is not",
        codes
            "Product pages with full commerce markup and no signal of who sells make a finder look like a failing retailer. Naming the real seller in the offer is both more honest and better-read.",
      )
      ∷ (
        codes "Everything is a specification table",
        codes
            "Tables compare; they do not advise. The passage that gets quoted is the one that says which option suits which buyer and why, in sentences.",
      )
      ∷ (
        codes "There is no page for the category itself",
        codes
            "If every page is one product, there is nothing to match the category question, which is where most of the demand sits. A serious guide to the category is usually the missing page.",
      )
      ∷ (
        codes "The comparison criteria are unstated",
        codes
            "A model deciding whether to trust a ranking looks for how it was made. Saying what you compared, and what you did not, is a trust signal and a differentiator at once.",
      )
      ∷ [];
  faqs =
      (
        codes "How does the audit know we do not sell what we list?",
        codes
            "From your own markup. If the offer names another company as the seller, or the offer link leaves your domain, the audit treats those products as covered rather than sold, and asks category-level questions instead of asking who supplies a single model.",
      )
      ∷ (
        codes "Do affiliate links hurt AI search readiness?",
        codes
            "Not in themselves. What hurts is a page that is only links: no independent judgement, no criteria, nothing a model could quote that it could not get from the manufacturer.",
      )
      ∷ [];
  updated = codes "2026-09-03";
}
