-- ===== src/Lib.antt =====
-- Verification of the web application of the GEO readiness audit, the TypeScript code of apps/web.
--
-- The program scans a site for an anonymous visitor, sells the full report, and checks which AI
-- crawlers a site's robots.txt lets through. The parts that are modelled:
--
--   Common     strings as lists of UTF-16 code units with the operations of JavaScript strings,
--              the stable sort of arrays, Boolean tests and lists.
--   Errors     what the server code throws (apps/web/lib/auth/errors.ts and its kin).
--   Content    apps/web/lib/content: Crawlers is crawlers.ts (with its robots.txt snippets),
--              Glossary, Segments and Registry hold the tables of glossary.ts, segments.ts and
--              registry.ts, Site has their lookups, `absoluteUrl` of apps/web/lib/seo/site.ts,
--              apps/web/app/sitemap.ts and apps/web/app/robots.ts.
--   Robots     the robots.txt checker: Address is `ipv4IsPublic` and `isPublicAddress`, Fetch is
--              `fetchRobots` (both apps/web/lib/robots/fetch.ts), Parse is
--              apps/web/lib/robots/parse.ts.
--   Scans      Domain is `normalizeDomain` (apps/web/lib/scans/domain.ts), Limiter is
--              `slidingLimiter` (apps/web/lib/scans/abuse.ts), Repository is
--              apps/web/lib/scans/repository.ts, Insights is insights.ts beside it, with
--              Signals and Crawlers for its benchmarks and Distribution for distribution.ts.
--   Store      the tables and `query` and `withTransaction` of apps/web/lib/db.ts, with rules for
--              what holds after calls that may throw.
--   Auth       apps/web/lib/auth: Session is session.ts, RateLimit is rateLimit.ts, Login and
--              Account are service.ts and password.ts, Origin is csrf.ts and the guard in http.ts,
--              Cookies is the rest of http.ts and context.ts.
--   Tenant     apps/web/lib/tenant/repository.ts.
--   Report     apps/web/lib/report and readiness.ts: the data of a report (types.ts), Citation is
--              citationTest.ts, Preview is preview.ts, Markdown, Humanize, Language and Level are
--              markdown.ts, humanize.ts, crawlLanguage.ts and `scoreLevel`.
--   Pages      what apps/web/app/report/[id]/page.tsx and apps/web/app/scan/[id]/page.tsx send;
--              Pending is the state of apps/web/components/scan/ScanPending.tsx, History what
--              apps/web/components/report/ScanComparison.tsx keeps in the browser.
--   Http       the answers of route handlers.
--   Api        the handlers under apps/web/app/api: Unlock, QuickScan (with the status of a scan),
--              Accounts (auth), Checkout, CrawlerCheck and Preview.
--   Payments   apps/web/lib/payments/entitlements.ts, with Stripe and Checkout for
--              apps/web/lib/payments/stripe.ts and checkout.ts, Webhook for
--              apps/web/app/api/stripe/webhook/route.ts, and Race for redemptions whose statements
--              interleave.
--
-- Authentication, payments, tenants and the scan repository send statements to the store; the
-- webhook, the checkout and the unlock handler grant entitlements through Payments, and the pages
-- of a report and of a scan ask it whether to show the whole report or the preview. Every
-- statement may fail, at the data base's will (a text that is no UUID for a `uuid` column is one
-- reason): a world foretells the failures as a list, one for each statement, and a theorem for
-- every world covers each of them. Requests are served one after the other, each at one time, but
-- for Race, where the statements of several redemptions come in any order.
--
-- Text is modelled up to U+00FF where it is lower-cased: `toLowerCase` maps A to Z and the Latin-1
-- capitals and leaves every other code unit alone; white space is the whole set that `trim` and
-- `\s` know. `Number(text)` is exact for texts with no point in them (the program splits at points
-- first); the rounding of numerals with more than 15 digits is left out. The URL parser, the
-- resolver, the HTTP client and the clock are parameters. Loops over a collection are structural
-- recursions. The loop over redirects recurs on the rounds that are left, three at first, which is
-- the bound of the source's `for`.
--
-- Scores of reports are numbers in ten-thousandths, not below 0; an average is a sum with its
-- count. How a stored report reads (the JSON of the data base driver), the order of the data base
-- on texts and the order of `localeCompare` are parameters. A lookup in an object literal does not
-- see the properties that objects inherit.
--
-- Not modelled: the rendering of pages and components, the metadata and structured data of pages,
-- the prose of the content pages, the cache of an hour in front of the insights, the wake-up call
-- of the worker, other interleaved requests, the worker in Python, and configuration.
pub mod Api
pub mod Auth
pub mod Common
pub mod Content
pub mod Errors
pub mod Report
pub mod Robots
pub mod Scans
pub mod Http
pub mod Store
pub mod Payments
pub mod Tenant
pub mod Pages
