-- ===== src/Lib.antt =====
-- A model of the marketplace's HTTP service (src/, NestJS on a Prisma database, a subgraph and
-- Redis), and what is proved of it. Paths are from the root of the repository.
--
-- Access: src/shared/AccessControlService.ts and src/modules/auth/guards/role.guard.ts. The five
--   hierarchies that the constructor builds, `getHighestPermission` (get_highest_permission),
--   `isAuthorized` (is_authorized) and `RoleGuard.canActivate` (can_activate).
-- Database: the client that all services call, a record of operations with their documented laws
--   (Prisma), which the handlers take as a parameter; Database/Listed fills it with lists.
--   Database/Schema has the tables of prisma/schema.prisma as records (Db) and what a handler
--   answers (Outcome); Database/Rows has the lemmas on a table's rows.
-- Market: the prices. Market itself and its children Floor and Filter are
--   src/modules/collection/collectionPrice.service.ts: `getFloorPrices` (get_floor_prices) and
--   `filterFloorPriceFromSubgraph`, as functions of the events that the subgraph answers with.
--   Market/Listing and Market/Smallest are `handleFormatNFTResponse` and `getSmallestPrices` of
--   src/modules/nft/helper/nft-helper.service.ts.
-- Metric: src/commons/Metric.common.ts with config/metric.json. A collection's point comes from its
--   volume, owners and items, a user's from collections and followers, an NFT's from its creator.
--   In Metric, each case of `handleMetricUser`, `handleMetricCollection` and `handleMetricNFT` is a
--   function of the columns that it reads; Metric/Handlers has the handlers themselves, from tables
--   to tables, with the cascade from a collection to its owner to the owner's NFTs. Metric/Levels is
--   on numeric levels, Metric/Volume on levels that are texts, Metric/Points on the point and the
--   detail of a collection, Metric/Shares on those of users and NFTs, Metric/Sound,
--   Metric/Minted and Metric/Cascade on what the handlers do to the tables.
-- User: `followUser` of src/modules/user/user.service.ts (User/Follow), which writes the row of the
--   pair, the counters of both users, and then the metric; User/Counts and User/Followers are on the
--   counters, User/Toggles on the answer. `updateProfile` (User/Profile) with its checks of the unique
--   columns (User/Unique) and the mark of a verified email (User/Email).
--   `checkVerifyEmail` and `checkListVerify` (User/Verify, User/Verified). The list and the profiles
--   (User/Listing), and what they show to whom (User/Shown).
-- Session: the sessions in Redis of src/commons/Secure.common.ts (Session, with Redis as a record of
--   operations with their documented laws; Session/Stored fills it), `connect` and `refresh` of
--   src/modules/auth/ (Session/Auth) against a history of what each request opens and closes
--   (Session/History, Session/Refine), with what becomes of one token (Session/Rotate,
--   Session/Once), the sign-in of the back office in auth-cms.service.ts (Session/Office,
--   Session/Entry) after an account is created (Session/Created) and after its password is changed
--   (Session/Passwords), and `sendverifyEmail` of
--   user.service.ts (Session/Email, Session/Resend).
-- Collections: src/modules/collection/collection.service.ts: `create` and `update` (Collections,
--   Collections/Rights), `getGeneralCollectionData` (Collections/General), `findAll` with
--   `findAllCollection` of marketplace-cms.service.ts (Collections/Listing, Collections/Shown).
-- Nfts: `create` and `crawlNftInfo` of src/modules/nft/nft.service.ts, with validateUniqueField of
--   src/modules/validator/validator.service.ts (Nfts/Validator); Nfts/Keys is on sequences of
--   requests, Nfts/Names on what the validator says of a creation, Nfts/Owners is
--   getCurrentOwnersInternal and Nfts/Holders what it answers.
-- Cms: the back office: the rounds of src/modules/cms/service/launchpad-cms.service.ts with the
--   action log of cms.service.ts beside it (Cms/Rounds); Cms/RoundRows, Cms/RoundSteps and
--   Cms/Requests are on what sequences of requests keep. Cms/Collections is
--   `handleVerifyCollection` of cms.service.ts, which marks a collection and then calls the metric.
--   Cms/Accounts is the accounts of cms.service.ts, Cms/AccountSteps and Cms/AccountRequests are on
--   what sequences of requests keep of them; Cms/Projects is the projects of launchpad-cms.service.ts
--   with their rounds and collections, Cms/ProjectSteps and
--   Cms/ProjectLocks are on their update. Cms/Active is the requests
--   that show or hide a row, Cms/Hidden what they mean for the list of collections.
-- Trait: src/modules/nft/trait.service.ts, the two summaries of traits.
-- Paging: `hasNextPage` of src/commons/HasNext.common.ts with the pages that the lists read beside it
--   (Paging/Pages), and of src/commons/Other.common.ts `findIntersection` (Paging/Ranges),
--   `stringToSlug` and `stringToSlugSearch` (Paging/Slug, Paging/Clean).
-- Launchpad: src/modules/launchpad/launchpad.service.ts: the modes of `findAll` (Launchpad/Modes),
--   `subcribeProject` and `isSubscribed` (Launchpad/Subscribe, Launchpad/Subscribed).
-- Common: equality as an instance, a JavaScript `Map` as a list of entries in insertion order, the
--   array functions, the smallest element of a list under a strict order, integers, lower case.
--
-- Choices. A handler is a function from the tables to its answer and the tables after it; an
-- exception is a value, and what was written before it stays, as no handler runs in a transaction. A
-- `bigint` is an integer without bounds. A column of doubles is a type with a strict order, a
-- parameter of the functions that compare prices. Prices of the subgraph, decimal texts there, are
-- natural numbers. A uuid is a number, and the library's test of a text for one is a parameter with
-- the id that the text stands for. A date is a natural number, and the clock an argument. All loops
-- are structural recursion, so there is no fuel. The columns `metricPoint`, `metricDetail`,
-- `followers` and `following`, nullable in the schema, have defaults and no handler writes null to
-- them: they are taken to be present. The answers of the subgraph are arguments or parameters, and so
-- are the signing of tokens (jsonwebtoken), the check of a signature (ethers) and the hash of a
-- password (bcrypt). A call of Redis that the code does not wait for takes effect in the order of the
-- calls, or not at all where the store is not reached at that time. Time is in milliseconds. A foreign
-- key is written out where a request can miss it: the follower of a follow row and the round of a
-- project's round. The other foreign keys are left out. A query
-- puts rows that are equal in all that it sorts by in any order, and another query in another one:
-- Paging/Pages asks for the pages to be in one order where it needs it. A field of a request's body is
-- there or undefined; null is left out, and so are fields that the class of the body does not name.
--
-- Not modelled: start-up, logging, the HTTP layer, the clients of the database, of Redis, of the
-- subgraph and of the cloud storage, and the older src/modules/nft/old.ts, which nothing imports;
-- calls that run at the same time. Left for later: the list of NFTs, the owners of extended
-- collections, the activities, the lists of projects and rounds, the blog, the topics and the search,
-- which only read rows or write one by its id.
mod Common
pub mod Access
pub mod Database
pub mod Market
pub mod Metric
pub mod User
pub mod Trait
pub mod Paging
pub mod Launchpad
pub mod Cms
pub mod Session
pub mod Collections
pub mod Nfts
