-- ===== src/Lib.antt =====
-- A verification library of the forum backend (a NestJS service on Prisma and PostgreSQL, in
-- src/). The services are modelled as functions on the database, and the theorems are about those
-- functions.
--
-- The parts and how they interact:
-- - Store (Store/Keys.antt, Store/Rows.antt): the tables of prisma/schema.prisma as lists of rows,
--   in the order of insertion, with the columns that the modelled code uses. `Tx` is a call inside
--   `prisma.$transaction`: from the database to a result with the new database, or an exception,
--   which rolls back. Ids, digests and texts that are only compared are natural numbers, an
--   instant is its number of milliseconds, NULL is `none`. An idempotency key made of a template
--   text is a constructor with its parts. `add_event` is `OutboxService.enqueue`
--   (src/outbox/outbox.service.ts).
-- - ErrorCode, Exception: src/common/exceptions/error-codes.ts and business.exception.ts. Message
--   texts are left out.
-- - Progression (Progression/Rules.antt): src/progression/progression.constants.ts and
--   progression.service.ts. `grant_in_transaction` and `reverse` are the handlers of that name;
--   the wallet service calls the former. `now` stands for each `new Date()` of one call.
-- - Access (Blocks, Sanctions, Threads, Posting): src/access/. A Prisma `where` object is the test
--   that it makes on a row. The other services ask these whether a user may see or do something.
-- - Session (Login, Refresh, Terminals): src/auth/auth-session.service.ts. Where the code commits
--   its transaction and throws after it, the model gives the error and the new database. argon2,
--   SHA-256, `trim` and `toLowerCase` are parameters, and so are the configured days; what
--   `randomUUID` gives is an argument. The JWT is given by the two claims that are signed.
-- - Economy (Amounts, Tips, Settle, Transaction): src/economy/economy.service.ts and
--   economy.constants.ts. `check_in` and `tip_transaction` are the bodies of the transactions,
--   `tip` the retry loop around the second, `tip_user`, `tip_thread` and `tip_moment` the entry
--   points, with the digest of a request as a parameter. What `randomInt(1, 4)` gives is an
--   argument; what `BigInt` reads in a text is the argument of `parse_amount`.
-- - Relations: src/users/user-relations.service.ts, which writes the blocks that
--   Access reads.
-- - Membership: src/threads/thread-members.service.ts, which asks Access for the rights of the actor
--   and writes the memberships that Access reads.
-- - Reactions: src/threads/thread-reaction.service.ts.
-- - Chat (Checks, Transactions, Sending, Handling; Calls): src/direct-messages/, which asks Access
--   for blocks and reads the follows that Relations writes. A mailbox is the store, the tables of
--   direct messages and the counters that Redis keeps. A call keeps what its steps wrote where
--   it fails later; a transaction does not. Ids are numbers that the store gives out in order. The
--   instant that the database's clock gives a new message is any function of its id, apart from the
--   instant of the call, which stands for its `Date.now()` and `new Date()`.
--   Steps, Requests, Effects, Outcomes, Keeps, Statuses and Histories carry the proofs.
-- - Invites: src/threads/thread-invite.service.ts, whose joins write the memberships of Membership.
-- - Codes: src/auth/verification-code.service.ts. The mails that were given to the mail server are
--   kept beside the table, with the time of the attempt that the code notes for them.
-- - Dice (Digits): src/dice/dice.service.ts. A text is its UTF-16 code units; the pattern of `parse` is
--   read from left to right, and what the calls of `randomInt` give is an argument. A number is
--   written with at most 20 digits, more than the bounds of the notation ask for.
-- - Outbox (Steps): src/outbox/outbox.dispatcher.ts. The table stands in the order of `created_at`;
--   the events that were given to `emitAsync` are kept beside it, and how and when each ends
--   is an argument, as are the schemas of the events, with the text of zod's error, and the number of
--   listeners. The check of a payload is that of src/outbox/domain-events.ts. `dispatch_batch` is one
--   dispatcher, and Traces says which actions it takes; Steps lets any number of dispatchers claim,
--   deliver and stop in any order.
-- - Common: lists as tables, tests, integers. Tests: concrete runs and the theorems at them.
--
-- Bounds and fuel: amounts are unbounded natural numbers, as in the code's `bigint`; an amount
-- that `parseAmount` lets through fits 64 bits, and that the columns hold the sums is not stated.
-- Two loops run on fuel: `tip`, whose three rounds are the code's own, and `digits_on`, with 20.
-- Concurrency: the retry loop is given a list of attempts, each with what other transactions did
-- before it and with how the database lets it end. Everywhere else it is an assumption that a
-- transaction is one step, and a call of direct messages too: no other transaction commits between
-- its reads and its writes. The row locks that some of the services take for this are left out;
-- the direct messages take none, and only some of their updates are conditional.
--
-- Not modelled: the lists and lookups of direct messages, `grantMany`, `listTransactions`, the
-- visibility filter of posts and its raw SQL; dice nodes in Markdown; the services for
-- registration, the content of threads, posts, moments, moderation, notifications, media and
-- search, and everything that is configuration, wiring or I/O. Their rows appear only where the
-- modelled services read or write them.
pub mod Common
pub mod ErrorCode
pub mod Exception
pub mod Store
pub mod Progression
pub mod Access
pub mod Session
pub mod Codes
pub mod Economy
pub mod Relations
pub mod Membership
pub mod Invites
pub mod Reactions
pub mod Chat
pub mod Dice
pub mod Outbox
pub mod Tests
