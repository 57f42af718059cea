-- ===== src/Lib.antt =====
-- SentinelDesk: the ticket desk and its SLA engine, as in apps/backend/src.
--
-- A customer or a member of the staff sends requests to the ticket endpoints. A request passes the
-- role guard, is checked against the database, writes a ticket and what hangs on it (comments, tags,
-- watchers, history), starts or stops the ticket's SLA clock, and notifies, audits and pushes. Every
-- minute a sweep flags tickets whose SLA was breached and raises the priority of those that are close.
--
-- Files:
-- - Prelude: tests, lists, results of fallible code, tables of rows with keys, integers.
-- - Schema: the rows and enums of apps/backend/prisma/schema.prisma that the desk uses, and the
--   authenticated user of auth/types/jwt-payload.type.ts.
-- - Store: the database as a record of tables, one function for each kind of write (`update_ticket`
--   is `prisma.ticket.update`, and so on), NotificationsService.create, AuditService.record,
--   WebhooksService.trigger, and `outbox`, the socket messages, jobs and deliveries in order.
--   A handler is `serve check writes answer`: it reads and throws first, and writes afterwards. The two
--   that upload files are `serve_rejecting`: they may throw once more after their transaction, and what
--   was written until then stays.
-- - Helpers: common/utils. Characters and Decimal, what they use of JavaScript's texts; Duration,
--   duration.util.ts; Slug, slug.util.ts; Probe, the search of a free name by trying one after another.
-- - Accounts.Schema and Store: the account tables, and `Action`, a call that reads and writes them and
--   may throw; what was written before a throw stays written.
-- - Accounts.Tokens, Links, Sessions, Signup: auth/auth.service.ts, under the names of its methods, and
--   `validate` of auth/strategies/jwt.strategy.ts. Members: users/users.service.ts. ApiKeys:
--   api-keys/api-keys.service.ts. Calls: all of them, and runs of calls. Guards: the guards of
--   common/guards in the order of app.module.ts, in front of the ticket endpoints.
-- - Accounts.Effects and its children: what each call does to statuses and sessions. Outcomes: what
--   holds whenever a call answers. Runs, Revoked, Rotation, Replay, Reset, Grants, Entry, Portals,
--   Bearers, Chain: what follows for sessions, tokens, resets, roles, logins, signups and whole requests.
-- - Sla.BusinessHours: addBusinessMinutes of sla/business-hours.util.ts. Its children: Day, one day's
--   slots; Timetable, the sorted slots; Scan, the loop over the days; Due, the function as a whole.
-- - Sla.Service: sla/sla.service.ts. Sla.Simulator: its `simulate`.
-- - Sla.Sweep: sla/sla-breach-check.service.ts. Sla.Passes and Sla.Escalation: what its checks leave.
-- - Tickets.Access, Create, Update, Lifecycle, Reply, Routing, Labels, Links: the operations of
--   tickets/tickets.service.ts on one ticket, under the names of its methods (`split` is
--   `split_ticket`). Each has a `check_` part, which ends before the first write, and a `write_` part.
-- - Tickets.Lists: buildTicketWhere, findAll, exportCsv and toTicketSummary of the same service; Csv,
--   the escaping and a reader of such text; Paging, what lists and exports show.
-- - Tickets.Endpoints: tickets/tickets.controller.ts behind common/guards/roles.guard.ts, and `run`,
--   requests and sweeps one after the other.
-- - Tickets.Effects and its children: what each endpoint does to the table of tickets.
-- - Tickets.Atomic and its child: requests that are answered with an error. Tickets.Audience and its
--   child: who is notified of comments.
-- - Tickets.Views, Customers, Runs, Clock, Workflow, Audience, Selection, Forgotten, Merges: what
--   follows for the users, the runs, the clock, the notifications, splits and merges.
-- - Tests: a concrete desk and concrete accounts, with the theorems applied to them.
--
-- Conventions: keys are numbers in place of UUIDs, which the code only compares; instants are
-- milliseconds, and the clock is read once in a request. Wall-clock seconds are whole, so the
-- fractions of a minute in addBusinessMinutes are counted in sixtieths, and the percentages of the
-- escalation are compared with both sides multiplied out. The code's loop over the days throws once
-- its counter has passed 3660, so it looks at 3661 days: that is the bound of `scan`, and not fuel of
-- the model. Luxon, the rich-text sanitizer, the object storage, which may reject a file, and the keys
-- that the database draws are parameters (`Env`, `Luxon`); `IsCalendar` says what is relied on of
-- luxon, for zones whose days begin at midnight, and `IsSteady` what holds besides of zones whose clock
-- is never changed. `contains`, `orderBy` and `toISOString` are parameters of the lists (`ListEnv`);
-- `IsOrdering` says that ordering keeps the rows, and each query has an order of its own: that two of
-- them agree is a hypothesis, `IsStable`, where it is needed.
--
-- Accounts: e-mail addresses, tokens, secrets and hashes are only compared or handed on, and are
-- numbers. bcrypt, SHA-256, randomBytes, Math.random and the signing and verifying of tokens are
-- parameters (`AuthEnv`), with no hypotheses but those that a theorem names. The loop of signup for a
-- free name runs for as many rounds as it is given; `slug_not_found_yet` stands for a loop that has not
-- ended by then. Of the unique columns, only the users' key is enforced by the model; the random values
-- in the others are taken not to collide. Accounts and the desk have tables of their own.
--
-- A request runs in one piece, and so does a sweep, whose three checks run at once in the program; the
-- interleaving of requests between their database calls is not modelled. Not modelled are also
-- the throttler, cookies, the upload of avatars, and the services around the desk: policies, knowledge base, AI, analytics, mail, sockets.
pub mod Prelude
pub mod Schema
pub mod Store
pub mod Helpers
pub mod Accounts
pub mod Sla
pub mod Tickets
pub mod Tests
