-- ===== src/Lib.antt =====
-- Verification library of the help desk: the NestJS service of apps/api and its PostgreSQL and
-- Redis state. The service has a module per concern, each a class over the shared tables: auth
-- (apps/api/src/auth) signs staff in and guards every request; the tickets module
-- (apps/api/src/modules/tickets) changes tickets behind the department access policy; the SLA
-- module (apps/api/src/modules/sla) computes due dates in working time, for the tickets, and
-- escalates the breaches that its periodic check finds; the workflow module applies the rules of
-- the administrators.
--
-- Prelude: Boolean tests, lists, and tables as lists of rows with the query operations (findFirst,
-- updateMany and its count, deleteMany).
--
-- Auth.Store, Auth.Throttle: the rows of Staff, RefreshToken and PasswordReset; what
-- login-throttle.service.ts and token-blocklist.service.ts keep in Redis (`block`, `is_blocked`,
-- `revoke_staff_access_before`, `is_staff_token_stale`, `assert_not_throttled`, `record_failure`,
-- `clear`). Auth.Tokens, Auth.Refresh, Auth.Sessions, Auth.Reset: auth.service.ts and
-- session-revocation.service.ts, under the same names in snake case. `refresh` is composed of
-- `prepare` (its reads), `rotate` (its transaction) and `settle` (what follows), since other
-- requests run between these. Auth.Guard: `canActivate` of jwt-auth.guard.ts. Auth.Interleaving:
-- the parts of the requests as steps on shared tables, in any order.
--
-- Sla.WorkTime: `addWorkingSeconds` and `computeDueDates` of sla.service.ts. Sla.Store,
-- Sla.Actions, Sla.Breach: `checkBreaches`, `runPeriodicCheck`, `processBreach` and the escalation
-- actions, with `createInternalNotificationEmail` of apps/api/src/modules/mail/mail.service.ts.
--
-- Tickets.Store, Tickets.Access: the rows, and ticket-access-policy.service.ts.
-- Tickets.Operations, Tickets.Merging: `assign`, `changeStatus`, `changePriority`, `changeType`,
-- `bulkAction`, `merge`, `addWatcher` and `removeWatcher` of tickets.service.ts.
--
-- Workflow.Matching: apps/api/src/modules/workflow/workflow-matching.ts, the criteria and the plan
-- of a rule. Workflow.Chain: its projection of the ordered rules, and the loop of
-- workflow.executor.ts on the scalar fields; the rules run on a ticket after its events. A ticket
-- is there the JavaScript object it is, a list of named values.
--
-- Common.Email: `normalizeEmail` of apps/api/src/common/email.util.ts.
--
-- Mail: the durable outbox of apps/api/src/modules/mail/mail.service.ts. Other modules store a
-- command there in their own transaction, and workers transmit it. Mail.Store: the rows.
-- Mail.Outbox: the updates, each of them one statement or transaction (`claim`, `extendLease`,
-- `markSent`, `markAmbiguousAfterSmtpAcceptance`, `recordDeliveryFailure`, `classifyFailure`,
-- `markStaleProcessingAmbiguous`). Mail.Delivery: `processOutboundEmail`, in its parts before and
-- after the SMTP attempt, `recoverDurableOutbox` and `retryOutboundEmail`. Mail.Workers: these
-- parts as steps of workers, recovery scans and operators, with the acceptances of the relay as
-- history. Mail.Commands, Mail.PlainText: the creation of commands, where the table may change
-- between the first read and the insert.
--
-- Inbound: the ledger of received messages of apps/api/src/modules/mail/inbound.service.ts, from
-- which workers make tickets and replies. Inbound.Store: the rows and the gates of the
-- configuration. Inbound.Claim: `runDrainDeliveries` and `processDelivery`. Inbound.Access,
-- Inbound.Operators: mail-access-policy.service.ts, and `replayQuarantined` and
-- `promoteCaptured` of email-queue.service.ts. Inbound.Writers: the owner that `finalize` gives to
-- copies, and the retention of raw messages. Inbound.Workers: all these as steps.
-- Inbound.Identity: `claimRealMessage`. Inbound.Routing: `resolveInboundRoute` for a ledger row.
-- Inbound.Patterns, Inbound.Rules: the parser rules and the senders of replies.
--
-- Security.Capacity: apps/api/src/security/attachment-capacity.service.ts.
-- Tickets.Recipients: the recipients of a staff reply in tickets.service.ts.
--
-- The theorems stand in the other modules of each part, and their examples in its Tests.
--
-- Ids, digests, raw tokens and passwords are natural numbers, since the code only compares them or
-- hands them to a library. Times are milliseconds since the epoch. A transaction is a function of
-- the tables it finds; where it throws, the result is an error or `none` and the tables stay. A
-- Redis that does not answer is a Boolean of its state. argon2, JWT signing, SHA-256, HMAC, the
-- random values, the answers of the mailer and of the template renderer, and the operations of the
-- JavaScript runtime on texts are parameters. Of the SMTP library it is taken that a message which
-- the relay took is reported as accepted or as an error of a lost or timed-out connection
-- (Mail.Workers.IsUncertain). The result of an SMTP attempt, of reading a raw message and of parsing
-- and routing it is an argument of the step that uses it. The checks and the claim that begin a
-- delivery are one step of Mail.Workers. The only bounded loop is that of `addWorkingSeconds`: its 60
-- days are the source's own bound, not one of the model.
--
-- Not modelled: audit rows, notification commands (but those of the SLA), domain events and log
-- lines of the ticket operations, the tags and notes of the workflow actions, HTTP controllers and
-- cookies, the bodies and headers of outgoing mail and its attachments, the acceptance of messages
-- from IMAP and PIPE with its cursors and raw storage, the in-process guard of a delivery and the
-- writes of its owner during the work, the order of the decisions on a parsed message, the other
-- operations on mail queues, storage of attachments, client login, reports, the other modules of
-- apps/api, and the web client.
pub mod Prelude
pub mod Auth
pub mod Sla
pub mod Tickets
pub mod Common
pub mod Mail
pub mod Inbound
pub mod Security
pub mod Workflow
