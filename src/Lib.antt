-- ===== src/Lib.antt =====
-- Verification of Monica Companion, a chat assistant that reads and changes the contacts of a Monica
-- instance. The core of the program is how a change gets from a message to Monica, and this library
-- models that path:
--
--   - the agent of the ai-router service talks to a language model. A tool call that changes data is
--     not executed but stored as the pending call of the user, who is asked to confirm it; a callback
--     confirms, cancels or edits it (services/ai-router/src/agent);
--   - a confirmed call becomes a command for the scheduler service, whose execute route claims the
--     command's idempotency key and runs the command or queues it (services/scheduler/src/routes);
--   - the command worker sends the mapped request to Monica, completes the key and notifies the user
--     (services/scheduler/src/workers, services/scheduler/src/lib/command-mapper.ts);
--   - the idempotency store keeps keys and results (packages/idempotency/src/store.ts).
--
-- Around this path stand the other end of it, the buttons of the telegram bridge whose callbacks
-- reach the agent (services/telegram-bridge/src/bot), and the resolution of contacts in the ai-router
-- (services/ai-router/src/contact-resolution); the guardrails of calls to a model
-- (packages/guardrails/src); the reminders of the scheduler (services/scheduler/src/workers); the
-- check of Monica's URLs (packages/monica-api-lib/src/url-validation.ts); and in user-management the
-- life of a user: setup tokens, onboarding, disconnecting and the purge of the data
-- (services/user-management/src).
--
-- Which file models what:
--
--   - Base, Base/Tests, Base/Lists: names of the library that all files share, Boolean tests, and
--     lists over native numbers. Sql: SELECT, UPDATE, DELETE, INSERT and upsert over a table as the list
--     of its rows, with the lemmas on primary keys. Json: JSON values. Effects: what a promise or a
--     fetch comes to.
--   - Idempotency: IdempotencyStore, one function for each SQL statement (reclaim and insert make up
--     claim), and `step` and `run` for schedules of statements. Its children prove.
--   - Scheduler/Command: ConfirmedCommandPayload and mapCommandToMonicaRequest. Scheduler/Worker:
--     processCommandJob and resolveConnectorRouting. Scheduler/Execute: the handler of POST /execute,
--     and `serve` for a sequence of requests. Their children prove.
--   - Agent/Messages, Agent/Tools: chat messages; tools.ts, with the schemas and the descriptions.
--   - Agent/History: history-repository.ts and pending-tool-call.ts. Agent/World: the state of the
--     agent, the outside world, and the monad of asynchronous code that may throw.
--   - Agent/Mutating: mutating-handlers.ts and the client of the scheduler.
--   - Agent/Turn: the loop over the tool calls of one answer, and executeReadOnlyTool. Agent/Loop: the
--     loops over answers. Agent/Callback: handleConfirm, handleCancel, handleEdit, handleCallback and
--     the handling of a text. Agent/Run: repairHistory and runAgentLoop.
--   - Agent/Frame, Agent/Sends, Agent/Quiet, Agent/Safety, Agent/Others, Agent/Repair,
--     Agent/Prompts, Agent/History/Laws, Agent/Calls and Agent/Protocol prove, the last two with their
--     children.
--     The files called Tests run the definitions on concrete inputs.
--   - SetupToken: the repository of setup tokens of user-management
--     (services/user-management/src/setup-token/repository.ts), the links by which a user signs up; its
--     children prove.
--   - Users: the rows of users and preferences (user/repository.ts), the route that consumes a token
--     and creates the user (app.ts), and disconnectUser (user/disconnect.ts). Purge: a sweep of
--     processPendingPurges (purge/executor.ts). Users/Laws, Users/Leaving, Purge/Rows and
--     Purge/Retries prove.
--   - Contacts: the summaries and candidates. Contacts/Words: trim, split and the regular expressions
--     of the matcher; Contacts/Match and Match/Kinship: scoreCandidate; Contacts/Rank: matchContacts;
--     Contacts/Resolve: resolveContact, its client, and the search tool. Their children prove.
--     Base/Sorting: the stable sort of the language.
--   - Guardrails: the four checks and the middleware over an interface of Redis; Guardrails/Gate and
--     Guardrails/Closed prove.
--   - Reminders: pollReminders (reminder-poller.ts); Reminders/Clock: lib/schedule-time.ts;
--     Reminders/Digest: executeReminder (reminder-executor.ts); Reminders/Once proves.
--   - MonicaUrl: normalizeMonicaUrl, isBlockedIp and validateMonicaUrl; MonicaUrl/Laws proves.
--   - Telegram: callback-data.ts, the keyboards of render-response.ts and the event of
--     handlers/callback-query.ts; Telegram/Laws and Telegram/Prompt prove. Text: split and slices.
--   - Webhook: rate-limiter.ts, webhook-secret.ts, update-dedup.ts and webhook-handler.ts, composed as
--     in the app.ts of services/telegram-bridge/src; Webhook/Limits proves.
--
-- Conventions. State is passed explicitly: a handler takes the world and returns its result and the new
-- world. What is not in the repository is a function in a record called Outside (the language model,
-- Monica, user-management, JSON texts, the clock) which gets the number of earlier calls, so that two
-- calls may be answered differently; nothing is assumed of these functions. Database statements
-- succeed. The clock of an event stands still while the event is handled. Lists of messages
-- leave out the system prompt, which heads every request to the model. A stored time is a number of
-- milliseconds. Texts are cut by characters where the program cuts by UTF-16 units. Numbers of JSON
-- that are no integers are kept as texts.
--
-- Functions of the platform (toLowerCase, localeCompare, Number, the URL parser, Intl and Date, the
-- schema library, the cipher) are parameters too. Redis is a record of the commands that are used with
-- what is documented of its sorted sets, and each call may fail before or after it takes effect. The
-- scores of contacts are doubles, kept exactly in units of 2 ^ -55. A transaction of Redis is executed
-- or not: that a command of it fails by itself is left out. Times, time zones and stored dates are
-- readable, so that no date is NaN and none throws; pending arguments are an object. When a setup link
-- is consumed by the web, one clock stands for the application's and the database's.
--
-- Bounds. The loops of the agent run on the number of rounds that are left, five and three, as in the
-- program, and the branch at zero is the program's branch after the loop. Printing a number runs on
-- fuel n + 1, more than its digits.
--
-- Not modelled: logs, spans and metrics, authentication between services, HTTP routing, the queue with
-- its retries and dead letters, the read-only tool handlers but the search for contacts (the function
-- `query`), reading and rotating credentials, the signatures of setup links, delivery, the client of
-- Monica's API, the other handlers of the telegram bridge, voice transcription,
-- redaction, the web pages, and the benchmark: they are glue to libraries or I/O, or are left for
-- later, as the manifest says of each.
pub mod Webhook
pub mod Base
pub mod Sql
pub mod Idempotency
pub mod Effects
pub mod Json
pub mod Scheduler
pub mod Agent
pub mod SetupToken
pub mod Contacts
pub mod Purge
pub mod Users
pub mod Guardrails
pub mod Reminders
pub mod MonicaUrl
pub mod Text
pub mod Telegram
