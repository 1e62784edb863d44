-- ===== src/Lib.antt =====
-- rssam polls feeds, stores their entries, filters them for each subscriber and delivers webhooks.
-- This library models the Go code that decides when and what; the database, the network and the
-- user interface answer as parameters.
--
-- Common: numbers, lists, texts and results that the other parts share. Common.Int has Go's signed
--   integers, with the wrap-around of an int64 as `wrap64`.
-- Poll.Schedule: internal/storage/poll_schedule.go. The interval of a feed, the delay after errors,
--   the stretched interval of a quiet feed. A feed's interval, error count and bounds are arguments.
-- Poll.Window: internal/storage/poll_window.go. The hours of a category: ParsePollHours,
--   NormalizePollHours, Contains, NextOpen. The local zone is a parameter, the record Zone: the offset
--   at an instant, which may change, and what time.Date returns.
-- Poll.NextCheck: pollBounds, nextCheckAfterPoll, adaptiveNextCheck and silentNextCheck of
--   internal/service/feed_refresher.go, which put Poll.Schedule to use.
-- Poll.Refresh: refreshLoaded, recordFailure, failPoll and deferLayout of the same file: one poll, a
--   function of the feed and of what the world answers to the list of its writes. It uses Poll.Window
--   and Poll.NextCheck; that the refresher has its stores is assumed.
-- Filter: internal/filter/engine.go. Compile has compileFilter and ValidateRules, Match has
--   matchCompiled, ruleMatches and matchesFeedScope, Engine has the cache and matchEntry. The state is
--   the list of cached filters; every call returns the new one.
-- Webhook.Backoff: webhookRetrySchedule and webhookBackoffWithJitter of internal/worker/webhooks.go.
-- Webhook.OnSuccess: internal/storage/webhook_on_success.go.
-- Webhook.Delivery, with its steps in Webhook.Delivery.Run: deliverWebhookLog, recordWebhookFailure,
--   applyOnSuccessEntry and floodPause of internal/worker/webhooks.go, retryAfterOf of
--   internal/worker/webhook_flood.go. A delivery is a function from the row and the answers of the
--   world to the list of its writes and requests.
-- Webhook.Digest: internal/worker/webhook_digest.go. groupDigestLogs stands in the module itself,
--   deliverWebhookDigest with digestFailure and applyDigestOnSuccess in Webhook.Digest.Run; it uses the
--   steps of a single delivery. What the store adds to a digest is a parameter, ClaimPeers.
-- Worker.Inflight: internal/worker/inflight.go, the set of items that are worked on. Worker.Pauses:
--   duePauses of internal/worker/webhook_flood.go. The dispatcher of internal/worker/webhooks.go keeps
--   both out of its claims, and a 429 of Webhook.Delivery adds to the pauses.
-- Worker.Dispatch: webhookDispatchLoop and webhookWorkerLoop of internal/worker/webhooks.go as a step
--   relation: the dispatcher claims rows, marks their webhooks and sends them through a channel to a
--   pool of workers, which deliver them effect by effect by Webhook.Delivery and Webhook.Digest. What
--   ClaimDueWebhookLogs of internal/storage/webhooks.go promises is the record Claims.
-- Worker.Polling: processPollFeed, workerLoop and dispatchLoop of internal/worker/runner.go and idleWait
--   of internal/worker/due_wait.go: the deferral of a polled feed, and one round of the dispatcher.
-- Ssrf: internal/ssrf/guard.go and dialContext of internal/ssrf/transport.go. Addresses are numbers of
--   128 bits and stand in the module itself, the guard in Ssrf.Guard. The resolver is a parameter.
-- ClientAddress: internal/http/middleware/clientip.go, for addresses of any kind.
-- Rules: internal/reader/rules.go, the rules of a feed.
-- Storing: processEntriesFiltered of internal/service/feed_refresher_dedup.go; in Storing.Actions what
--   follows, afterStore and applySubscriberFilters of internal/service/feed_refresher.go and the actions
--   of internal/service/filter_actions.go. The answers of the filter engine are parameters.
-- Alerts: internal/worker/system_alerts.go. A pass is a function from the alerter and the answers of the
--   store to the next alerter and its effects: sends, rows of the audit log, and the saved state.
-- Version: internal/version/version.go, the order of version numbers.
-- Limiter: evictOldestLocked of internal/http/middleware/ratelimit.go.
-- Page: internal/reader/page/diff.go, what changed on a watched page; Page.Reference has the recursive
--   definition that the table is measured by.
-- Ws: internal/ws/hub.go and internal/ws/client.go. The goroutines that connect, publish, evict and write
--   are the actions of a step relation over the hub and its clients, which stand at addresses; the read
--   lock is held by the calls in `reading`. Ws.Channels has NormalizeChannels.
-- Service.TtlCache: internal/service/ttl_cache.go. Service.HostLimit: HostLimiter and hostBusyRetry of
--   internal/service/host_limit.go. Each method holds a mutex for its whole body, so it is one step;
--   the polls that begin with Acquire and end with the deferred release are a step relation.
-- Dedup: StripTrackingParams of internal/model/dedup.go.
-- Access: internal/auth/role.go, internal/auth/scope.go and internal/quota/quota.go.
--
-- Loops are structural: over the list of rules, or over the number of rounds that the code's counter
-- has left, so no fuel can run out; the walk of Page is on fuel, the number of lines and one more, and
-- is proved to end; the loops of the dispatchers are taken round by round. Times are nanoseconds since
-- Go's zero time; a sum of a time and a duration is exact, products of durations wrap, and so does the
-- sum of a delay and its jitter.
--
-- Not modelled: the SQL of internal/storage, the HTTP handlers and pages, the readers of the feed
-- formats, the loops of internal/worker that clean up and reset, the wording of alerts, and what rests
-- on floating-point numbers, as the tokens of the rate limiter do; the parts that are planned are named
-- in the manifest. Regular expressions, JSON, the local time zone, random numbers and the answers of
-- HTTP are parameters.
pub mod Common
pub mod Access
pub mod Alerts
pub mod ClientAddress
pub mod Dedup
pub mod Filter
pub mod Limiter
pub mod Page
pub mod Poll
pub mod Rules
pub mod Service
pub mod Ssrf
pub mod Storing
pub mod Version
pub mod Webhook
pub mod Worker
pub mod Ws
