-- ===== src/Lib.antt =====
-- Verification of the hotel reviews microservice: the resilience components of
-- internal/infrastructure, the sagas, the event bus and the event store of internal/events, the
-- authentication service and the state behind the authentication middleware, the processing engine
-- of internal/application, and the graceful shutdown of internal/server, modelled as pure functions
-- over explicit state.
--
-- The parts and their files:
--   - Base (Base/Tests, Base/Lists, Base/Words, Base/Texts, Base/Maps): shared names, Boolean
--     tests, lists, the wrap-around of Go's 32-bit and 64-bit counters, times and durations, texts.
--   - Errors: the error types and severities of internal/infrastructure/error_handler.go.
--   - CircuitBreaker: internal/infrastructure/circuit_breaker.go. Types holds the states, errors,
--     configurations and metrics; Window the sliding window (NewSlidingWindow, Record, GetStats);
--     Machine the breaker and its methods (canExecute, recordResult, recordSuccess,
--     recordFailure, recordRejection, shouldOpen, the three transitions, updateMetrics,
--     performHealthCheck, Reset, GetMetrics); Calls the sequences of calls that concurrent
--     requests make; Execute the method ExecuteWithFallback with its retry loop and its fallback.
--     The theorems are in Window/Laws, Invariant, Transitions, Periods and Execute/Laws, and at
--     concrete inputs in Examples.
--   - RateLimiter: internal/infrastructure/error_rate_limiter.go. Types holds the rules, buckets,
--     results and statistics; Bucket the four strategies (checkFixedWindow, checkSlidingWindow,
--     checkTokenBucket, checkLeakyBucket); Limiter the limiter over its maps (ShouldLimit,
--     checkRateLimit, generateBucketKey, RemoveRule, the resets and the cleanup). The theorems
--     are in Bucket/Sliding, Bucket/Fixed, Bucket/Token, Limiter/Keys and Limiter/Decisions.
--   - Saga: internal/events/sagas.go, with the event and saga types of
--     internal/events/event_bus.go (Types). Steps holds the engine (executeSteps,
--     compensateSteps, handleSystemError), over any state of the steps; Review/Data the saga's
--     data and the services as parameters, Review/Steps the six steps of the review processing
--     saga and their compensations, and Review the methods Start and Handle; Hotel/Data,
--     Hotel/Steps and Hotel are the same for the hotel onboarding saga. The theorems are in
--     Steps/Laws, Review/Laws, Review/Completed, Review/Effects, Hotel/Laws and
--     Hotel/Onboarded; Steps/Agree compares two lists of steps. Manager is the SagaManager of
--     event_bus.go over the interface Saga, with its theorems in Manager/Laws.
--   - Auth: internal/application/auth_middleware.go. Config holds the fields of the configuration
--     that are read; Limits the rate limiter of users and addresses (CheckUserRateLimit,
--     CheckIPRateLimit, performCleanup), with its theorems in Limits/Window, Limits/Cleanup and
--     Limits/Runs; Blacklist the blacklists (IsIPBlacklisted, BlacklistIP, RemoveIPFromBlacklist,
--     performBlacklistCleanup and the same for users), with their log as the specification in
--     Blacklist/Log; Sessions the session manager (CreateSession, GetSession,
--     UpdateSessionActivity, InvalidateSession, InvalidateUserSessions, performSessionCleanup),
--     with its theorems in Sessions/Bound and Sessions/Revived. Requests holds what the handlers
--     read and keep, and Middleware the handlers (AuthenticationMiddleware, authenticateRequest
--     with its three kinds of credentials, RequireAuthentication, RequirePermission, RequireRole,
--     OptionalAuthentication) and the chains ForPublicEndpoints, ForProtectedEndpoints and
--     ForAdminEndpoints, over the state of the circuit breaker, the limiter, the blacklists and
--     the sessions; its theorems are in Middleware/Chains and Middleware/Lockout. Login is the
--     login of internal/infrastructure/auth.go (Login, IsRateLimited, RecordLoginAttempt and the
--     queries of AuthRepository that they use), over its tables, with its theorem in Login/Limit.
--     Of the same file, Tokens is what follows a login (RefreshToken, Logout, ValidateToken,
--     ChangePassword, ResetPassword, Register and their queries), with its theorems in
--     Tokens/Sessions; Password is ValidatePasswordStrength; ApiKeys is GenerateApiKey and
--     ValidateApiKey. At concrete inputs these three are in Tokens/Examples. Roles is
--     CheckPermission over the joins of GetUserPermissions, with its theorem in Roles/Granted.
--   - EventBus: internal/events/event_bus.go. Bus is the MemoryEventBus (Subscribe, Unsubscribe,
--     Publish, Start, Stop), with its theorems in Subscriptions; Shifted is the array of handlers
--     that Unsubscribe shifts while a Publish ranges over it; Outbox is the OutboxPublisher
--     (publishPendingEvents, publishLoop) over the interface of its repository, and services that
--     write down the calls that they get.
--   - EventStore: the MemoryEventStore of internal/events/event_bus.go (Append, Read, ReadAll,
--     GetLatestVersion), over a heap, since it writes the versions of events that its callers
--     share; Numbered holds lemmas on the versions, Log the specification by the log of the
--     appends, and Projection the polls of the ProjectionManager (processProjection,
--     processProjections), with its theorems in Projection/Resume.
--   - Processing: internal/application/processor.go. Types holds the jobs and metrics, Url
--     parseS3URL (with the theorems in Url/RoundTrip), File processFile over the answers of the S3
--     client and the JSON processor, Engine the engine's state with
--     SubmitJob, CancelJob, updateJobStatus and checkIdempotency, and Steps the goroutines
--     (startWorkerPool, workerLoop, jobDispatcher, dispatchJob, processJobWithWorker, the removal
--     of finished jobs) as steps between which others may run, and schedules of them. The theorems
--     are in Steps/Invariant, Steps/Attempts, Steps/Live and Steps/Blocked;
--     Backpressure is the BackpressureController and the JobProgressTracker.
--   - Retry: internal/infrastructure/retry.go. Types holds the configuration and which errors are
--     retried (isRetryable, classifyError), Configs the configurations that the file provides,
--     Backoff the delays (calculateBackoff, applyJitter), Metrics what is recorded
--     (recordAttempt, recordRetry, updateMetrics), and Loop the operation (ExecuteWithConfig,
--     executeWithRetry), with its theorems in Loop/Counts, after what one step counts in
--     Loop/Tally, and in Loop/Breaker.
--   - Shutdown: internal/server/shutdown.go. Types holds the configuration and the hooks,
--     Resources the registration (RegisterResource, registerResourceManager and one hook for each
--     kind of resource), Sort the bubble sort, and Run the shutdown (initiateShutdown, executeHook,
--     the cleanups), with the theorems in Sort, Order and Outcome.
--
-- How the state corresponds: a struct is a record with the source's fields; a method with a pointer
-- receiver is a function to the new record, and to its result. The time is an argument, `now`, and
-- the moments at which one method reads the clock are one moment. A time counts nanoseconds from
-- Go's zero time, so that a present time less a duration (below 2^63) is not truncated at 0;
-- durations and the `int` fields are not negative, and their sums are taken without overflow. The
-- unsigned counters wrap around. Floating point numbers do not occur: the test `failureRate > 50.0`
-- is on the two counts, exact below 2^51 requests, a reported rate is the pair of numbers that is
-- divided, and the backoff factors of the configurations (2.0 and 1.5) are in tenths. A Go map is
-- an association list in the order in which it would be ranged over. A runtime panic is `none`, or
-- `panicked` in a saga. Every loop is a recursion on the list it ranges over, or on the number of
-- rounds left, so no fuel is needed.
--
-- Methods are atomic but for SubmitJob, Publish and authenticateSession: interleavings inside one
-- method (between an atomic load and the transition that follows, or between two queries of a login
-- or a refresh) are not modelled; interleavings of whole calls are, as lists of calls. Logging, the
-- tickers of background loops and read-only reports are left out. The protected function, the
-- context, the fallback and the result of a health check are parameters, and so are the services
-- that a saga calls, the comparisons of a rating with 1 and 5, and the parser of identifiers. The
-- sagas' locks make Start and Handle one step each, so the status in progress, which only Start
-- would see, and the panic that would leave it behind, are not represented; the services return no
-- nil pointer without an error. The manager's sagas are a parameter of it.
--
-- The authentication service, the address that getClientIP finds and the credentials that a
-- request's headers hold are parameters of the handlers; one request at a time runs through them,
-- its circuit breaker has no fallback, and the response headers and the audit log are left out.
--
-- A table of the database is a list of rows, and its queries are those of the source's conditions;
-- a query that fails changes nothing. The password library's comparison and the tokens are
-- parameters of the login.
--
-- For the retry manager the text of an error, the floating point delays, taken to fit a duration,
-- and the random draws are parameters, and each attempt finds the context, the answer and the times
-- in an environment.
--
-- A job of the processing engine is a pointer: the map, the queue and the goroutines hold its UUID,
-- and a store gives what stands there. A goroutine is cut into steps where it waits, and a schedule
-- is a list of steps, any of which may be taken in any state; a step that cannot be taken changes
-- nothing. SubmitJob is cut in two where it releases the mutex between its check and its
-- registration (and is one step, too, where nothing comes between), and its UUID is an argument;
-- Stop does not wait, and where several cases of a select are ready, the model takes the one that its comment names, or
-- leaves the choice to the schedule. The counters of jobs are not bounded.
--
-- What a resource does when it is closed, by the time its context has left, is a parameter of the
-- shutdown; the hooks run at the same time, each in time counted from the start of the context.
-- UUIDs, tokens and handlers of events are numbers, equal where the texts or pointers are.
--
-- Not modelled: the signing and parsing of tokens, the other parts of error handling, caching, monitoring, analytics, the JSON lines processor, HTTP handlers, and the
-- clients of databases, queues and stores, which mostly call libraries.
pub mod Base
pub mod Errors
pub mod CircuitBreaker
pub mod RateLimiter
pub mod Auth
pub mod EventBus
pub mod EventStore
pub mod Retry
pub mod Processing
pub mod Saga
pub mod Shutdown
