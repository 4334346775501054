-- ===== src/Lib.antt =====
-- Verification library of the Stellar DEX chat front end (Dechat/dex_with_fiat_frontend).
--
-- The program is a chat in which a user asks an assistant to turn Stellar tokens into money on a bank
-- account. The browser keeps the conversation in a state machine, shows toasts, queues reads while the
-- network is away and searches the history; the server's routes limit the rate of requests, start
-- transfers and take the payment provider's webhook, which stores a status and tells the sessions that
-- wait for it. Paths below are relative to Dechat/dex_with_fiat_frontend/src.
--
-- Which file models which part:
--   StateMachine   lib/stateMachine.ts: the class StateMachine with its history, guards and listeners.
--   Chat           hooks/chatStateMachine.ts: the chat's states, guards and table of transitions, which
--                  StateMachine runs; Chat.Dispatcher is createDebouncedDispatcher.
--   Transfers      lib/transferStore.ts: the statuses of transfers, and the cache of webhook keys.
--   PaymentEvents  lib/paymentStatusEvents.ts: the listeners of each session.
--   Webhook        app/api/webhook/route.ts: POST, over Transfers and PaymentEvents.
--   RateLimit      lib/rateLimit.ts: getClientIp and applyRateLimit.
--   Stroops        lib/stroops.ts: xlmToStroops and stroopsToXlm.
--   Toasts         lib/toastStore.ts: the class ToastStore.
--   NetworkQueue   lib/networkQueue.ts: withNetworkReadQueue and processQueue, each cut at its awaits.
--   Pagination     lib/chatPaginationUtils.ts.
--   AuditLog       lib/auditLog.ts: AuditLogService; AuditLog.Retry is retryWithBackoff.
--   Filters        lib/transactionFilters.ts: filterTransactions and computeFilterStats.
--   ChatSearch     lib/chatSearch.ts: debounce, findHighlights, splitByHighlights and
--                  searchChatHistory.
--   FilterUrl      lib/filterUrlSerializer.ts.
--   ApiSchemas     lib/apiSchemas.ts: the schemas of the routes' bodies, and what they accept;
--                  ApiSchemas.Retry is withRetry and fetchWithRetry.
--   Payout         lib/payout/providers: the choice of the provider and the requests to Paystack.
--   TransferRoutes app/api/initiate-transfer, create-recipient, verify-account and transfer-status: the
--                  routes' handlers, over RateLimit, Payout and Transfers.
--   IdempotentAction  hooks/useIdempotentAction.ts: the guard of an action that must not run twice.
--   AdminAllowlist lib/security.ts: the allowlist of the administrators' addresses.
--   SensitiveTerms lib/sensitiveTerms.ts: the manager of terms and its searches.
--   TextMasking    lib/textMasking.ts: the masks, over SensitiveTerms.
--   PriceCache     lib/cryptoPriceService.ts: the cache of prices, the requests under way and the quote.
--   ChatHistory    lib/chatHistory.ts: titles, storage, deduplication and the limit of the sessions.
--   Drafts         lib/draftUtils.ts: the drafts of the conversations, over a storage that may fail.
--   Beneficiaries  hooks/useBeneficiaries.ts: the list of bank accounts, its storage, the keys, and the
--                  sharing of requests.
--   MessageRetry   hooks/useMessageRetry.ts: a failed message that is sent again by a timer or a button.
--   Common         what the others share: lists, maps, Boolean tests, and JavaScript's trim, toLowerCase
--                  and includes.
-- A function keeps the source's name in snake_case. A module's file has its data and operations, and the
-- files in its folder what is shown of them; Tests runs them at concrete inputs.
--
-- State is passed explicitly: an operation takes the state and returns the next one. What a program does
-- over time is a list of actions, or a relation of steps (AuditLog.Bounds). A call of a listener, a
-- settled promise and a toast that is asked for are entries of a log. Times are milliseconds; the clock,
-- generated ids and the outcomes of writes and of requests are arguments. Renders of MessageRetry are
-- steps with the effects that follow them. The code of NetworkQueue, TransferRoutes, IdempotentAction,
-- PriceCache and Beneficiaries awaits a task or a request: there the state says what is awaited, the
-- operation is cut in two at the await, and other actions may come between.
--
-- Numbers are natural numbers where the code uses whole and non-negative ones: the amounts that the
-- routes take are whole. They are integers in Stroops, and decimals in PriceCache. Texts are native
-- strings, or lists of UTF-16 code units where their characters matter.
--
-- Bounds: Stroops.digits takes n + 1 rounds for the number n, which has at most as many digits;
-- ChatSearch.scan takes as many rounds as the text has characters, as each round moves on by at least
-- one; SensitiveTerms.find_all takes one round for each character and one more, which is enough unless a
-- term is empty, and then no number of rounds is; other loops recurse on their list or on the attempts
-- that are left.
--
-- Parameters: the hash functions and the decoder of the webhook's payload, toLowerCase in ChatSearch and
-- SensitiveTerms, and there the comparison of the flag i too, the parsing of dates in ChatSearch,
-- localeCompare and the upper case of a letter in Filters, decodeURIComponent in FilterUrl, net.isIP in
-- AdminAllowlist, parseInt and the replies of the provider in Payout, the upper and lower case in
-- PriceCache, JSON in ChatHistory, Drafts and Beneficiaries, dates in ChatHistory and Drafts, and how a
-- queued task ends.
--
-- Not modelled: React components and contexts and most hooks, whose state is the framework's; the
-- assistant; the routes that list banks or stream events, and the administrators' reports; telemetry and
-- logging; the contracts under stellar-contracts, which are written in another language; the clipboard
-- snapshot of the chat machine, the JSON export of the audit log, the exports of the history, the ticker
-- of prices and their layout as text, and the read-only statistics of the stores.
pub mod Common
pub mod StateMachine
pub mod Chat
pub mod Transfers
pub mod PaymentEvents
pub mod Webhook
pub mod RateLimit
pub mod Stroops
pub mod Toasts
pub mod NetworkQueue
pub mod Pagination
pub mod AuditLog
pub mod Filters
pub mod ChatSearch
pub mod FilterUrl
pub mod ApiSchemas
pub mod Payout
pub mod TransferRoutes
pub mod IdempotentAction
pub mod AdminAllowlist
pub mod SensitiveTerms
pub mod TextMasking
pub mod PriceCache
pub mod ChatHistory
pub mod Drafts
pub mod Beneficiaries
pub mod MessageRetry
