-- ===== src/Lib.antt =====
-- gsmail: the Go mail toolkit, modelled and verified by component.
--
-- The toolkit sends mail through interchangeable providers. A Sender is wrapped by others (failover,
-- rate limits, interceptors), retried by Retry according to the class of its errors, and run in the
-- background by workers; the SMTP sender borrows its connections from a pool; bounces and complaints
-- feed a suppression list that an interceptor consults before each send; header values, addresses
-- and file names pass through sanitisers before they reach a message.
--
-- Prelude (and Prelude/): names of the libraries, signed integers, Boolean tests and lists over the
--   native numbers, Go strings as lists of bytes.
-- Text/Utf8, Text/Search (and Text/Parts): what the program uses of unicode/utf8 and strings. Case
--   mapping and case folding beyond ASCII are the parameter Unicode.
-- Errors (provider.go, httperror.go): error values are trees of what they wrap. errors_is, errors_as
--   and errors_join are errors.Is, errors.As and errors.Join, is_retryable is IsRetryable,
--   non_retryable is NonRetryable, retry_after is retryAfter. The texts that fmt.Errorf adds are left out.
-- Retry (provider.go): normalize, BaseProvider, and Retry as a recursion on MaxRetries - i, so no fuel
--   is needed. What Retry calls (fn, the context, the timer) is the record Env over any state;
--   floating-point numbers are the record FloatOps.
-- Pool (smtp/pool.go): State has the pool and `advance`, one step of a goroutine in Get, Put or
--   Close: each region under the lock, each network call and each channel operation is a step, and
--   the program counter Pc says which comes next. Run has the system of all goroutines and its
--   interleavings, with Put called by whoever Get gave a client to. Clients are numbers, and a dial
--   makes one that nobody holds. Times are numbers that need not grow.
-- Suppression (suppression.go): Memory has NormalizeAddress and the methods of MemorySuppressionList,
--   Intercept has SuppressionInterceptorWith, for a suppressor that answers by a function during one
--   send. Loop joins the two, and Report joins the list with bounces that are read from a message.
-- Bounce (bounce.go): ParseBounce and ParseComplaint, over textproto's reader as a parameter.
-- Email (email.go), Address (utils.go): messages, ParseEmailAddress and FormatAddress, with net/mail's
--   parser and printer as the parameter AddressParser.
-- Header (utils.go): SanitizeHeaderValue, encodeHeader, header names, formatDisposition. The
--   standard library's Q-encoding is a parameter.
-- Html, Headers, Mime (utils.go): IsHTML and hasHeader; the caller's header fields, the reserved names,
--   CustomHeaders and sortedHeaderNames, where sort.Strings is an insertion sort; base64 and
--   base64MIMEWriter, whose loop has a round for each byte as its fuel, and needs no more.
-- Multipart, Message (utils.go): the parts of a multipart body, with what multipart.Writer of the
--   standard library writes, and buildMessage, RenderMessage and WithMessage. What they take from
--   elsewhere (date, random bytes, boundaries, the Q-encoding) is the record Env. Message/Reader and
--   Multipart/Reader are the receivers that the round trips are about; they have the length of the
--   text as fuel.
-- Parse (utils.go): ParseRawEmail and its parts. The readers of net/mail, mime and mime/multipart are
--   the record MimeLibrary; a stream is the bytes that it gives and its error. The recursion is on the
--   levels that maxMultipartDepth leaves.
-- Validator (utils.go): IsValidEmail, whose regular expression is a function on bytes, and Validate with
--   its probe, over a network that answers by an address.
-- Auth (auth.go): SMTPAuth and the XOAUTH2 client; a SASL client of a third party is a parameter.
-- Webhook (webhook.go): the verifiers of Mailgun, SendGrid and Postmark, the tolerance on durations of 64
--   bits, and the cache of SNS's certificates, of which the first entry of a loop is evicted.
-- Health (health.go, dkim.go): the checks of a domain's DNS records over a resolver, and in
--   Health/Collect the goroutines of CheckDomainHealth as a step relation.
-- Worker (worker.go): BackgroundSender, its workers and the stopping goroutine as a step relation. A
--   worker's receive and its call of sender.Send are two steps, so one worker may overtake another.
--   Start is taken to be called before Stop; the channels have the capacity of the buffer, and with
--   none a send needs a worker that is blocked in its receive. A sender.Send that panics ends
--   the program, and is left out.
-- Compose (compose.go): the failover Send and Ping, the rate-limited sender and the caching token
--   source, over any state of the world.
-- Identity (identity.go): Header, MessageID, MessageIdentity and what contentDigest hashes, with
--   SHA-256 as a parameter. A map of headers is the list of its entries in the order of a loop.
--   Decimal numbers are written with at most twenty digits, which is what 64 bits need.
-- MessageId (utils.go): messageIDDomain and generateMessageID; the random bytes are a parameter.
-- Unsubscribe (unsubscribe.go): the List-Unsubscribe pair; url.Parse is a parameter.
-- Smtp (smtp/smtp.go): the envelope of Send, classify, sendOnClient and writeData, over the commands
--   of net/smtp's Client as the record SmtpClient.
-- Middleware (middleware.go): WrapSender and WrapReceiver as their loops over the interceptors from
--   the last on, and the loggers and the recovery interceptor; a call returns or panics, that of
--   logFn included.
--
-- Machine integers: int and time.Duration are unbounded integers, as their sums stay in range, but for
-- the negation of a duration in Webhook, which wraps around.
--
-- Not modelled: the provider APIs, the receivers, templates, telemetry, DKIM signing, the
-- verification of SNS messages, what the payloads of webhooks say, and the token bucket (floating
-- point). A writer that fails while a message is built is left out, since the buffer never does.
pub mod Prelude
pub mod Errors
pub mod Retry
pub mod Pool
pub mod Text
pub mod Header
pub mod Email
pub mod Address
pub mod Bounce
pub mod Suppression
pub mod Worker
pub mod Compose
pub mod Identity
pub mod MessageId
pub mod Unsubscribe
pub mod Smtp
pub mod Middleware
pub mod Html
pub mod Headers
pub mod Mime
pub mod Multipart
pub mod Message
pub mod Health
pub mod Parse
pub mod Validator
pub mod Auth
pub mod Webhook
