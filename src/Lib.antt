-- ===== src/Lib.antt =====
-- The payment-channel core of the XRPL machine-payments stack: a client pays a merchant by signed
-- vouchers on an XRPL payment channel, and the facilitator keeps the durable record of each
-- channel, accepts vouchers against it, spends the challenges that they answer, and redeems the
-- last voucher on the ledger.
--
-- The files and the code, with packages/facilitator/src/xrpl_mpp_facilitator as F and
-- packages/core/src/xrpl_mpp_core as C:
--   Prelude      shared names, Boolean tests on numbers, lists, results and errors
--   Text         text as a list of code points; int() and str() of decimal digits
--   Dict         dictionaries as association lists
--   Schema       the field constraints of C/xrpl.py and C/paychannel.py
--   HighWater    the cumulative rule of C/paychannel.py (evaluate_high_water)
--   PayChannel   F/paychannel_store.py: Record (PayChannelRecord), Key (_channel_key), Mutations (the
--                compare-and-set callbacks), Store (InMemoryPayChannelStore), Scan (its paging)
--                and Redis (RedisPayChannelStore)
--   Optimistic   the WATCH / MULTI / EXEC loop of the Redis stores
--   Replay       F/replay_store.py: Claims (InMemoryChallengeReplayStore), RedisClaims
--                (RedisReplayStore.claim_challenge), Reservation (its reservations) and Retention
--                (replay_retention_seconds)
--   Header       the WWW-Authenticate challenges of C/helpers.py: Cursor (the scanners), Params
--                (_parse_auth_params), Challenge (PaymentChallenge, its rendering and its parsers)
--   Binding      C/helpers.py: build_challenge_id, ChallengeKeyRing, verify_challenge_binding
--   Accept       AcceptPaymentRange of C/models.py and rank_payment_challenges of C/helpers.py
--   Did          C/did.py: build_xrpl_did, parse_xrpl_did
--   Service      F/paychannel_service.py: Verify (_verify_claim_action, for a voucher and for a
--                close), Signature (_verify_claim_signature), Open (_verify_open), Transaction
--                (_decode_and_verify_open_transaction), Envelope (_verify_envelope) and Session
--                (verify)
--   Worker       F/paychannel_worker.py: run_once
--   Witnesses    concrete runs
--
-- State and effects. A method of a store takes the state and gives a result or an exception and the
-- state that it leaves; the lock of the in-memory store makes it one step, and concurrent requests
-- are sequences of calls (PayChannel.Store.Calls). The service and the worker await between their
-- calls: what others call on the stores meanwhile is an argument, and so are the clock readings,
-- the fresh identifiers and the answers of the hooks (loader, ledger verifier, settler).
--
-- A header value is read at a cursor, which holds what stands before and after an index. Letter
-- case is that of ASCII: a value with U+0130, whose lower form has two code points, is left out.
--
-- Outside the repository, and so parameters: SHA-256 (digest), HMAC in base64url (Sign), the
-- verifier of claim signatures (its answer on a channel, an amount, a signature and a key), the
-- decoder and the signature verifier of transactions (OpenFacts), pydantic's JSON of a record
-- (Codec, with its round trip), the JSON of a session request (Gate) and the decoding of a payload
-- (PaymentCredential), the canonical JSON and the dates of a challenge (WireFormat, which can give
-- up on the nesting of JSON), and Redis, whose WATCH is taken to report every touched key.
-- Exceptions carry their code; those of other classes are one constructor.
--
-- Numbers. Drops are texts of at most 20 digits, read with int(); times are natural numbers, in
-- milliseconds for channels and in microseconds for retentions; a preference q is counted in
-- thousandths. Nothing wraps around. The seconds and the last ledger of a retention or of an open
-- are rounded up exactly, where the code divides in floating point: the two differ only for
-- expiries centuries away. The milliseconds of a time, where it also rounds down, are a parameter.
--
-- Fuel. A WATCH loop runs on the rounds that its environment plays and gives none when all of them
-- conflict; it returns as soon as one does not. A caller of scan follows cursors on fuel, for which
-- one more than the number of records is enough. The loops over a header value have a round of fuel
-- for each of its characters and one more, which is enough, since each round moves the cursor on.
--
-- Not modelled: the encodings of credentials and receipts and the Accept-Payment parser of
-- C/helpers.py; the Redis form of scan and of redemption leases; charge settlement; the client,
-- payer, middleware and MCP packages; and the HTTP application around the facilitator.
pub mod Prelude
pub mod Text
pub mod Dict
pub mod Optimistic
pub mod Schema
pub mod HighWater
pub mod PayChannel
pub mod Replay
pub mod Header
pub mod Binding
pub mod Accept
pub mod Did
pub mod Service
pub mod Worker
pub mod Witnesses
