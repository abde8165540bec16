-- ===== src/Lib.antt =====
-- seckill-cpp is a flash-sale server on Drogon, MySQL and Redis. A request to buy passes a gate in
-- the process that turns away a second request of the same user for the same SKU while the first
-- is in flight. It then runs one database transaction that takes a piece of the stock and writes
-- the order. Around it stand accounts with one-time codes, a lock after wrong passwords, sessions
-- and a limit on registrations, a product cache, and an asynchronous logger.
--
-- The files, and the code that they model:
--   Gate: src/service/InflightGuard.h. `try_acquire` and `release` are `tryAcquire` and the
--     `release` of the last copy of a token, in all four modes. Gate/Spin: `SpinLock` and the set
--     of a shard behind it, an access to the memory at a time, with threads that interleave.
--     Gate/Spin/Atomic relates it to the single steps that Gate takes.
--   Database: the SQL statements of the order path on the two tables of sql/schema.sql, and the
--     MySQL server with Drogon's client as an interface that may time out, raise an exception at
--     any statement, or fail to commit. `IsTransactional` is a server that keeps transactions, and
--     `MayLoseCommits` one that may besides report a commit that it carried out as failed.
--   Order: `SeckillService::doSeckill` of src/service/SeckillService.cc, one function for each
--     callback. Order/Transaction states what the transaction does. Order/Shop is a system of
--     concurrent requests: an event is the arrival of a request up to `newTransactionAsync`, or
--     the completion of one of those in flight. Its children follow the tables and the gate
--     through every sequence of events, Order/Shop/Lost on a server that may lose the
--     acknowledgement of a commit.
--   Redis: the commands that the code issues, as an interface. A command may be answered, not
--     delivered, or carried out with the answer lost. Redis/Model is an instance, and
--     Redis/Counters is about the counter with an expiry that the scripts keep. Every theorem on
--     a store takes a Redis that does what its documentation says, `IsRedis`.
--   Auth/LoginGuard, Auth/Sms, Auth/RegisterGuard, Auth/Session: LoginGuard, SmsService with
--     SmsSender, RegisterGuard and SessionStore of src/service. A Lua script is one step.
--     Auth/Overlap: requests that overlap, under a guard that is asked at their start and told at
--     their end. LoginGuard/Overlap and RegisterGuard/Overlap are its two cases.
--   Auth/Password: src/service/password.cc, with what OpenSSL computes as arguments.
--   Auth/Base64, Auth/Jwt: src/service/Jwt.cc. `sign` and `verify` take HMAC and jsoncpp as
--     parameters; what jsoncpp throws is a verdict of its own.
--   Json: jsoncpp as an interface, which the tokens and the controllers share.
--   Auth/Account: `registerUser`, `login`, `logout` and `authenticate` of
--     src/service/UserService.cc over those. A token that makes `verify` throw makes the caller
--     throw. Auth/Account/Tokens puts `sign` and `verify` in, and Auth/Account/Code follows a code
--     from `sendCode` to the registration.
--   Cache/Keys, Cache/Bloom, Cache/SkuCache: src/service/CacheKeys.h, BloomFilter.h and SkuCache.
--   Cache/LocalLru: src/service/LocalLruCache.h, its list and its map from keys to iterators. An
--     iterator is the number of its node, and to follow one whose node is gone is a fault.
--     Cache/LocalLru/Instance makes it the local cache that SkuCache asks for.
--   Cache/SkuCache/Deleter: `DelayDeleter` of src/service/SkuCache.h as a thread, with its mutex, its
--     condition variable and its destructor. Cache/SkuCache has its turns as steps of the cache.
--   Products: `listSkus`, `detailSku`, `bloomAllows` and `rebuildBloom` of
--     src/service/SeckillService.cc over those. Products/Warm: `warmCache` and `bloomStats`.
--   Http: the handlers of src/controllers over the services, with the responses of
--     src/util/HttpJson.h. Http/Seckill and Http/Product are SeckillController, Http/Account is
--     UserController, and Http/Phone is SmsController.
--   Wiring: `buildBundle` of src/main.cc from the configuration. Wiring/Routes: the routes for
--     accounts and codes, the warming and the statistics.
--   Logging/Ring, Logging/Logger, Logging/Stream: src/logging/ring_buffer.h, AsyncLogger and
--     LogStream.h. Logging/Ring/Calls sets any sequence of calls of the buffer against a
--     queue.
--   Base: lists with native indices, bytes, 64-bit integers, bits of words, decimal numbers with
--     `std::to_string` and `std::stoll`, and `double` as an interface.
-- Each folder's Tests module runs the code on small inputs and applies the theorems to them.
--
-- Bounds and fuel. Integers of the source that wrap are taken modulo 2 ^ 64; `int64_t` values are
-- integers without a bound, and `make_key` reads them modulo 2 ^ 64. The settings are not negative.
-- The loops are structural, with two exceptions. `gen_numeric_code` takes its random words from a
-- list, and its theorem holds for any number of rejected words before the one that it keeps.
-- `join` runs the worker for at most two rounds, which its theorem shows to be enough.
--
-- Not modelled. An order transaction is one step, since its first statement locks the row of the
-- SKU; requests interleave before and after it. Memory orders are left out: an access to the memory
-- is one step for all threads. HMAC, PBKDF2, jsoncpp, the arithmetic of `double`, the random source,
-- the clock and spdlog are parameters.
-- The delivery of the log leaves out a call that pushes its message after the end of the worker.
-- The results on a server that keeps transactions leave out a COMMIT that is carried out with its
-- acknowledgement lost; Order/Shop/Lost is about a server on which that happens.
-- Drogon is not modelled: its routing, its reading of a body and its answer to an exception. The
-- health check and the formatting of values in a log line are left out.
pub mod Auth
pub mod Base
pub mod Cache
pub mod Database
pub mod Gate
pub mod Http
pub mod Json
pub mod Logging
pub mod Order
pub mod Products
pub mod Redis
pub mod Wiring
