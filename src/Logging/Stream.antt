-- ===== src/Logging/Stream.antt =====
-- src/logging/LogStream.h and `enabled` of src/logging/AsyncLogger.h: a statement of the macros
-- `SK_LOG_*`. Its parts are texts; how a value is formatted is left to `std::ostringstream`.
use seckill_cpp.Base.{ℕ, Bool, false, ◌&&◌, Bytes, leb, if◌then◌else◌, List, [], ◌∷◌, ◌++◌, ◌≡◌}
use seckill_cpp.Logging.Logger.{Sink, AsyncLogger, LogMessage, log}

-- What `operator<<` has put together when the stream is destroyed.
unfoldable pub joined : List Bytes → Bytes
joined [] = []
joined (p ∷ ps) = p ++ joined ps

module _ {K : Sink} where
  unfoldable pub level_enabled : ℕ → AsyncLogger K → Bool
  level_enabled level l = l.running && leb l.level level

  -- `SK_LOG(level) << part << part ...`
  unfoldable pub sk_log : ℕ → List Bytes → AsyncLogger K → AsyncLogger K
  sk_log level parts l =
      let m : LogMessage = record { level = level; msg = joined parts } in
      if level_enabled level l then log K m l else l

  -- A logger that does not run, or that is set to a higher level, is left as it is.
  pub sk_log-disabled :
      (level : ℕ) (parts : List Bytes) (l : AsyncLogger K)
      → (l.running && leb l.level level) ≡ false
      → sk_log level parts l ≡ l
  unfolding sk_log level_enabled
  sk_log-disabled level parts l h = rw h
