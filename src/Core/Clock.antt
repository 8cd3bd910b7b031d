-- ===== src/Core/Clock.antt =====
-- core/time.go: the clock of the runtime, in seconds, which tests may put forward.
use goactor.Prelude.{ℤ, ◌+ℤ◌}

-- `real` is what time.Now().Unix() reads; `global_time_offset` is the global variable.
pub record Clock : Type 0 where
  pub real : ℤ
  pub global_time_offset : ℤ

-- NowUnix, and Now, a time of whole seconds
unfoldable pub now_unix : Clock → ℤ
now_unix c = c.real +ℤ c.global_time_offset

-- IncrGlobalTimeOffset
unfoldable pub incr_global_time_offset : Clock → ℤ → Clock
incr_global_time_offset c inc = record c { global_time_offset = c.global_time_offset +ℤ inc }
