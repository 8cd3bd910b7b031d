-- ===== src/Core/Timer.antt =====
-- core/timer.go: the messages that an actor waits for, in a heap by their deadlines.
-- The time.Timer is the delay it was last set to, in nanoseconds, or nothing once it is stopped.
-- `now` is what the clock reads if the call reads it, which no call does twice.
use goactor.Prelude.{
  suc, ◌-◌, ◌*◌, ◌^◌, List, [], Option, none, some, ite, if◌then◌else◌, ℤ, pos, negsuc, wrap64,
  ◌-ℤ◌, lt_ℤ, le_ℤ, eq_ℤ, Str, Str_discrete, Run, ok, ◌>>=◌,
}
use goactor.Structs.QuadHeap
use goactor.Structs.QuadHeap.{QuadHeap, HeapItem}
use goactor.Message.{Message}

abbrev pub TimerHeap : Type 0
TimerHeap = QuadHeap Str Message ℤ

pub record Timer : Type 0 where
  pub timer : Option ℤ
  pub heap : TimerHeap

-- `time.Second * time.Duration(n)`
unfoldable pub seconds : ℤ → ℤ
seconds (pos n) = wrap64 (pos (n * 10 ^ 9))
seconds (negsuc n) = wrap64 (negsuc (suc n * 10 ^ 9 - 1))

-- NewTimer
unfoldable pub new_timer : Timer
new_timer = record { timer = none; heap = QuadHeap.new_quad_heap 1 }

unfoldable pub peek : Timer → Option (HeapItem Str Message ℤ)
peek t = QuadHeap.peek t.heap

-- Calibration
unfoldable pub calibration : ℤ → Timer → Timer
calibration now t = elim (peek t) [
  | none ↦ record t { timer = none }
  | some item ↦ record t { timer = some (seconds (item.when -ℤ now)) }
]

-- Upsert
unfoldable pub upsert : Timer → Str → Message → ℤ → Run Timer
upsert t key task when = do
  (heap, _) ← QuadHeap.upsert Str_discrete lt_ℤ eq_ℤ t.heap key task when
  ok (record t { heap = heap })

-- Add
unfoldable pub add : ℤ → Timer → Str → Message → ℤ → Run Timer
add now t key task when = do
  t' ← upsert t key task when
  ok (elim (peek t) [
    | none ↦ calibration now t'
    | some item ↦ if le_ℤ item.when when then t' else calibration now t'
  ])

-- Remove
unfoldable pub remove : Timer → Str → Run Timer
remove t key = do
  (heap, _) ← QuadHeap.remove Str_discrete lt_ℤ eq_ℤ t.heap key
  ok (record t { heap = heap })

-- Del
unfoldable pub del : ℤ → Timer → Str → Run Timer
del now t key = do
  t' ← remove t key
  ok (elim (peek t) [
    | none ↦ t'
    | some item ↦ ite (Str_discrete item.key key) (calibration now t') t'
  ])

-- RetryAfter
unfoldable pub retry_after : Timer → ℤ → Timer
retry_after t delay = record t {
  timer = some (if le_ℤ delay (pos 0) then seconds (pos 1) else delay);
}

-- All
unfoldable pub all : Timer → List (HeapItem Str Message ℤ)
all t = []
