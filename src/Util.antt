-- ===== src/Util.antt =====
-- pkg/util/util.go and pkg/logger/logger.go.
-- The memory in use is a float64 of the library: its type, its zero and its `>` are parameters.
pub mod Monitored
pub mod Tests
use rosetta_ergo.Base.{
  ℕ, ℤ, pos, Bool, List, [], ◌∷◌, ◌++◌, Result, ok, err, panics, blocks, sentinel, canceled, ltb,
  if◌then◌else◌,
}

pub record Megabytes : Type 1 where
  pub Size : Type 0
  pub none_used : Size
  pub gt : Size → Size → Bool

-- `sdkUtils.MemoryUsage`; the collections are a uint32.
pub record MemoryUsage (Size : Type 0) : Type 0 where
  pub heap : Size
  pub stack : Size
  pub system : Size
  pub garbage_collections : ℕ

-- The loop's variables, and what it has logged: each usage with the highest heap until then.
pub record Monitor (Size : Type 0) : Type 0 where
  pub max_heap : Size
  pub garbage_collections : ℕ
  pub logged : List (MemoryUsage Size × Size)

-- One round: what the library measures, and what the sleep returns.
pub record Sample (Size : Type 0) : Type 0 where
  pub usage : MemoryUsage Size
  pub slept : Result (Unit {0})

-- What follows a sleep: the next rounds, or the return of its error.
abbrev pub after_slept :
    {Size : Type 0}
    → Result (Unit {0})
    → Monitor Size
    → Result (Unit {0}) × Monitor Size
    → Result (Unit {0}) × Monitor Size
after_slept (ok u) m rest = rest
after_slept (err e) m rest = (err e, m)
after_slept panics m rest = (panics, m)
after_slept blocks m rest = (blocks, m)

module _ (mb : Megabytes) where
  open mb use {Size, none_used, gt}

  abbrev pub new_monitor : Monitor Size
  new_monitor = record { max_heap = none_used; garbage_collections = 0; logged = [] }

  abbrev pub note_heap : MemoryUsage Size → Monitor Size → Monitor Size
  note_heap usage m = record m {
    max_heap = if gt usage.heap m.max_heap then usage.heap else m.max_heap;
  }

  -- A usage is logged if memory was collected since the last one.
  abbrev pub note_collections : MemoryUsage Size → Monitor Size → Monitor Size
  note_collections usage m =
      if ltb m.garbage_collections usage.garbage_collections
      then record m {
        garbage_collections = usage.garbage_collections;
        logged = m.logged ++ (usage, m.max_heap) ∷ [];
      }
      else m

  unfoldable pub note_usage : MemoryUsage Size → Monitor Size → Monitor Size
  note_usage usage m = note_collections usage (note_heap usage m)

  -- The loop; the context is cancelled when the list is used up.
  unfoldable pub monitor_memory_usage :
      List (Sample Size) → Monitor Size → Result (Unit {0}) × Monitor Size
  unfolding note_usage
  monitor_memory_usage [] m = (err (sentinel canceled), m)
  monitor_memory_usage (s ∷ samples) m =
      let noted = note_usage s.usage m in
      let rest = monitor_memory_usage samples noted in after_slept s.slept noted rest

-- `StatusRecorder`: the statuses that were passed on to the response, and the last one.
pub record StatusRecorder : Type 0 where
  pub written : List ℤ
  pub code : ℤ

abbrev pub new_status_recorder : StatusRecorder
new_status_recorder = record { written = []; code = pos 200 }

unfoldable pub write_header : ℤ → StatusRecorder → StatusRecorder
write_header code r = record { written = r.written ++ code ∷ []; code = code }

-- The middleware: the statuses that the inner handler writes, and the code that is logged.
unfoldable pub serve_logged : List ℤ → StatusRecorder → StatusRecorder
unfolding write_header
serve_logged [] r = r
serve_logged (code ∷ codes) r = serve_logged codes (write_header code r)
