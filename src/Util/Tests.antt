-- ===== src/Util/Tests.antt =====
-- Three samples in whole megabytes, the last one before a sleep that is cancelled.
use rosetta_ergo.Base.{ℕ, pos, List, [], ◌∷◌, ok, err, ◌≡◌, refl, arith, sentinel, canceled, ltb}
use rosetta_ergo.Util.{
  Megabytes, MemoryUsage, Sample, new_monitor, monitor_memory_usage, new_status_recorder,
  serve_logged,
}
use rosetta_ergo.Util.Monitored.{IsOrder, HasNoted, taken, monitor_memory_usage-HasNoted}

abbrev megabytes : Megabytes
megabytes = record { Size = ℕ; none_used = 0; gt = λ a b. ltb b a }

abbrev usage : ℕ → ℕ → MemoryUsage ℕ
usage heap collections = record {
  heap = heap;
  stack = 1;
  system = 100;
  garbage_collections = collections;
}

abbrev samples : List (Sample ℕ)
samples =
    record { usage = usage 40 1; slept = ok tt }
    ∷ record { usage = usage 70 1; slept = ok tt }
    ∷ record { usage = usage 30 2; slept = err (sentinel canceled) }
    ∷ record { usage = usage 90 3; slept = ok tt }
    ∷ []

order : IsOrder megabytes
order = record { irreflexive = λ a. ground arith; transitive = λ a b c h k. ground arith }

logged :
    (monitor_memory_usage megabytes samples (new_monitor megabytes)).1.logged
    ≡ (usage 40 1, 40) ∷ (usage 30 2, 70) ∷ []
unfolding monitor_memory_usage
logged = refl

monitor_memory_usage-HasNoted_example :
    HasNoted megabytes
      (taken samples)
      (monitor_memory_usage megabytes samples (new_monitor megabytes)).1
monitor_memory_usage-HasNoted_example = monitor_memory_usage-HasNoted megabytes order samples

-- The recorder logs the last status, and passes both on.
recorded :
    serve_logged (pos 404 ∷ pos 500 ∷ []) new_status_recorder
    ≡ record { written = pos 404 ∷ pos 500 ∷ []; code = pos 500 }
unfolding serve_logged
recorded = refl
