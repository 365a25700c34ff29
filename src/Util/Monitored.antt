-- ===== src/Util/Monitored.antt =====
-- What the monitor of pkg/util/util.go has noted, after any samples.
use mathlib.Core.Path.{subst}
use mathlib.Core.List.{append-nil, append_assoc}
use rosetta_ergo.Base.{
  ℕ, ◌<◌, ◌≤◌, true, false, List, [], ◌∷◌, ◌++◌, ◌≡◌, refl, arith, Result, ok, err, panics, blocks,
  All, All-append, ltb, Bool-cases, inl, inr, if◌then◌else◌,
}
use rosetta_ergo.Util.{
  Megabytes, MemoryUsage, Monitor, Sample, note_usage, new_monitor, monitor_memory_usage,
  after_slept,
}

-- Nothing is greater than itself, and `>` is transitive, as for floats.
pub record IsOrder (mb : Megabytes) : Type 0 where
  pub irreflexive : (a : mb.Size) → mb.gt a a ≡ false
  pub transitive : (a b c : mb.Size) → mb.gt a b ≡ true → mb.gt b c ≡ true → mb.gt a c ≡ true

-- The collections rise strictly along the log, from `low` to `high`.
abbrev pub Rises : {Size : Type 0} → ℕ → List (MemoryUsage Size × Size) → ℕ → Type 0
Rises low [] high = low ≡ high
Rises low ((usage, top) ∷ rest) high =
    (low < usage.garbage_collections) × Rises usage.garbage_collections rest high

Rises-append :
    {Size : Type 0} (low mid : ℕ) (log : List (MemoryUsage Size × Size)) (usage : MemoryUsage Size)
    (top : Size)
    → Rises low log mid
    → mid < usage.garbage_collections
    → Rises low (log ++ (usage, top) ∷ []) usage.garbage_collections
Rises-append low mid [] usage top e h = (rw e h, refl)
Rises-append low mid ((first, t) ∷ log) usage top (h, hs) more =
    (h, Rises-append first.garbage_collections mid log usage top hs more)

-- The usages that are measured: those until a sleep fails.
abbrev pub taken : {Size : Type 0} → List (Sample Size) → List (MemoryUsage Size)
taken [] = []
taken (s ∷ samples) =
    s.usage ∷ elim s.slept [ ok u ↦ taken samples | err e ↦ [] | panics ↦ [] | blocks ↦ [] ]

module _ (mb : Megabytes) where
  -- What the monitor has noted of the usages.
  pub record HasNoted (usages : List (MemoryUsage mb.Size)) (m : Monitor mb.Size) : Type 0 where
    pub heaps : All (λ (u : MemoryUsage mb.Size). mb.gt u.heap m.max_heap ≡ false) usages
    pub collections :
        All (λ (u : MemoryUsage mb.Size). u.garbage_collections ≤ m.garbage_collections) usages
    pub rises : Rises 0 m.logged m.garbage_collections

  module _ (order : IsOrder mb) where
    -- No heap is above a higher maximum.
    heaps_below :
        (usages : List (MemoryUsage mb.Size)) (top h : mb.Size)
        → mb.gt h top ≡ true
        → All (λ (u : MemoryUsage mb.Size). mb.gt u.heap top ≡ false) usages
        → All (λ (u : MemoryUsage mb.Size). mb.gt u.heap h ≡ false) usages
    heaps_below [] top h above all = tt
    heaps_below (u ∷ usages) top h above (below, all) = (
      elim (Bool-cases (mb.gt u.heap h)) [
        | inl over ↦ cc (order.transitive u.heap h top over above, below)
        | inr under ↦ under
      ],
      heaps_below usages top h above all,
    )

    collections_below :
        (usages : List (MemoryUsage mb.Size)) (n k : ℕ)
        → n < k
        → All (λ (u : MemoryUsage mb.Size). u.garbage_collections ≤ n) usages
        → All (λ (u : MemoryUsage mb.Size). u.garbage_collections ≤ k) usages
    collections_below [] n k h all = tt
    collections_below (u ∷ usages) n k h (below, all) =
        (omega arith, collections_below usages n k h all)

    top_of : MemoryUsage mb.Size → Monitor mb.Size → mb.Size
    top_of u m = if mb.gt u.heap m.max_heap then u.heap else m.max_heap

    heaps_noted :
        (usages : List (MemoryUsage mb.Size)) (u : MemoryUsage mb.Size) (m : Monitor mb.Size)
        → HasNoted usages m
        → All (λ (v : MemoryUsage mb.Size). mb.gt v.heap (top_of u m) ≡ false) (usages ++ u ∷ [])
    unfolding top_of
    heaps_noted usages u m n = elim (Bool-cases (mb.gt u.heap m.max_heap)) [
      | inl above ↦ rw above (
          All-append _ usages (u ∷ []) (heaps_below usages m.max_heap u.heap above n.heaps)
            (order.irreflexive u.heap, tt))
      | inr below ↦ rw below (All-append _ usages (u ∷ []) n.heaps (below, tt))
    ]

    note_usage-HasNoted :
        (usages : List (MemoryUsage mb.Size)) (u : MemoryUsage mb.Size) (m : Monitor mb.Size)
        → HasNoted usages m
        → HasNoted (usages ++ u ∷ []) (note_usage mb u m)
    unfolding note_usage top_of
    note_usage-HasNoted usages u m n =
        elim (Bool-cases (ltb m.garbage_collections u.garbage_collections)) [
          | inl more ↦
              let more' : m.garbage_collections < u.garbage_collections = ground arith in
              rw more (record {
                heaps = heaps_noted usages u m n;
                collections =
                    All-append _ usages (u ∷ [])
                      (collections_below usages m.garbage_collections u.garbage_collections more'
                        n.collections)
                      (omega arith, tt);
                rises = Rises-append 0 m.garbage_collections m.logged u _ n.rises more';
              })
          | inr same ↦
              let same' : u.garbage_collections ≤ m.garbage_collections = ground arith in
              rw same (record {
                heaps = heaps_noted usages u m n;
                collections = All-append _ usages (u ∷ []) n.collections (same', tt);
                rises = n.rises;
              })
        ]

    after_sleep :
        (slept : Result (Unit {0})) (usages rest : List (MemoryUsage mb.Size)) (m : Monitor mb.Size)
        (run : Result (Unit {0}) × Monitor mb.Size)
        → HasNoted usages m
        → HasNoted (usages ++ rest) run.1
        → HasNoted
            (usages ++ elim slept [ ok u ↦ rest | err e ↦ [] | panics ↦ [] | blocks ↦ [] ])
            (after_slept slept m run).1
    after_sleep (ok u) usages rest m run n n' = n'
    after_sleep (err e) usages rest m run n n' = rw (append-nil usages) n
    after_sleep panics usages rest m run n n' = rw (append-nil usages) n
    after_sleep blocks usages rest m run n n' = rw (append-nil usages) n

    -- The loop from a monitor that has noted `usages`.
    loop-HasNoted :
        (usages : List (MemoryUsage mb.Size)) (samples : List (Sample mb.Size))
        (m : Monitor mb.Size)
        → HasNoted usages m
        → HasNoted (usages ++ taken samples) (monitor_memory_usage mb samples m).1
    unfolding monitor_memory_usage
    loop-HasNoted usages [] m n = rw (append-nil usages) n
    loop-HasNoted usages (s ∷ samples) m n =
        let m' = note_usage mb s.usage m in
        let here = note_usage-HasNoted usages s.usage m n in
        subst (λ us. HasNoted us (monitor_memory_usage mb (s ∷ samples) m).1)
          (append_assoc usages (s.usage ∷ []) _)
          (after_sleep s.slept (usages ++ s.usage ∷ []) (taken samples) m'
            (monitor_memory_usage mb samples m') here
            (loop-HasNoted (usages ++ s.usage ∷ []) samples m' here))

    -- Where a heap is not greater than itself and `>` is transitive: whatever it measures and
    -- however its sleeps end, the monitor keeps a maximum that no heap it has measured is above,
    -- and its counter is no lower than that of any usage; what it has logged are usages whose
    -- counters rise strictly, up to its own.
    pub monitor_memory_usage-HasNoted :
        (samples : List (Sample mb.Size))
        → HasNoted (taken samples) (monitor_memory_usage mb samples (new_monitor mb)).1
    monitor_memory_usage-HasNoted samples =
        loop-HasNoted [] samples (new_monitor mb)
          (record { heaps = tt; collections = tt; rises = refl })
