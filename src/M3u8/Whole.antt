-- ===== src/M3u8/Whole.antt =====
-- src/task/m3u8_to_mp4.cpp: the tasks that `gen_task_seq` makes have all segments between them.
use lingdong.Prelude.{
  ℕ, zero, suc, ◌+◌, ◌/◌, ◌%◌, ◌^◌, ◌≤◌, ◌<◌, ◌≡◌, refl, sym, ap, ◌∙◌, false, List, [], ◌∷◌, ◌++◌,
  none, some, Result, ok, bind-ok, drop, drop-ge, length, get_elem?, ltb, ◌==◌, Bool-cases,
  Option-cases, inl, inr, arith,
}
use Prim.Native.Nat.{min}
use native.Mathlib.Nat.{le-div_iff_mul-le}
use lingdong.M3u8.{
  M3u8Segment, M3u8, TaskMeta, next_segments, gen_tasks, task_limit, step_of, gen_task_seq,
}

drop-some :
    (segs : List M3u8Segment) (i : ℕ) {seg : M3u8Segment}
    → get_elem? segs i ≡ some seg
    → (i < length segs) × (drop i segs ≡ seg ∷ drop (suc i) segs)
drop-some [] i e = cc e
drop-some (s ∷ segs) zero e = (omega arith, cc e)
drop-some (s ∷ segs) (suc i) e = let (h, k) = drop-some segs i e in (omega arith, k)

drop-none : (segs : List M3u8Segment) (i : ℕ) → get_elem? segs i ≡ none → length segs ≤ i
drop-none [] i e = omega arith
drop-none (s ∷ segs) zero e = cc e
drop-none (s ∷ segs) (suc i) e = omega (arith, drop-none segs i e)

-- A round of the outer loop takes the next segments, at most as many as the step.
abbrev Taken : ℕ → List M3u8Segment → ℕ → List M3u8Segment × ℕ → Type 0
Taken left segs i (taken, i') =
    (taken ++ drop i' segs ≡ drop i segs)
    × (i' ≡ i + length taken)
    × (i' ≤ length segs)
    × (length taken ≤ left)
    × (0 < left → i < length segs → 0 < length taken)

next_segments-Taken :
    (left : ℕ) (segs : List M3u8Segment) (i : ℕ)
    → length segs < 2 ^ 32
    → i ≤ length segs
    → Taken left segs i (next_segments left segs i)
unfolding next_segments
next_segments-Taken zero segs i small h =
    (refl, omega arith, h, omega arith, λ l. absurd (omega arith))
next_segments-Taken (suc left) segs i small h = elim (Option-cases (get_elem? segs i)) [
  | inl end ↦
      rw (end, next_segments)
        (
          refl,
          omega arith,
          h,
          omega arith,
          λ l before. absurd (omega (arith, drop-none segs i end)),
        )
  | inr (seg, there) ↦
      let (before, next) = drop-some segs i there in
      let wraps : (i + 1) % 2 ^ 32 ≡ suc i = omega arith in
      let (same, moved, inside, few, some_taken) =
        next_segments-Taken left segs (suc i) small (omega arith) in
      rw (there, next_segments)
        (rw wraps
          (ap (◌∷◌ seg) same ∙ sym next, omega arith, inside, omega arith, λ l b. omega arith))
]

abbrev pub all_segments : List TaskMeta → List M3u8Segment
all_segments [] = []
all_segments (task ∷ tasks) = task.task_segments ++ all_segments tasks

-- The tasks have some segments each, at most as many as the step, and are numbered in turn.
abbrev pub Numbered : ℕ → ℕ → List TaskMeta → Type 0
Numbered step number [] = Unit
Numbered step number (task ∷ tasks) =
    (0 < length task.task_segments)
    × (length task.task_segments ≤ step)
    × (task.id ≡ number + 1)
    × Numbered step (number + 1) tasks

module _ (m : M3u8) (step : ℕ) (small : length m.segments < 2 ^ 32) (some_step : 0 < step) where
  abbrev Rest : ℕ → ℕ → Result (List TaskMeta) → Type 0
  Rest i number run =
      (tasks : List TaskMeta) × (run ≡ ok tasks)
      × (all_segments tasks ≡ drop i m.segments)
      × Numbered step number tasks

  gen_tasks-Rest :
      (fuel i number : ℕ)
      → length m.segments ≤ i + fuel
      → i ≤ length m.segments
      → number ≤ i
      → Rest i number (gen_tasks fuel m step i number)
  unfolding gen_tasks
  gen_tasks-Rest zero i number enough h few =
      let end : ltb i (length m.segments) ≡ false = ground arith in
      rw end ([], refl, sym (drop-ge i m.segments (omega arith)), tt)
  gen_tasks-Rest (suc fuel) i number enough h few = elim (Bool-cases (ltb i (length m.segments))) [
    | inr end ↦
        let behind : length m.segments ≤ i = ground (arith, end) in
        rw end ([], refl, sym (drop-ge i m.segments behind), tt)
    | inl more ↦
        let before : i < length m.segments = ground (arith, more) in
        let (same, moved, inside, at_most, some_taken) =
          next_segments-Taken step m.segments i small h in
        let taken = some_taken some_step before in
        let (tasks, run, all, numbered) =
          gen_tasks-Rest fuel (next_segments step m.segments i).1 (number + 1) (omega arith) inside
            (omega arith) in
        rw more (
          _,
          bind-ok _ run,
          ap (λ segs. (next_segments step m.segments i).0 ++ segs) all ∙ same,
          (taken, at_most, omega arith, numbered),
        )
  ]

step-positive :
    (n concurrent : ℕ)
    → 0 < concurrent
    → 0 < n
    → n < 2 ^ 32
    → 0 < n % 2 ^ 32 / min concurrent (n % 2 ^ 32)
step-positive n concurrent c h small =
    let same : n % 2 ^ 32 ≡ n = omega arith in
    rw same ((le-div_iff_mul-le (omega arith)).1 (omega arith))

-- If there are segments, but fewer than 2^32, and `concurrent` is not 0, then `gen_task_seq` ends
-- within a round for each segment. The tasks have all segments between them, in their order; none
-- is without segments or has more than the step, and their ids count from 1.
pub gen_task_seq-whole :
    (m : M3u8) (concurrent : ℕ)
    → 0 < concurrent
    → 0 < length m.segments
    → length m.segments < 2 ^ 32
    → (tasks : List TaskMeta) × (gen_task_seq (length m.segments) (some m) concurrent ≡ ok tasks)
      × (all_segments tasks ≡ m.segments)
      × Numbered (step_of m concurrent) 0 tasks
unfolding gen_task_seq
gen_task_seq-whole m concurrent c some_segments small =
    let limit : (task_limit m concurrent == 0) ≡ false = ground arith in
    let step : 0 < step_of m concurrent =
      step-positive (length m.segments) concurrent c some_segments small in
    let (tasks, run, all, numbered) =
      gen_tasks-Rest m (step_of m concurrent) small step (length m.segments) 0 0 (omega arith)
        (omega arith) (omega arith) in
    rw limit (tasks, run, all, numbered)
