-- ===== src/Process/Choice.antt =====
-- Which process the loops of src/kernel/process.c choose: the scheduler's, and the one that looks for
-- a free slot.
use jake.Common.{
  ℕ, zero, suc, ◌+◌, ◌-◌, ◌%◌, ◌<◌, ◌≡◌, refl, ap, ◌∙◌, arith, true, false, ltb, ◌==◌, pos, ◌≢◌,
}
use jake.Process.State.{
  running, is_paused, is_free_slot, max_processes, Kernel, returns, set_status,
}
use jake.Process.Scheduler.{
  scheduler_loop, schedule_found, proc_scheduler, context_switch, find_slot_loop,
  proc_find_free_process_slot,
}

pair : {a b c d : ℕ} → a ≡ b → c ≡ d → ◌≡◌ {A = ℕ × ℕ} (a, c) (b, d)
pair {a} {b} {c} {d} p q = ap (λ (t : ℕ). (t, c)) p ∙ ap (λ (t : ℕ). (b, t)) q

-- The loop looks at the slots behind `i` in a ring, and stops at the first paused one, or after
-- 256 rounds.
pub scheduler_loop-first :
    (rounds i j d : ℕ) (k : Kernel)
    → d < rounds
    → j + rounds ≡ max_processes
    → ((e : ℕ) → e < d → is_paused (k.process_list ((i + 1 + e) % max_processes)).status ≡ false)
    → is_paused (k.process_list ((i + 1 + d) % max_processes)).status ≡ true
    → scheduler_loop rounds i j k ≡ ((i + 1 + d) % max_processes, j + d + 1)
unfolding scheduler_loop
scheduler_loop-first zero i j d k lt total before found = absurd (omega arith)
scheduler_loop-first (suc rounds) i j zero k lt total before found =
    let e : (i + 1) % max_processes ≡ (i + 1 + 0) % max_processes =
      ap (λ (t : ℕ). t % max_processes) (omega arith) in
    let f : is_paused (k.process_list ((i + 1) % max_processes)).status ≡ true =
      ap (λ (t : ℕ). is_paused (k.process_list t).status) e ∙ found in
    rw f (pair e (omega arith))
scheduler_loop-first (suc rounds) i j (suc d) k lt total before found =
    let shift : (c : ℕ)
        → ((i + 1) % max_processes + 1 + c) % max_processes ≡ (i + 1 + suc c) % max_processes =
      λ (c : ℕ). omega arith in
    let f : is_paused (k.process_list ((i + 1) % max_processes)).status ≡ false =
      ap (λ (t : ℕ). is_paused (k.process_list t).status) (omega arith) ∙ before 0 (omega arith) in
    let g : ltb (j + 1) max_processes ≡ true = ground arith in
    let rest =
      scheduler_loop-first rounds ((i + 1) % max_processes) (j + 1) d k (omega arith) (omega arith)
        (λ (c : ℕ) (l : c < d).
          ap (λ (t : ℕ). is_paused (k.process_list t).status) (shift c)
          ∙ before (suc c) (omega arith))
        (ap (λ (t : ℕ). is_paused (k.process_list t).status) (shift d) ∙ found) in
    rw (f, g) (rest ∙ pair (shift d) (omega arith))

-- With no paused process in the list, the loop ends after its 256 rounds.
pub scheduler_loop-none :
    (rounds i j : ℕ) (k : Kernel)
    → 0 < rounds
    → j + rounds ≡ max_processes
    → ((t : ℕ) → t < max_processes → is_paused (k.process_list t).status ≡ false)
    → (scheduler_loop rounds i j k).1 ≡ max_processes
unfolding scheduler_loop
scheduler_loop-none zero i j k lt total none_paused = absurd (omega arith)
scheduler_loop-none (suc zero) i j k lt total none_paused =
    let f = none_paused ((i + 1) % max_processes) (omega arith) in
    let g : ltb (j + 1) max_processes ≡ false = ground arith in rw (f, g) (omega arith)
scheduler_loop-none (suc (suc rounds)) i j k lt total none_paused =
    let f = none_paused ((i + 1) % max_processes) (omega arith) in
    let g : ltb (j + 1) max_processes ≡ true = ground arith in
    let rest =
      scheduler_loop-none (suc rounds) ((i + 1) % max_processes) (j + 1) k (omega arith)
        (omega arith) none_paused in
    rw (f, g) rest

-- Where the first paused process behind the running one, in the ring of 256 slots, is fewer than 255
-- slots behind the next one, the scheduler makes it the running process and switches to it.
pub proc_scheduler-first :
    (k : Kernel) (d : ℕ)
    → d < max_processes - 1
    → ((e : ℕ)
        → e < d
        → is_paused (k.process_list ((k.proc_running + 1 + e) % max_processes)).status ≡ false)
    → is_paused (k.process_list ((k.proc_running + 1 + d) % max_processes)).status ≡ true
    → let t = (k.proc_running + 1 + d) % max_processes in
      proc_scheduler k ≡ context_switch (set_status t running (record k { proc_running = t }))
unfolding proc_scheduler schedule_found
proc_scheduler-first k d lt before found =
    let g : (0 + d + 1 == max_processes) ≡ false = ground arith in
    rw (scheduler_loop-first max_processes k.proc_running 0 d k (omega arith) refl before found, g)
      refl

-- With no paused process the scheduler returns, and changes nothing.
pub proc_scheduler-none :
    (k : Kernel)
    → ((t : ℕ) → t < max_processes → is_paused (k.process_list t).status ≡ false)
    → proc_scheduler k ≡ returns tt k
unfolding proc_scheduler schedule_found
proc_scheduler-none k none_paused =
    let e = scheduler_loop-none max_processes k.proc_running 0 k (omega arith) refl none_paused in
    let g : ((scheduler_loop max_processes k.proc_running 0 k).1 == max_processes) ≡ true =
      ground (arith, e) in
    rw g refl

-- The loop over the slots stops at the first that is free.
find_slot_loop-least :
    (rounds count d : ℕ) (k : Kernel)
    → d < rounds
    → count + d < max_processes
    → ((e : ℕ) → e < d → is_free_slot (k.process_list (count + e)).status ≡ false)
    → is_free_slot (k.process_list (count + d)).status ≡ true
    → find_slot_loop rounds count k ≡ count + d
unfolding find_slot_loop
find_slot_loop-least zero count d k lt bound before found = absurd (omega arith)
find_slot_loop-least (suc rounds) count zero k lt bound before found =
    let f : is_free_slot (k.process_list count).status ≡ true =
      ap (λ (t : ℕ). is_free_slot (k.process_list t).status) (omega arith) ∙ found in
    let g : (count == max_processes) ≡ false = ground arith in rw (f, g) (omega arith)
find_slot_loop-least (suc rounds) count (suc d) k lt bound before found =
    let f : is_free_slot (k.process_list count).status ≡ false =
      ap (λ (t : ℕ). is_free_slot (k.process_list t).status) (omega arith)
      ∙ before 0 (omega arith) in
    let g : (count == max_processes) ≡ false = ground arith in
    let shift : (c : ℕ) → count + 1 + c ≡ count + suc c = λ (c : ℕ). omega arith in
    let rest =
      find_slot_loop-least rounds (count + 1) d k (omega arith) (omega arith)
        (λ (c : ℕ) (l : c < d).
          ap (λ (t : ℕ). is_free_slot (k.process_list t).status) (shift c)
          ∙ before (suc c) (omega arith))
        (ap (λ (t : ℕ). is_free_slot (k.process_list t).status) (shift d) ∙ found) in
    rw (f, g) (rest ∙ shift d)

-- While fewer than 256 processes run, a new one gets the least free slot from slot 1 on.
pub proc_find_free_process_slot-least :
    (k : Kernel) (d : ℕ)
    → k.processes_total ≢ max_processes
    → 1 + d < max_processes
    → ((e : ℕ) → e < d → is_free_slot (k.process_list (1 + e)).status ≡ false)
    → is_free_slot (k.process_list (1 + d)).status ≡ true
    → proc_find_free_process_slot k ≡ pos (1 + d)
unfolding proc_find_free_process_slot
proc_find_free_process_slot-least k d few lt before found =
    let e = find_slot_loop-least max_processes 1 d k (omega arith) lt before found in
    let g : (1 + d == max_processes) ≡ false = ground arith in
    let h : (k.processes_total == max_processes) ≡ false = ground arith in rw (h, e, g) refl
