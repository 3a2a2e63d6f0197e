-- ===== src/Tester/RecursionPasses.antt =====
-- The calls of assignment 4.1 and of `recursive_call_4_1` on the stack, and the test of 4.1.
use jake.Common.{
  ℕ, zero, suc, ◌+◌, ◌-◌, ◌*◌, ◌%◌, ◌^◌, ◌≤◌, ◌<◌, ◌≡◌, refl, ap, ◌∙◌, arith, Bool, true, false,
  ◌==◌, leb, ltb, Option, some,
}
use jake.Machine.{word}
use jake.Process.State.{sign_extend}
use jake.Tester.{fill_expected_recursive_call_args}
use jake.Tester.Rounds.{as_int}
use jake.Tester.Values.{sign_extend_small}
use jake.Tester.Memory.{load_int, put_int}
use jake.Tester.MemoryPasses.{eq→==}
use jake.Tester.Slots.{load_int-same, saved-ra, saved-k, put_int-above}
use jake.Tester.Recursion.{
  Course, Called, answers, Compiled, after_jalr, assignment_4_1, leave, recursive_call, after_call,
  recursion_rounds, test_assignment_4_1,
}

-- The return address keeps its value in 32 bits, and the function writes on its own frame only.
pub record IsCompiled (compiled : Compiled) : Type 0 where
  pub back_low : compiled.back < 2 ^ 31
  pub spill_above :
      (sp : ℕ) (mem : ℕ → ℕ) (x : ℕ) → sp + compiled.frame ≤ x → compiled.spill sp mem x ≡ mem x

-- The sum of the numbers up to `n`.
abbrev pub sum_to : ℕ → ℕ
sum_to zero = 0
sum_to (suc n) = sum_to n + suc n

sum_to-bound : (n : ℕ) → n ≤ 30 → sum_to n ≤ 30 * n
sum_to-bound zero l = omega arith
sum_to-bound (suc n) l = omega (arith, sum_to-bound n (omega arith))

-- A call from the course `c` ends with `value`, has counted up to `a` and moved on, and keeps the stack
-- pointer and the memory from it on.
pub record Summed (r : Option Called) (value a : ℕ) (c : Course) : Type 0 where
  pub result : Course
  pub ends : r ≡ some (answers value result)
  pub counted : result.index ≡ a + 1
  pub success_kept : result.success ≡ c.success
  pub sp_kept : result.sp ≡ c.sp
  pub mem_kept : (x : ℕ) → c.sp ≤ x → result.mem x ≡ c.mem x

after_jalr-sum :
    (ra k value : ℕ) (c : Course)
    → load_int c.sp c.mem ≡ ra
    → load_int (c.sp + 4) c.mem ≡ k
    → ra < 2 ^ 31
    → k < 2 ^ 31
    → c.sp + 8 < word
    → value + k < word
    → after_jalr ra (some (answers value c))
      ≡ some (answers (value + k) (record c { sp = c.sp + 8 }))
unfolding after_jalr
after_jalr-sum ra k value c e f l m room b =
    let same : (sign_extend ra == ra) ≡ true = eq→== _ _ (sign_extend_small ra l) in
    let sum : (value + k) % word ≡ value + k = omega arith in
    let up : (c.sp + 8) % word ≡ c.sp + 8 = omega arith in
    rw (e, f, same, sign_extend_small k m, sum, up) refl

-- The stack as assignment 4.1 leaves it to the function that it calls.
abbrev pushed : ℕ → ℕ → Course → Course
pushed k ra c = record c {
  sp = c.sp - 8;
  mem = put_int false (c.sp - 8) ra (put_int false (c.sp - 8 + 4) k c.mem);
}

assignment_4_1-Summed :
    (f : ℕ → Course → Option Called) (k ra a : ℕ) (c : Course)
    → k < 30
    → ra < 2 ^ 31
    → 8 ≤ c.sp
    → c.sp < word
    → Summed (f k (pushed (suc k) ra c)) (sum_to k) a (pushed (suc k) ra c)
    → Summed (assignment_4_1 f (suc k) ra c) (sum_to (suc k)) a c
unfolding assignment_4_1
assignment_4_1-Summed f k ra a c b l low high h =
    let down : (c.sp + word - 8) % word ≡ c.sp - 8 = omega arith in
    let next : (suc k + word - 1) % word ≡ k = omega arith in
    let more : (suc k == 0) ≡ false = ground arith in
    let at : h.result.sp ≡ c.sp - 8 = h.sp_kept in
    let stack = (pushed (suc k) ra c).mem in
    let at_ra : load_int h.result.sp h.result.mem ≡ ra = rw at (
      load_int-same (c.sp - 8) stack h.result.mem (λ i m. h.mem_kept i m)
      ∙ saved-ra (c.sp - 8) ra (suc k) c.mem l) in
    let at_k : load_int (h.result.sp + 4) h.result.mem ≡ suc k = rw at (
      load_int-same (c.sp - 8 + 4) stack h.result.mem (λ i m. h.mem_kept i (omega arith))
      ∙ saved-k (c.sp - 8) ra (suc k) c.mem (omega arith)) in
    let bound = sum_to-bound k (omega arith) in
    record {
      result = record h.result { sp = h.result.sp + 8 };
      ends =
          rw (down, next, more, h.ends)
            (after_jalr-sum ra (suc k) (sum_to k) h.result at_ra at_k l (omega arith)
              (omega (arith, at)) (omega (arith, bound)));
      counted = h.counted;
      success_kept = h.success_kept;
      sp_kept = omega (arith, at);
      mem_kept = λ x m.
          h.mem_kept x (omega arith)
          ∙ put_int-above (c.sp - 8) ra (put_int false (c.sp - 8 + 4) (suc k) c.mem) x (omega arith)
          ∙ put_int-above (c.sp - 8 + 4) (suc k) c.mem x (omega arith);
    }

assignment_4_1-zero :
    (f : ℕ → Course → Option Called) (ra a : ℕ) (c : Course)
    → c.index ≡ a + 1
    → Summed (assignment_4_1 f 0 ra c) 0 a c
unfolding assignment_4_1
assignment_4_1-zero f ra a c e = record {
  result = c;
  ends = refl;
  counted = e;
  success_kept = refl;
  sp_kept = refl;
  mem_kept = λ x l. refl;
}

leave-Summed :
    (r : Option Called) (frame value a : ℕ) (c d : Course)
    → value < 2 ^ 31
    → d.sp + frame ≡ c.sp
    → c.sp < word
    → d.success ≡ c.success
    → ((x : ℕ) → c.sp ≤ x → d.mem x ≡ c.mem x)
    → Summed r value a d
    → Summed (leave frame r) value a c
unfolding leave
leave-Summed r frame value a c d b e high s m h = record {
  result = record h.result { sp = (h.result.sp + frame) % word };
  ends = rw (h.ends, leave, sign_extend_small value b) refl;
  counted = h.counted;
  success_kept = h.success_kept ∙ s;
  sp_kept = let at = h.sp_kept in omega (arith, at, e);
  mem_kept = λ x l. h.mem_kept x (omega (arith, e)) ∙ m x l;
}

expected_at : (a arg index : ℕ) → arg + index ≡ a → fill_expected_recursive_call_args a index ≡ arg
unfolding fill_expected_recursive_call_args
expected_at a arg index e = ground arith

-- What `recursive_call_4_1` passes on to assignment 4.1.
abbrev entered : Compiled → Course → Course
entered compiled c = record {
  sp = c.sp - compiled.frame;
  mem = compiled.spill (c.sp - compiled.frame) c.mem;
  index = c.index + 1;
  success = c.success;
}

few_frames : (n frame : ℕ) → n < 30 → (n + 1) * (frame + 8) ≤ 30 * (frame + 8)
few_frames n frame l = grind arith

module _ (compiled : Compiled) (w : IsCompiled compiled) where
  call_enters :
      (rounds arg a : ℕ) (c : Course)
      → arg + c.index ≡ a
      → a < 30
      → compiled.frame ≤ c.sp
      → c.sp < word
      → recursive_call (suc rounds) compiled (fill_expected_recursive_call_args a) arg c
        ≡ leave compiled.frame (
            assignment_4_1
              (λ (k : ℕ) (d : Course).
                recursive_call rounds compiled (fill_expected_recursive_call_args a) k d)
              arg
              compiled.back
              (entered compiled c))
  unfolding recursive_call
  call_enters rounds arg a c e b low high =
      let at = expected_at a arg c.index e in
      let signed : ltb arg (2 ^ 31) ≡ true = ground arith in
      let int : as_int arg ≡ arg = omega arith in
      let same : (arg == arg) ≡ true = ground arith in
      let small : leb (2 ^ 31) arg ≡ false = ground arith in
      let down : (c.sp + word - compiled.frame) % word ≡ c.sp - compiled.frame = omega arith in
      rw (at, int, same, small, down, signed) refl

  -- With a number `a` below 30 in the table of the expected arguments, on the way down at `arg`, with enough
  -- rounds and a stack that holds `arg` + 1 frames of both functions below `sp`: recursive_call_4_1 and
  -- assignment 4.1 call one another down to 0 and end with the sum of the numbers up to `arg`. The table is
  -- then used up, the success is as it was, and the stack pointer and the memory from it on are kept. The
  -- return address is below 2 ^ 31, and the code of recursive_call_4_1 writes on its frame only.
  pub recursive_call-Summed :
      (rounds arg a : ℕ) (c : Course)
      → arg + c.index ≡ a
      → a < 30
      → arg < rounds
      → (arg + 1) * (compiled.frame + 8) ≤ c.sp
      → c.sp < word
      → Summed
          (recursive_call rounds compiled (fill_expected_recursive_call_args a) arg c)
          (sum_to arg)
          a
          c
  recursive_call-Summed zero arg a c e b l room high = absurd (omega arith)
  recursive_call-Summed (suc rounds) zero a c e b l room high =
      rw (call_enters rounds 0 a c e b (omega arith) high) (
        leave-Summed _ compiled.frame 0 a c (entered compiled c) (omega arith) (omega arith) high
          refl (λ x m. w.spill_above (c.sp - compiled.frame) c.mem x (omega arith))
          (assignment_4_1-zero _ compiled.back a (entered compiled c) (omega (arith, e))))
  recursive_call-Summed (suc rounds) (suc arg) a c e b l room high =
      rw (call_enters rounds (suc arg) a c e b (omega arith) high) (
        leave-Summed _ compiled.frame (sum_to (suc arg)) a c (entered compiled c)
          (omega (arith, sum_to-bound (suc arg) (omega arith))) (omega arith) high refl
          (λ x m. w.spill_above (c.sp - compiled.frame) c.mem x (omega arith))
          (assignment_4_1-Summed _ arg compiled.back a (entered compiled c) (omega arith) w.back_low
            (omega arith) (omega arith)
            (recursive_call-Summed rounds arg a
              (pushed (suc arg) compiled.back (entered compiled c)) (omega arith) b (omega arith)
              (omega arith) (omega arith))))

  recursion_rounds-passes :
      (num_reps i : ℕ) (c : Course)
      → 30 * (compiled.frame + 8) ≤ c.sp
      → c.sp < word
      → c.success ≡ true
      → recursion_rounds 30 compiled num_reps i c ≡ some true
  unfolding recursion_rounds after_call
  recursion_rounds-passes zero i c room high s = ap (λ (t : Bool). some t) s
  recursion_rounds-passes (suc num_reps) i c room high s =
      let a = i % 30 in
      let h =
        recursive_call-Summed 30 a a (record c { index = 0 }) (omega arith) (omega arith)
          (omega arith) (omega (arith, few_frames a compiled.frame (omega arith))) high in
      let here : (h.result.index == a + 1) ≡ true = eq→== _ _ h.counted in
      rw (h.ends, after_call, here)
        (recursion_rounds-passes num_reps (i + 1) h.result (rw h.sp_kept room) (rw h.sp_kept high)
          (h.success_kept ∙ s))

  pub assignment_4_1-passes :
      (num_reps : ℕ) (c : Course)
      → 30 * (compiled.frame + 8) ≤ c.sp
      → c.sp < word
      → test_assignment_4_1 30 compiled num_reps c ≡ some true
  unfolding test_assignment_4_1
  assignment_4_1-passes num_reps c room high =
      recursion_rounds-passes num_reps 0 (record c { success = true }) room high refl
