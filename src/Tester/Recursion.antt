-- ===== src/Tester/Recursion.antt =====
-- Assignment 4.1 of asm/assignments, which calls back the function that it is given, with this
-- function and the test in asm/tester_src/tester_main.c. The memory is by bytes. A call that does not
-- come back to where it was made from strays, and nothing is said of what it does then.
use jake.Common.{
  ℕ, zero, suc, ◌+◌, ◌-◌, ◌%◌, ◌^◌, Bool, true, false, ◌==◌, leb, if◌then◌else◌, Option, none, some,
}
use jake.Machine.{word}
use jake.Process.State.{sign_extend}
use jake.Tester.{fill_expected_recursive_call_args}
use jake.Tester.Rounds.{as_int}
use jake.Tester.Memory.{load_int, put_int}

-- The stack pointer, the memory, `index_in_recursive_table` and `assignment_4_1_success`.
pub record Course : Type 0 where
  pub sp : ℕ
  pub mem : ℕ → ℕ
  pub index : ℕ
  pub success : Bool

-- How a call ends: `exit(0)`, at another place than it was made from, or with a result.
pub data Called : Type 0 where
  exits : Called
  strays : Called
  answers : (value : ℕ) (c : Course) → Called

-- What the compiler makes of `recursive_call_4_1`: the address behind its call of assignment 4.1, the
-- bytes that it takes from the stack, and what it writes there.
pub record Compiled : Type 0 where
  pub back : ℕ
  pub frame : ℕ
  pub spill : ℕ → (ℕ → ℕ) → ℕ → ℕ

-- Assignment 4.1 behind its call of the function, where `ra` is the address to return to: lw, add, lw,
-- addi and jr.
unfoldable pub after_jalr : ℕ → Option Called → Option Called
after_jalr ra none = none
after_jalr ra (some exits) = some exits
after_jalr ra (some strays) = some strays
after_jalr ra (some (answers value c)) =
    let k = sign_extend (load_int (c.sp + 4) c.mem) in
    if sign_extend (load_int c.sp c.mem) == ra
    then some (answers ((value + k) % word) (record c { sp = (c.sp + 8) % word }))
    else some strays

unfoldable pub assignment_4_1 : (ℕ → Course → Option Called) → ℕ → ℕ → Course → Option Called
assignment_4_1 f k ra c =
    let sp = (c.sp + word - 8) % word in
    let saved = put_int false sp ra (put_int false (sp + 4) k c.mem) in
    let called = f ((k + word - 1) % word) (record c { sp = sp; mem = saved }) in
    if k == 0 then some (answers k c) else after_jalr ra called

-- The end of `recursive_call_4_1`.
unfoldable pub leave : ℕ → Option Called → Option Called
leave frame none = none
leave frame (some exits) = some exits
leave frame (some strays) = some strays
leave frame (some (answers value c)) =
    some (answers (sign_extend value) (record c { sp = (c.sp + frame) % word }))

-- `recursive_call_4_1` with assignment 4.1, which it calls at its end; `none`: the rounds have run out.
unfoldable pub recursive_call : ℕ → Compiled → (ℕ → ℕ) → ℕ → Course → Option Called
recursive_call zero compiled expected arg c = none
recursive_call (suc rounds) compiled expected arg c =
    let sp = (c.sp + word - compiled.frame) % word in
    let entered : Course = record {
      sp = sp;
      mem = compiled.spill sp c.mem;
      index = c.index + 1;
      success = if as_int arg == expected c.index then c.success else false;
    } in
    let called =
      assignment_4_1 (λ (k : ℕ) (d : Course). recursive_call rounds compiled expected k d)
        (sign_extend arg) compiled.back entered in
    if leb (2 ^ 31) (expected c.index) then some exits else leave compiled.frame called

-- `test_assignment_4_1` behind a call of `recursive_call_4_1` with `a`, and from round `i` on; `none`
-- also where the call strays.
unfoldable pub after_call : ℕ → Option Called → (Course → Option Bool) → Option Bool
after_call a none again = none
after_call a (some exits) again = some false
after_call a (some strays) again = none
after_call a (some (answers value c)) again =
    let rest = again c in if c.index == a + 1 then rest else some false

unfoldable pub recursion_rounds : ℕ → Compiled → ℕ → ℕ → Course → Option Bool
recursion_rounds rounds compiled zero i c = some c.success
recursion_rounds rounds compiled (suc num_reps) i c =
    let a = i % 30 in
    after_call a
      (recursive_call rounds compiled (fill_expected_recursive_call_args a) a
        (record c { index = 0 }))
      (λ (d : Course). recursion_rounds rounds compiled num_reps (i + 1) d)

unfoldable pub test_assignment_4_1 : ℕ → Compiled → ℕ → Course → Option Bool
test_assignment_4_1 rounds compiled num_reps c =
    recursion_rounds rounds compiled num_reps 0 (record c { success = true })
