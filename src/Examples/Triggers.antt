-- ===== src/Examples/Triggers.antt =====
-- One trigger, served by the goroutine that it starts.
use media_hub_oss.Prelude.{◌≤◌, ◌≡◌, refl, arith, true, false}
use media_hub_oss.Processing.Trigger.{
  Scan, Reach, here, next, trigger, enter, clear, begin, finish, release, leave, quiet,
  pass_exclusive, triggers_served,
}

abbrev passing : Scan
passing = record quiet { is_scanning_queue = true; in_pass = 1 }

Reach-passing : Reach quiet passing
Reach-passing =
    next (next (next (next here trigger) (enter (omega arith) refl)) (clear (omega arith)))
      (begin (omega arith))

pass_exclusive_example : passing.in_pass ≤ 1
pass_exclusive_example = pass_exclusive Reach-passing

served : Reach quiet quiet
served =
    next (next (next Reach-passing (finish (omega arith))) (release (omega arith)))
      (leave (omega arith) refl)

triggers_served_example : quiet.unserved ≡ false
triggers_served_example = triggers_served served refl refl
