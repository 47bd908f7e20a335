-- ===== src/Tests/Program.antt =====
-- A run of src/kMQTTc.cpp.
use k_mqttd.Base.{false, ◌≤◌, ◌≡◌, ◌⊎◌, refl, true}
use k_mqttd.ClientProgram.{
  Run, start, make_p2, print_inner, outer_text, ThreadStep, of_thread, Reach, begin, next, makes_p2,
  prints_inner,
}
use k_mqttd.ClientProgram.Ends.{IsPrinted, Reach-ends}
use k_mqttd.Base.{bytes}

-- `p2` has printed its first byte, and `p1` none.
abbrev inner_first : Run
inner_first = print_inner 97 outer_text (bytes "aa\n") (make_p2 start)

inner_first_reached : Reach 2 inner_first
unfolding make_p2
inner_first_reached =
    next (next begin (of_thread (makes_p2 start refl refl)))
      (of_thread (prints_inner 97 outer_text (bytes "aa\n") (make_p2 start) refl refl))

Reach-ends_example :
    (inner_first.main_returned ≡ false)
    × (inner_first.outer_returned ≡ false)
    × (2 ≤ 10)
    × ((inner_first.is_terminated ≡ true) ⊎ ((r' : Run) × ThreadStep inner_first r'))
    × IsPrinted inner_first
Reach-ends_example = Reach-ends inner_first_reached
