-- ===== src/Clock/Tests.antt =====
-- The clocks on concrete numbers, and each theorem at them.
use xgc2_ugv_controller.Base.{
  ◌≡◌, refl, ◌+◌, ◌<◌, ◌^◌, ◌≤ℤ◌, true, false, some, none, ℤ, pos, negsuc, pos_part, neg_part,
  arith, inl,
}
use xgc2_ugv_controller.Floating.Fixed.{fixed_double}
use xgc2_ugv_controller.Clock.Time.{
  Duration, Time, duration_from_nsec, normalize, sub_time, add_time,
}
use xgc2_ugv_controller.Clock.Time.Laws.{
  IsTime, Represents, duration_from_nsec-Represents, sub_time_lem, add_time-sub_time, sub_time-none,
}
use xgc2_ugv_controller.Clock.Gate.{PeriodicGate, due}
use xgc2_ugv_controller.Clock.Gate.Laws.{due-due}
use xgc2_ugv_controller.Clock.Cadence.{frame_start}
use xgc2_ugv_controller.Clock.Cadence.Laws.{frame_start_lem}

abbrev earlier : Time
earlier = record { sec = 1700000000; nsec = 600000000 }

abbrev later : Time
later = record { sec = 1700000002; nsec = 100000000 }

abbrev epoch : Time
epoch = record { sec = 0; nsec = 0 }

-- In 2038.
abbrev far : Time
far = record { sec = 2 ^ 31; nsec = 0 }

earlier-IsTime : IsTime earlier
earlier-IsTime = record { fraction = omega arith; in_range = omega arith }

later-IsTime : IsTime later
later-IsTime = record { fraction = omega arith; in_range = omega arith }

epoch-IsTime : IsTime epoch
epoch-IsTime = record { fraction = omega arith; in_range = omega arith }

far-IsTime : IsTime far
far-IsTime = record { fraction = omega arith; in_range = omega arith }

backwards : sub_time earlier later ≡ some (record { sec = negsuc 1; nsec = pos 500000000 })
unfolding sub_time duration_from_nsec normalize
backwards = refl

duration_from_nsec-Represents_example :
    Represents (negsuc 499999999) (duration_from_nsec (negsuc 499999999))
duration_from_nsec-Represents_example = duration_from_nsec-Represents (negsuc 499999999)

sub_time_lem_example : sub_time earlier later ≡ duration_from_nsec (negsuc 1499999999)
sub_time_lem_example = sub_time_lem earlier later earlier-IsTime later-IsTime

abbrev one_and_a_half_back : Duration
one_and_a_half_back = record { sec = negsuc 1; nsec = pos 500000000 }

add_time-sub_time_example : add_time later one_and_a_half_back ≡ some earlier
add_time-sub_time_example =
    add_time-sub_time earlier later one_and_a_half_back earlier-IsTime later-IsTime backwards

sub_time-none_example : sub_time far epoch ≡ none
sub_time-none_example = sub_time-none far epoch far-IsTime epoch-IsTime (inl (omega arith))

-- A gate of 20 ms that was due 70 ms ago.
abbrev gate : PeriodicGate ℤ
gate = record { initialized = true; last_time = pos 930000000 }

gate_is_due : (due (pos 1000000000) (pos 20000000) gate).1 ≡ true
unfolding due
gate_is_due = refl

due-due_example :
    (due (pos 1000000000) (pos 20000000) (due (pos 1000000000) (pos 20000000) gate).0).1 ≡ false
due-due_example = due-due (pos 1000000000) 20000000 gate

-- Frames of 20 ns from a phase of 5 ns; -3 ns lies in the frame that begins at -15 ns.
frame_start_lem_example :
    (frame_start (pos 5) (pos 20) (negsuc 2) ≤ℤ negsuc 2)
    × (pos_part (negsuc 2) + neg_part (frame_start (pos 5) (pos 20) (negsuc 2))
        < pos_part (frame_start (pos 5) (pos 20) (negsuc 2)) + neg_part (negsuc 2) + 20)
frame_start_lem_example = frame_start_lem (pos 5) (negsuc 2) 20 (omega arith)
