-- ===== src/Quiesce/Tests.antt =====
-- quiesce.go, on concrete inputs: an election timeout of 10 ticks makes a threshold of 100.
use dragonboat.Prelude.{◌≡◌, refl, true, false, arith}
use dragonboat.Quiesce.{
  QuiesceManager, new_quiesce_manager, quiesced, quiesce_threshold, try_enter_quiesce,
}
use dragonboat.Quiesce.Activity.{
  Event, IsValid, on_event, on_event-IsValid, new_quiesce_manager-IsValid, try_enter_quiesce_lem,
  idle_ticks, idle_ticks-quiesced,
}

abbrev fresh : QuiesceManager
fresh = new_quiesce_manager 1 2 5 true

abbrev asleep : QuiesceManager
asleep = idle_ticks 101 fresh

idle_ticks-quiesced_example : quiesced (idle_ticks 101 fresh) ≡ true
unfolding new_quiesce_manager quiesced quiesce_threshold
idle_ticks-quiesced_example =
    idle_ticks-quiesced 101 fresh (new_quiesce_manager-IsValid 1 2 5 true) refl refl (omega arith)

on_event-IsValid_example : IsValid (on_event Event.increase fresh)
unfolding new_quiesce_manager
on_event-IsValid_example =
    on_event-IsValid Event.increase (new_quiesce_manager-IsValid 1 2 5 true) (omega arith)

try_enter_quiesce_lem_example : quiesced (try_enter_quiesce fresh) ≡ false
unfolding new_quiesce_manager quiesced
try_enter_quiesce_lem_example = try_enter_quiesce_lem fresh (new_quiesce_manager-IsValid 1 2 5 true)
