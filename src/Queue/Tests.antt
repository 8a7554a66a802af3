-- ===== src/Queue/Tests.antt =====
-- A run of the entry queue of queue.go, and the theorem on it, at a concrete input.
use dragonboat.Prelude.{ℕ, ◌≡◌, refl, true, false, List, [], ◌∷◌, arith, ok}
use dragonboat.Pb.{Entry, empty_entry}
use dragonboat.Queue.EntryQueue.{EntryQueue, new_entry_queue}
use dragonboat.Queue.EntryQueue.Refinement.{
  Op, Reply, buffer_run, run, view, IsValid, new_entry_queue-IsValid, run-buffer_run,
}
use dragonboat.Queue.ReadyCluster.{new_ready_cluster, present}
use dragonboat.Queue.ReadyCluster.Refinement
use dragonboat.Queue.ReadyCluster.Refinement.{IsApart, run-ready_run}

abbrev entry : ℕ → Entry
entry k = record empty_entry { key = k }

-- Two entries fill the queue, a third is refused; after they are taken there is room again.
abbrev calls : List Op
calls =
    Op.add (entry 1)
    ∷ Op.add (entry 2)
    ∷ Op.add (entry 3)
    ∷ Op.get
    ∷ Op.add (entry 3)
    ∷ Op.get
    ∷ Op.close
    ∷ Op.add (entry 4)
    ∷ []

answers :
    (buffer_run calls (view (new_entry_queue 2 1))).1
    ≡ Reply.added true false
      ∷ Reply.added true false
      ∷ Reply.added false false
      ∷ Reply.got (entry 1 ∷ entry 2 ∷ [])
      ∷ Reply.added true false
      ∷ Reply.got (entry 3 ∷ [])
      ∷ Reply.closed
      ∷ Reply.added false true
      ∷ []
answers = refl

run-buffer_run_example :
    (p : EntryQueue × List Reply) × (run calls (new_entry_queue 2 1) ≡ ok p)
    × IsValid p.0
    × (buffer_run calls (view (new_entry_queue 2 1)) ≡ (view p.0, p.1))
run-buffer_run_example =
    run-buffer_run calls (new_entry_queue 2 1) (new_entry_queue-IsValid 2 1 (omega arith))

-- A group that is set ready while the worker holds the map shows up in the next one.
abbrev ready_calls : List Refinement.Op
ready_calls = Refinement.Op.set 3 ∷ Refinement.Op.get_all ∷ Refinement.Op.set 4 ∷ []

run-ready_run_example :
    IsApart (Refinement.run ready_calls (1, new_ready_cluster))
    × (Refinement.view (Refinement.run ready_calls (1, new_ready_cluster))
        ≡ record { collected = (4, present) ∷ []; held = (3, present) ∷ [] })
run-ready_run_example =
    run-ready_run ready_calls (1, new_ready_cluster) (record { ready_of = refl; other = refl })
