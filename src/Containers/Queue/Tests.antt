-- ===== src/Containers/Queue/Tests.antt =====
-- Runs of src/lib/queue.c at concrete inputs.
use cs4411_p.Prelude.{◌≡◌, refl, false, none, some, List, [], ◌∷◌}
use cs4411_p.Containers.Queue.{Memory, queue_init, queue_insert, queue_add, queue_tget, assign}
use cs4411_p.Containers.Queue.Session.{
  Call, insert, add, tget, empty, size, Reply, done, got, is_empty, counted, run, ideal, queue_run,
}

-- The memory of another queue.
abbrev used : Memory
used = record { next = none; item = 9 } ∷ []

abbrev calls : List Call
calls = add 1 ∷ add 2 ∷ insert 3 ∷ size ∷ tget ∷ tget ∷ empty ∷ tget ∷ tget ∷ add 4 ∷ tget ∷ []

abbrev replies : List Reply
replies =
    done
    ∷ done
    ∷ done
    ∷ counted 3
    ∷ got (some 3)
    ∷ got (some 1)
    ∷ is_empty false
    ∷ got (some 2)
    ∷ got none
    ∷ done
    ∷ got (some 4)
    ∷ []

queue_runs : run used queue_init calls ≡ some replies
unfolding run queue_insert queue_add queue_tget assign
queue_runs = refl

queue_run_example : run used queue_init calls ≡ some replies
unfolding ideal
queue_run_example = queue_run used calls
