-- ===== src/Tests/Notifying.antt =====
-- Waiting clients at work: a table of two buckets.
use elliptics.Prelude.{ℕ, ◌≡◌, refl, Bool, true, false, List, [], ◌∷◌, Status, success}
use elliptics.Packet.{Cmd}
use elliptics.Notify.{NotifyTable}
use elliptics.Notify.Waiting.{Waiting, Agrees}
use elliptics.Notify.Refines.{Op, add, remove, news, run, list_run, run_refines}
use elliptics.Tests.Processing.{on_seven}

abbrev no_one : NotifyTable
no_one = record { buckets = λ h. []; hash_size = 2; refcnt = λ st. 1 }

abbrev nobody : Waiting
nobody = record { clients = []; refcnt = λ st. 1 }

no_one-Agrees : Agrees no_one nobody
no_one-Agrees = record { clients = λ id. refl; refcnt = λ st. refl }

abbrev not_own : ℕ → Bool
not_own st = false

abbrev accept : ℕ → Cmd → List ℕ → Status
accept st c body = success

abbrev day : List Op
day =
    add true 4 (on_seven 10)
    ∷ add true 5 (on_seven 10)
    ∷ news (on_seven 4) (1 ∷ [])
    ∷ remove (on_seven 10)
    ∷ []

run_refines_example :
    ((run not_own true accept day no_one).0 ≡ (list_run not_own true accept day nobody).0)
    × Agrees (run not_own true accept day no_one).1 (list_run not_own true accept day nobody).1
run_refines_example = run_refines not_own true accept day no_one nobody no_one-Agrees
