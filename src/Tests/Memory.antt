-- ===== src/Tests/Memory.antt =====
-- Runs of the memory budget, and its theorems at inputs that meet their hypotheses.
use polyform_polyguard.Base.{some, none, [], ◌∷◌, ◌≡◌, refl, arith, ok}
use polyform_polyguard.Memory.Calls.{release-reserve, grow_lem, absorb_lem}
use polyform_polyguard.Memory.Invariant.{Accounted, Reach-Accounted}
use polyform_polyguard.Memory.Steps.{System, fresh, enter, pass, exchange, Reach, here, later}
use polyform_polyguard.Memory.{
  MemoryBudget, MemoryPermit, next_used, reserve, release, grow, absorb,
}

abbrev budget : MemoryBudget
budget = record { id = 1; used = 4; limit = 10 }

abbrev permit : MemoryPermit
permit = record { budget = 1; bytes = 4 }

abbrev reserved : System
reserved = record {
  budget = record { id = 1; used = 4; limit = 10 };
  live = permit ∷ [];
  waiting = [];
}

fits_limit : next_used 10 0 4 ≡ ok 4
unfolding next_used
fits_limit = refl

reserved_reached : Reach 10 (fresh 1 10) reserved
reserved_reached =
    later
      (later (later here (enter 4 0 refl))
        (pass [] [] (record { bytes = 4; current = 0; next = none }) 4 refl fits_limit refl))
      (exchange [] [] (record { bytes = 4; current = 0; next = some 4 }) 4 refl refl refl refl)

Reach-Accounted_example : Accounted 10 reserved
Reach-Accounted_example = Reach-Accounted 10 (omega arith) 1 10 (omega arith) reserved_reached

reserve_run :
    reserve budget 3
    ≡ ok (record { id = 1; used = 7; limit = 10 }, record { budget = 1; bytes = 3 })
unfolding reserve
reserve_run = refl

release-reserve_example :
    release (record { id = 1; used = 7; limit = 10 }) (record { budget = 1; bytes = 3 }) ≡ budget
release-reserve_example = release-reserve budget (omega arith) 3 reserve_run

grow_lem_example : grow budget permit 3 ≡ record {
  budget = record { id = 1; used = 7; limit = 10 };
  permit = record { budget = 1; bytes = 7 };
  result = ok tt;
}
grow_lem_example = grow_lem budget (omega arith) permit 3 refl (omega arith)

absorb_lem_example :
    absorb budget (record { budget = 1; bytes = 3 }) (record { budget = 1; bytes = 1 })
    ≡ record { budget = budget; permit = permit; result = ok tt }
absorb_lem_example =
    absorb_lem budget (record { budget = 1; bytes = 3 }) (record { budget = 1; bytes = 1 })
      (omega arith) refl (omega arith)
