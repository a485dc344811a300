-- ===== src/Examples/Leases.antt =====
-- Two agents that want the lease of errander/safety/agent_lease.py.
use errander_ai.Common.{◌≡◌, refl, true, none, [], ◌∷◌, List, ℕ}
use errander_ai.Lease.{Agent, acquire, alone, LeaseOp, acquires, beats, releases, run}
use errander_ai.Lease.Holder.{punctual, won, Holds, one_holder}

abbrev first : Agent
first = record { pid = 10; hostname = "a"; ttl = 90000000 }

abbrev second : Agent
second = record { pid = 11; hostname = "b"; ttl = 90000000 }

-- The same pid on another host.
abbrev namesake : Agent
namesake = record { pid = 10; hostname = "c"; ttl = 90000000 }

abbrev rivals : List LeaseOp
rivals =
    acquires second 60000000
    ∷ beats first 80000000
    ∷ releases second
    ∷ acquires second 150000000
    ∷ []

gets_it : (acquire alone first 0 none).1 ≡ true
unfolding acquire
gets_it = refl

in_time : punctual first 0 rivals ≡ true
unfolding punctual
in_time = refl

one_holder_example :
    (won (acquire alone first 0 none).0 rivals ≡ 0)
    × ((last : ℕ) × Holds first last (run (acquire alone first 0 none).0 rivals))
one_holder_example = one_holder first 0 none rivals gets_it in_time
