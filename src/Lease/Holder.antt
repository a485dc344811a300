-- ===== src/Lease/Holder.antt =====
-- errander/safety/agent_lease.py: who may hold the lease, and for how long.
use mathlib.Core.Path.{subst}
use errander_ai.Common.{
  ℕ, suc, ◌+◌, ◌<◌, ◌≡◌, refl, sym, ap, Bool, true, false, not, ◌&&◌, Option, none, some, List, [],
  ◌∷◌, arith, leb, ◌==◌, if◌then◌else◌, lt→ltb, Bool-cases, inl, inr,
}
use errander_ai.Lease.{
  LeaseRow, Agent, is_stale, own_row, acquire, alone, heartbeat, release, is_expired, LeaseOp,
  acquires, beats, releases, step, run,
}

-- If no other transaction commits between its statements, an agent gets the lease exactly when `is_expired` says that there is none or a silent one, and then
-- it is the holder.
pub acquire-is_expired :
    (a : Agent) (now : ℕ) (table : Option LeaseRow)
    → ((acquire alone a now table).1 ≡ is_expired a now table)
      × ((acquire alone a now table).0
          ≡ (if is_expired a now table then some (own_row a now) else table))
unfolding acquire is_expired
acquire-is_expired a now none = (refl, refl)
acquire-is_expired a now (some row) = ground arith

acquire-own :
    (a : Agent) (now : ℕ) (table : Option LeaseRow)
    → (acquire alone a now table).1 ≡ true
    → (acquire alone a now table).0 ≡ some (own_row a now)
unfolding acquire
acquire-own a now none wins = refl
acquire-own a now (some row) wins = ground (arith, wins)

-- The processes keep the lease of an agent in order: nobody looks later than the time to live after
-- the last heartbeat, and no other process has its pid.
unfoldable pub punctual : Agent → ℕ → List LeaseOp → Bool
punctual a last [] = true
punctual a last (acquires b now ∷ ops) =
    let rest = punctual a last ops in leb now (last + b.ttl) && rest
punctual a last (beats b now ∷ ops) =
    let mine = punctual a now ops in
    let rest = punctual a last ops in if b.pid == a.pid then mine else rest
punctual a last (releases b ∷ ops) = let rest = punctual a last ops in not (b.pid == a.pid) && rest

-- How many calls of `acquire` win in a run.
unfoldable pub won : Option LeaseRow → List LeaseOp → ℕ
won table [] = 0
won table (acquires b now ∷ ops) =
    let rest = won (step table (acquires b now)) ops in
    if (acquire alone b now table).1 then suc rest else rest
won table (beats b now ∷ ops) = won (step table (beats b now)) ops
won table (releases b ∷ ops) = won (step table (releases b)) ops

pub record Holds (a : Agent) (last : ℕ) (table : Option LeaseRow) : Type 0 where
  pub row : LeaseRow
  pub is_held : table ≡ some row
  pub same_pid : row.pid ≡ a.pid
  pub same_host : row.hostname ≡ a.hostname
  pub last_beat : row.last_heartbeat ≡ last

acquire_refused :
    (b : Agent) (now : ℕ) (row : LeaseRow)
    → is_stale b now row ≡ false
    → acquire alone b now (some row) ≡ (some row, false)
unfolding acquire
acquire_refused b now row fresh = rw fresh refl

heartbeat_foreign :
    (b : Agent) (now : ℕ) (row : LeaseRow)
    → (row.pid == b.pid) ≡ false
    → heartbeat b now (some row) ≡ some row
unfolding heartbeat
heartbeat_foreign b now row other = rw other refl

heartbeat_own :
    (b : Agent) (now : ℕ) (row : LeaseRow)
    → (row.pid == b.pid) ≡ true
    → heartbeat b now (some row) ≡ some (record row { last_heartbeat = now })
unfolding heartbeat
heartbeat_own b now row mine =
    ap (λ c. if c then some (record row { last_heartbeat = now }) else some row) mine

release_foreign :
    (b : Agent) (row : LeaseRow) → (row.pid == b.pid) ≡ false → release b (some row) ≡ some row
unfolding release
release_foreign b row other = rw other refl

-- What a run of calls does to the lease of an agent: no call of `acquire` wins, and the agent still
-- holds it.
Keeps : Agent → Option LeaseRow → List LeaseOp → Type 0
Keeps a table ops = (won table ops ≡ 0) × ((last : ℕ) × Holds a last (run table ops))

Keeps-acquires :
    (a b : Agent) (now : ℕ) (row : LeaseRow) (ops : List LeaseOp)
    → is_stale b now row ≡ false
    → Keeps a (some row) ops
    → Keeps a (some row) (acquires b now ∷ ops)
unfolding Keeps won run step
Keeps-acquires a b now row ops fresh k =
    let stays : step (some row) (acquires b now) ≡ some row =
      ap (λ r. r.0) (acquire_refused b now row fresh) in
    (
      rw (acquire_refused b now row fresh, stays) k.0,
      subst (λ t. (last : ℕ) × Holds a last (run t ops)) (sym stays) k.1,
    )

Keeps-beats :
    (a b : Agent) (now : ℕ) (row row' : LeaseRow) (ops : List LeaseOp)
    → heartbeat b now (some row) ≡ some row'
    → Keeps a (some row') ops
    → Keeps a (some row) (beats b now ∷ ops)
unfolding Keeps won run step
Keeps-beats a b now row row' ops e k = rw e k

Keeps-releases :
    (a b : Agent) (row : LeaseRow) (ops : List LeaseOp)
    → (row.pid == b.pid) ≡ false
    → Keeps a (some row) ops
    → Keeps a (some row) (releases b ∷ ops)
unfolding Keeps won run step
Keeps-releases a b row ops other k = rw (release_foreign b row other) k

punctual-Keeps :
    (a : Agent) (last : ℕ) (row : LeaseRow) (ops : List LeaseOp)
    → row.pid ≡ a.pid
    → row.hostname ≡ a.hostname
    → row.last_heartbeat ≡ last
    → punctual a last ops ≡ true
    → Keeps a (some row) ops
unfolding punctual
punctual-Keeps a last row [] p h l ok =
    unfold Keeps won run in
    (refl, (last, record { row = row; is_held = refl; same_pid = p; same_host = h; last_beat = l }))
punctual-Keeps a last row (acquires b now ∷ ops) p h l ok =
    Keeps-acquires a b now row ops (ground (arith, ok, l))
      (punctual-Keeps a last row ops p h l (ground (arith, ok)))
punctual-Keeps a last row (beats b now ∷ ops) p h l ok = elim (Bool-cases (b.pid == a.pid)) [
  | inl mine ↦
      Keeps-beats a b now row (record row { last_heartbeat = now }) ops
        (heartbeat_own b now row (ground (arith, mine, p)))
        (punctual-Keeps a now (record row { last_heartbeat = now }) ops p h refl
          (ground (arith, ok, mine)))
  | inr other ↦
      Keeps-beats a b now row row ops (heartbeat_foreign b now row (ground (arith, other, p)))
        (punctual-Keeps a last row ops p h l (ground (arith, ok, other)))
]
punctual-Keeps a last row (releases b ∷ ops) p h l ok =
    Keeps-releases a b row ops (ground (arith, ok, p))
      (punctual-Keeps a last row ops p h l (ground (arith, ok)))

-- After an agent has got the lease, every further `acquire` fails and the agent keeps the lease, if no
-- `acquire` comes between the statements of another one, and as long as no process looks later than its time to live after the agent's last heartbeat, and no process
-- with the same pid releases the lease.
pub one_holder :
    (a : Agent) (now : ℕ) (table : Option LeaseRow) (ops : List LeaseOp)
    → (acquire alone a now table).1 ≡ true
    → punctual a now ops ≡ true
    → (won (acquire alone a now table).0 ops ≡ 0)
      × ((last : ℕ) × Holds a last (run (acquire alone a now table).0 ops))
one_holder a now table ops wins ok =
    let mine : (acquire alone a now table).0 ≡ some (own_row a now) =
      acquire-own a now table wins in
    rw mine (unfold Keeps in (punctual-Keeps a now (own_row a now) ops refl refl refl ok))

-- A lease that nobody renews is lost: an agent that looks later than its time to live gets it, whoever
-- holds it and whether or not that process still runs.
pub unrenewed_lost :
    (a b : Agent) (start now : ℕ) (table : Option LeaseRow)
    → (acquire alone a start table).1 ≡ true
    → start + b.ttl < now
    → acquire alone b now (acquire alone a start table).0 ≡ (some (own_row b now), true)
unrenewed_lost a b start now table wins late =
    let mine : (acquire alone a start table).0 ≡ some (own_row a start) =
      acquire-own a start table wins in
    rw mine (unfold acquire in (rw (lt→ltb (start + b.ttl) now late) refl))

-- A process with the pid of the holder takes the lease away with `release`, on whichever host it runs,
-- and the next agent gets it.
pub release_by_pid :
    (a b c : Agent) (start now : ℕ) (table : Option LeaseRow)
    → (acquire alone a start table).1 ≡ true
    → b.pid ≡ a.pid
    → acquire alone c now (release b (acquire alone a start table).0) ≡ (some (own_row c now), true)
release_by_pid a b c start now table wins same =
    let mine : (acquire alone a start table).0 ≡ some (own_row a start) =
      acquire-own a start table wins in
    let same_pid : (a.pid == b.pid) ≡ true = ground (arith, same) in
    let gone : release b (some (own_row a start)) ≡ none =
      unfold release in ap (λ x. if x then none else some (own_row a start)) same_pid in
    rw (mine, gone) (unfold acquire in refl)
