-- ===== src/Lease.antt =====
-- errander/safety/agent_lease.py: the lease that one agent process holds. The primary key and the
-- CHECK on `id` leave room for one row, so the table is the row that it may have.
pub mod Holder
use errander_ai.Common.{
  ℕ, ◌+◌, ◌*◌, String, Bool, true, false, not, ◌&&◌, Option, none, some, List, [], ◌∷◌, ltb, leb,
  ◌==◌, if◌then◌else◌,
}

-- A row of `agent_lease`, with its texts for instants as microseconds.
pub record LeaseRow : Type 0 where
  pub pid : ℕ
  pub hostname : String
  pub acquired_at : ℕ
  pub last_heartbeat : ℕ

-- An `AgentLease`, with `ttl` in microseconds.
pub record Agent : Type 0 where
  pub pid : ℕ
  pub hostname : String
  pub ttl : ℕ

-- `last_heartbeat < now - ttl`, the clause of the DELETE.
abbrev pub is_stale : Agent → ℕ → LeaseRow → Bool
is_stale a now row = ltb (row.last_heartbeat + a.ttl) now

abbrev pub own_row : Agent → ℕ → LeaseRow
own_row a now = record {
  pid = a.pid;
  hostname = a.hostname;
  acquired_at = now;
  last_heartbeat = now;
}

-- The DELETE of `acquire`.
abbrev pub delete_stale : Agent → ℕ → Option LeaseRow → Option LeaseRow
delete_stale a now none = none
delete_stale a now (some row) = if is_stale a now row then none else some row

-- INSERT ... ON CONFLICT(id) DO UPDATE, which overwrites each column of a row that is there.
abbrev pub insert_or_overwrite : Agent → ℕ → Option LeaseRow → Option LeaseRow
insert_or_overwrite a now none = some (own_row a now)
insert_or_overwrite a now (some row) =
    some
      (record row { pid = a.pid; hostname = a.hostname; acquired_at = now; last_heartbeat = now })

-- What follows the SELECT: an AgentLeaseError where a row is left, and then the transaction is rolled
-- back.
abbrev pub acquire_after :
    (Option LeaseRow → Option LeaseRow)
    → Agent
    → ℕ
    → Option LeaseRow
    → Option LeaseRow
    → Option LeaseRow × Bool
acquire_after meanwhile a now table none = (insert_or_overwrite a now (meanwhile none), true)
acquire_after meanwhile a now table (some row) = (table, false)

-- `acquire`; the second result is false where it raises. Each statement sees what other transactions
-- have committed before it: `meanwhile` is what they commit between the SELECT and the INSERT.
unfoldable pub acquire :
    (Option LeaseRow → Option LeaseRow) → Agent → ℕ → Option LeaseRow → Option LeaseRow × Bool
acquire meanwhile a now table = acquire_after meanwhile a now table (delete_stale a now table)

-- No other transaction commits between the two statements.
abbrev pub alone : Option LeaseRow → Option LeaseRow
alone table = table

unfoldable pub heartbeat : Agent → ℕ → Option LeaseRow → Option LeaseRow
heartbeat a now none = none
heartbeat a now (some row) =
    if row.pid == a.pid then some (record row { last_heartbeat = now }) else some row

unfoldable pub release : Agent → Option LeaseRow → Option LeaseRow
release a none = none
release a (some row) = if row.pid == a.pid then none else some row

-- `current_holder` returns the row, and `is_expired` looks at its age.
unfoldable pub is_expired : Agent → ℕ → Option LeaseRow → Bool
is_expired a now none = true
is_expired a now (some row) = ltb (row.last_heartbeat + a.ttl) now

pub data LeaseOp : Type 0 where
  acquires : Agent → ℕ → LeaseOp
  beats : Agent → ℕ → LeaseOp
  releases : Agent → LeaseOp

-- One call after the other, where nothing comes between the statements of one.
unfoldable pub step : Option LeaseRow → LeaseOp → Option LeaseRow
unfolding acquire heartbeat release
step table (acquires a now) = (acquire alone a now table).0
step table (beats a now) = heartbeat a now table
step table (releases a) = release a table

unfoldable pub run : Option LeaseRow → List LeaseOp → Option LeaseRow
unfolding step
run table [] = table
run table (op ∷ ops) = run (step table op) ops
