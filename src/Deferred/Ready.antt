-- ===== src/Deferred/Ready.antt =====
-- errander/safety/deferred.py: what `get_pending` returns, after `expire_old`.
use errander_ai.Common.{
  ℕ, ◌≤◌, ◌<◌, String, ◌≡◌, refl, Bool, true, ◌&&◌, List, [], ◌∷◌, arith, str_eq, eq_iff, ltb, leb,
  All, All-imp, select_where, update_where, count_where, order_by, insert_by, All-select_where,
  count_where-order_by, count_where-select_where, if_holds,
}
use errander_ai.Deferred.{
  DeferredExecution, DeferredStatus, pending, executing, done, expired, of_batch, is_pending,
  is_ready, get_pending, expire_old,
}

-- A record that waits for the present: of the environment, pending, and not past its time.
pub record Waits (env : String) (now : ℕ) (r : DeferredExecution) : Type 0 where
  pub of_env : r.env_name ≡ env
  pub is_waiting : r.status ≡ pending
  pub in_time : now < r.expiry_at

-- The same as a test.
abbrev pub waits : String → ℕ → DeferredExecution → Bool
waits env now r = str_eq r.env_name env && (is_pending r.status && ltb now r.expiry_at)

abbrev pub AtLeast : ℕ → List DeferredExecution → Type 0
AtLeast k [] = Unit
AtLeast k (r ∷ rows) = k ≤ r.window_start

-- In the order of the beginnings of the windows.
abbrev pub InOrder : List DeferredExecution → Type 0
InOrder [] = Unit
InOrder (r ∷ rows) = AtLeast r.window_start rows × InOrder rows

-- The records that are taken up: each waits, they are in order, and of each batch there are as many as
-- the table has that wait.
pub record TakesUp (env : String) (now : ℕ) (rows taken : List DeferredExecution) : Type 0 where
  pub all_wait : All (Waits env now) taken
  pub in_order : InOrder taken
  pub none_missed :
      (id : String)
      → count_where (of_batch id) taken ≡ count_where (λ r. of_batch id r && waits env now r) rows

pending_status : (status : DeferredStatus) → is_pending status ≡ true → status ≡ pending
pending_status pending h = refl
pending_status executing h = cc
pending_status done h = cc
pending_status expired h = cc

is_ready-Waits :
    (env : String) (now : ℕ) (r : DeferredExecution) → is_ready env now r ≡ true → Waits env now r
is_ready-Waits env now r ready = record {
  of_env = (eq_iff r.env_name env).0 (ground (arith, ready));
  is_waiting = pending_status r.status (ground (arith, ready));
  in_time = ground (arith, ready);
}

insert_by-AtLeast :
    (k : ℕ) (r : DeferredExecution) (rows : List DeferredExecution)
    → k ≤ r.window_start
    → AtLeast k rows
    → AtLeast k (insert_by (λ d. d.window_start) r rows)
unfolding insert_by
insert_by-AtLeast k r [] low h = low
insert_by-AtLeast k r (q ∷ rows) low h =
    if_holds (AtLeast k) (leb r.window_start q.window_start) (λ _. low) (λ _. h)

insert_by-InOrder :
    (r : DeferredExecution) (rows : List DeferredExecution)
    → InOrder rows
    → InOrder (insert_by (λ d. d.window_start) r rows)
unfolding insert_by
insert_by-InOrder r [] h = (tt, tt)
insert_by-InOrder r (q ∷ rows) (low, h) =
    if_holds InOrder (leb r.window_start q.window_start)
      (λ first. (ground (arith, first), (low, h)))
      (λ later. (
        insert_by-AtLeast q.window_start r rows (ground (arith, later)) low,
        insert_by-InOrder r rows h,
      ))

order_by-InOrder : (rows : List DeferredExecution) → InOrder (order_by (λ d. d.window_start) rows)
unfolding order_by
order_by-InOrder [] = tt
order_by-InOrder (r ∷ rows) =
    insert_by-InOrder r (order_by (λ d. d.window_start) rows) (order_by-InOrder rows)

insert_by-All :
    (P : DeferredExecution → Type 0) (r : DeferredExecution) (rows : List DeferredExecution)
    → P r
    → All P rows
    → All P (insert_by (λ d. d.window_start) r rows)
unfolding insert_by
insert_by-All P r [] p a = (p, tt)
insert_by-All P r (q ∷ rows) p (b, a) =
    if_holds (All P) (leb r.window_start q.window_start) (λ _. (p, (b, a)))
      (λ _. (b, insert_by-All P r rows p a))

order_by-All :
    (P : DeferredExecution → Type 0) (rows : List DeferredExecution)
    → All P rows
    → All P (order_by (λ d. d.window_start) rows)
unfolding order_by
order_by-All P [] a = tt
order_by-All P (r ∷ rows) (p, a) =
    insert_by-All P r (order_by (λ d. d.window_start) rows) p (order_by-All P rows a)

-- The records that expire do not wait before, and not after.
still_waiting :
    (env : String) (now : ℕ) (id : String) (rows : List DeferredExecution)
    → count_where (λ r. of_batch id r && is_ready env now r) (expire_old now rows).0
      ≡ count_where (λ r. of_batch id r && waits env now r) rows
unfolding expire_old update_where count_where
still_waiting env now id [] = refl
still_waiting env now id (r ∷ rows) = ground (arith, still_waiting env now id rows)

pub get_pending-TakesUp :
    (env : String) (now : ℕ) (rows : List DeferredExecution)
    → TakesUp env now rows (get_pending env now (expire_old now rows).0)
unfolding get_pending
get_pending-TakesUp env now rows =
    let swept = (expire_old now rows).0 in
    let ready = select_where (is_ready env now) swept in
    record {
      all_wait =
          order_by-All (Waits env now) ready
            (All-imp ready (is_ready-Waits env now) (All-select_where (is_ready env now) swept));
      in_order = order_by-InOrder ready;
      none_missed = λ id. omega (
        arith,
        count_where-order_by (λ d. d.window_start) (of_batch id) ready,
        count_where-select_where (is_ready env now) (of_batch id) swept,
        still_waiting env now id rows,
      );
    }
