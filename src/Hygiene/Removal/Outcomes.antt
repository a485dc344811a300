-- ===== src/Hygiene/Removal/Outcomes.antt =====
-- errander/agent/subgraphs/docker_hygiene.py: the results of a removal are those of the approved objects.
use mathlib.Core.Path.{subst}
use mathlib.Core.List.{Mem}
use errander_ai.Common.{
  String, ◌≡◌, refl, sym, ap, Bool, true, false, ◌||◌, Option, none, some, List, [], ◌∷◌, ◌++◌, map,
  arith, eq_iff, eq_refl, if_holds, Bool-cases, inl, inr, any, All, All-append_one, All-append,
  All-map, All-imp, All-Mem, or_right, or_left, or_mono, strip, splitlines, after_prefix,
}
use errander_ai.Hygiene.{Finding, truthy, key_of, same_key}
use errander_ai.Hygiene.Assess.{parse_kv_line}
use errander_ai.Hygiene.Removal.{
  RemovalStatus, RemovalResult, Keyed, assign, by_key, find_key, field, reported, Results,
  parse_status, add_reported, read_result, read_results, seen, fill, parse_remove_v2_output,
}

pub same_key-eq : (j k : String × String) → same_key j k ≡ true → j ≡ k
same_key-eq (a, b) (c, d) h =
    let p = (eq_iff a c).0 (ground (arith, h)) in
    let q = (eq_iff b d).0 (ground (arith, h)) in λ i. (p i, q i)

pub same_key_refl : (k : String × String) → same_key k k ≡ true
same_key_refl (a, b) = rw (eq_refl a) (eq_refl b)

reported-finding :
    (f : Finding) (reason : Option String) (o : Option RemovalStatus) (text : String)
    → (reported f reason o text).finding ≡ f
reported-finding f reason none text = refl
reported-finding f reason (some s) text = refl

-- What holds of the approved objects, each with its key, holds of the objects of the results.
module _ (P : String × String → Finding → Type 0) where
  abbrev Held : Keyed → Type 0
  Held d = All (λ e. P e.0 e.1) d

  abbrev Holds? : String × String → Option Finding → Type 0
  Holds? k none = Unit
  Holds? k (some f) = P k f

  assign-Held :
      (k : String × String) (f : Finding) (d : Keyed) → P k f → Held d → Held (assign k f d)
  assign-Held k f [] p a = (p, tt)
  assign-Held k f ((j, g) ∷ d) p (h, t) = elim (Bool-cases (same_key j k)) [
    | inl same ↦ rw same (subst (λ x. P x f) (sym (same_key-eq j k same)) p, t)
    | inr other ↦ rw other (h, assign-Held k f d p t)
  ]

  by_key-Held :
      (fs : List Finding) (d : Keyed) → All (λ f. P (key_of f) f) fs → Held d → Held (by_key fs d)
  unfolding by_key
  by_key-Held [] d a h = h
  by_key-Held (f ∷ fs) d (p, a) h =
      by_key-Held fs (assign (key_of f) f d) a (assign-Held (key_of f) f d p h)

  find_key-Held : (k : String × String) (d : Keyed) → Held d → Holds? k (find_key k d)
  unfolding find_key
  find_key-Held k [] h = tt
  find_key-Held k ((j, f) ∷ d) (p, h) =
      if_holds (Holds? k) (same_key j k) (λ same. subst (λ x. P x f) (same_key-eq j k same) p)
        (λ _. find_key-Held k d h)

  abbrev AllHeld : Results → Type 0
  AllHeld rs = All (λ r. P r.0 r.1.finding) rs

  add_reported-AllHeld :
      (kv : List (String × String)) (o : Option Finding) (rs : Results)
      → Holds? (field "class" kv, field "id" kv) o
      → AllHeld rs
      → AllHeld (add_reported kv o rs)
  add_reported-AllHeld kv none rs p a = a
  add_reported-AllHeld kv (some f) rs p a =
      let k : String × String = (field "class" kv, field "id" kv) in
      let reason = truthy (some (field "reason" kv)) in
      let o = parse_status (field "status" kv) in
      All-append_one (λ (r : (String × String) × RemovalResult). P r.0 r.1.finding) rs
        (k, reported f reason o (field "status" kv)) a
        (subst (P k) (sym (reported-finding f reason o (field "status" kv))) p)

  read_result-AllHeld :
      (d : Keyed) (line : Option String) (rs : Results)
      → Held d
      → AllHeld rs
      → AllHeld (read_result d line rs)
  unfolding read_result
  read_result-AllHeld d none rs h a = a
  read_result-AllHeld d (some line) rs h a =
      let kv = parse_kv_line line in
      let k : String × String = (field "class" kv, field "id" kv) in
      add_reported-AllHeld kv (find_key k d) rs (find_key-Held k d h) a

  read_results-AllHeld :
      (d : Keyed) (lines : List String) (rs : Results)
      → Held d
      → AllHeld rs
      → AllHeld (read_results d lines rs)
  unfolding read_results
  read_results-AllHeld d [] rs h a = a
  read_results-AllHeld d (line ∷ lines) rs h a =
      let next = read_result d (after_prefix "result " (strip line)) rs in
      read_results-AllHeld d lines next h
        (read_result-AllHeld d (after_prefix "result " (strip line)) rs h a)

  fill-Held :
      (rs : Results) (d : Keyed)
      → Held d
      → All (λ (r : RemovalResult). (k : String × String) × P k r.finding) (fill rs d)
  unfolding fill
  fill-Held rs [] h = tt
  fill-Held rs ((k, f) ∷ d) (p, h) =
      if_holds (All (λ (r : RemovalResult). (k : String × String) × P k r.finding)) (seen rs k)
        (λ _. fill-Held rs d h) (λ _. ((k, p), fill-Held rs d h))

All-refl : (key : Finding → String × String) (fs : List Finding) → All (λ f. key f ≡ key f) fs
All-refl key [] = tt
All-refl key (f ∷ fs) = (refl, All-refl key fs)

-- The results that `parse_remove_v2_output` reads, and the dict of the approved objects.
abbrev keyed : List Finding → Keyed
keyed approved = by_key approved []

abbrev read : String → List Finding → Results
read stdout approved = read_results (keyed approved) (splitlines stdout) []

-- The key of each entry is that of its object.
abbrev HasKey : String × String → Finding → Type 0
HasKey k f = k ≡ key_of f

abbrev pub covers : List RemovalResult → String × String → Bool
covers rs k = any (λ r. same_key (key_of r.finding) k) rs

abbrev has : Keyed → String × String → Bool
has d k = any (λ e. same_key e.0 k) d

assign-has_self : (k : String × String) (f : Finding) (d : Keyed) → has (assign k f d) k ≡ true
assign-has_self k f [] = rw (same_key_refl k)
assign-has_self k f ((j, g) ∷ d) = elim (Bool-cases (same_key j k)) [
  | inl same ↦ rw same (rw same)
  | inr other ↦ rw other (rw other (assign-has_self k f d))
]

assign-has :
    (k l : String × String) (f : Finding) (d : Keyed) → has d l ≡ true → has (assign k f d) l ≡ true
assign-has k l f [] h = cc
assign-has k l f ((j, g) ∷ d) h = elim (Bool-cases (same_key j k)) [
  | inl same ↦ rw same h
  | inr other ↦ rw other (or_mono (same_key j l) (λ e. e) (assign-has k l f d) h)
]

by_key-has :
    (fs : List Finding) (d : Keyed) (k : String × String)
    → has d k ≡ true
    → has (by_key fs d) k ≡ true
unfolding by_key
by_key-has [] d k h = h
by_key-has (f ∷ fs) d k h = by_key-has fs (assign (key_of f) f d) k (assign-has (key_of f) k f d h)

by_key-All : (fs : List Finding) (d : Keyed) → All (λ f. has (by_key fs d) (key_of f) ≡ true) fs
unfolding by_key
by_key-All [] d = tt
by_key-All (f ∷ fs) d =
    let e = assign (key_of f) f d in
    (by_key-has fs e (key_of f) (assign-has_self (key_of f) f d), by_key-All fs e)

-- A key that was seen has a result for it.
seen-covers :
    (rs : Results) (k : String × String)
    → AllHeld HasKey rs
    → seen rs k ≡ true
    → covers (map (λ r. r.1) rs) k ≡ true
seen-covers [] k a h = cc
seen-covers (r ∷ rs) k (p, a) h =
    or_mono (same_key r.0 k) (λ e. subst (λ x. same_key x k ≡ true) p e) (seen-covers rs k a) h

other_key :
    (rs : Results) (j k : String × String) (rest : Bool)
    → seen rs j ≡ true
    → seen rs k ≡ false
    → (same_key j k || rest) ≡ true
    → rest ≡ true
other_key rs j k rest was new h = elim (Bool-cases (same_key j k)) [
  | inl same ↦ cc (was, new, ap (seen rs) (same_key-eq j k same))
  | inr other ↦ rw other at h
]

fill-covers :
    (rs : Results) (d : Keyed) (k : String × String)
    → Held HasKey d
    → has d k ≡ true
    → seen rs k ≡ false
    → covers (fill rs d) k ≡ true
unfolding fill
fill-covers rs [] k a h s = cc
fill-covers rs ((j, f) ∷ d) k (p, a) h s = elim (Bool-cases (seen rs j)) [
  | inr new ↦ rw new (
      or_mono (same_key j k) (λ e. subst (λ x. same_key x k ≡ true) p e)
        (λ rest. fill-covers rs d k a rest s) h)
  | inl was ↦ rw was (fill-covers rs d k a (other_key rs j k (has d k) was s h) s)
]

covers-append :
    (rs more : List RemovalResult) (k : String × String)
    → covers (rs ++ more) k ≡ (covers rs k || covers more k)
covers-append [] more k = refl
covers-append (r ∷ rs) more k = ground (arith, covers-append rs more k)

module _ (stdout : String) (approved : List Finding) where
  keyed-HasKey : Held HasKey (keyed approved)
  keyed-HasKey = by_key-Held HasKey approved [] (All-refl key_of approved) tt

  results-cover :
      (k : String × String)
      → has (keyed approved) k ≡ true
      → covers (parse_remove_v2_output stdout approved) k ≡ true
  unfolding parse_remove_v2_output
  results-cover k h =
      let rs = read stdout approved in
      let a = read_results-AllHeld HasKey (keyed approved) (splitlines stdout) [] keyed-HasKey tt in
      rw (covers-append (map (λ r. r.1) rs) (fill rs (keyed approved)) k)
        (elim (Bool-cases (seen rs k)) [
          | inl was ↦ or_left (covers (fill rs (keyed approved)) k) (seen-covers rs k a was)
          | inr new ↦
              or_right (covers (map (λ r. r.1) rs) k)
                (fill-covers rs (keyed approved) k keyed-HasKey h new)
        ])

  -- Whatever the wrapper prints, each result is for an object that was approved, and each approved
  -- object has a result under its class and identity.
  pub parse_remove-Covers :
      All (λ r. Mem r.finding approved) (parse_remove_v2_output stdout approved)
      × All (λ f. covers (parse_remove_v2_output stdout approved) (key_of f) ≡ true) approved
  unfolding parse_remove_v2_output
  parse_remove-Covers =
      let P = λ (k : String × String) (f : Finding). Mem f approved in
      let held = by_key-Held P approved [] (All-Mem approved) tt in
      let read_held = read_results-AllHeld P (keyed approved) (splitlines stdout) [] held tt in
      let rs = read stdout approved in
      let M = λ (r : RemovalResult). Mem r.finding approved in
      (
        All-append M (map (λ r. r.1) rs) (fill rs (keyed approved))
            (All-map M (λ r. r.1) rs read_held)
            (All-imp (fill rs (keyed approved)) (λ r m. m.1)
              (fill-Held P rs (keyed approved) held)),
        All-imp approved (λ f h. results-cover (key_of f) h) (by_key-All approved []),
      )
