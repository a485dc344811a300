-- ===== src/Lock/Exclusion.antt =====
-- errander/safety/locking.py: one batch at a time holds the lock of a VM.
use mathlib.Core.Path.{subst}
use errander_ai.Common.{
  ℕ, ◌+◌, ◌≤◌, String, ◌≡◌, refl, ap, sym, Bool, true, false, not, Option, none, some, List, arith,
  str_eq, if◌then◌else◌, Bool-cases, inl, inr,
}
use errander_ai.Lock.{
  LockInfo, is_expired, Content, Moment, before_create, before_write, undisturbed, open_lock,
  fill_lock, corrupt, opened, lock, File, file_at, unlink, read_file, read_lock, overwrite_stale,
  create_lock, acquire_after, sanitize_vm_id, new_lock, acquire, release, info_read, get_lock_info,
  is_locked,
}
use errander_ai.Lock.Files.{
  content_of, IsHeld, write_lock-IsHeld, fill_lock-IsHeld, open_lock-opened, file_at-unlinked,
}

read_file-IsHeld :
    (p : List ℕ) (info : LockInfo) (o : Option File) (dir : List File)
    → content_of o ≡ some (lock info)
    → read_file p o dir ≡ (some info, dir)
read_file-IsHeld p info none dir held = absurd (ground (arith, held))
read_file-IsHeld p info (some f) dir held =
    let same : f.content ≡ lock info = ground (arith, held) in
    ap
      (λ c. elim c [
        | corrupt ↦ (none, unlink p dir)
        | opened _ ↦ (none, unlink p dir)
        | lock i ↦ (some i, dir)
      ])
      same

pub read_lock-IsHeld :
    (p : List ℕ) (info : LockInfo) (dir : List File)
    → IsHeld p info dir
    → read_lock p dir ≡ (some info, dir)
unfolding read_lock
read_lock-IsHeld p info dir held = read_file-IsHeld p info (file_at p dir) dir held

overwrite_stale-won :
    (p : List ℕ) (new : LockInfo) (now : ℕ) (r : Option LockInfo × List File)
    → (overwrite_stale p new now r).1 ≡ true
    → IsHeld p new (overwrite_stale p new now r).0
overwrite_stale-won p new now (none, dir) wins = write_lock-IsHeld p new dir
overwrite_stale-won p new now (some info, dir) wins = elim (Bool-cases (is_expired info now)) [
  | inl stale ↦ rw stale (write_lock-IsHeld p new dir)
  | inr live ↦ absurd (ground (arith, wins, live))
]

-- Other processes come in only there.
abbrev pub just_before_write : (List File → List File) → Moment → List File → List File
just_before_write others before_create dir = dir
just_before_write others before_write dir = others dir

-- No other process comes between the making of a lock file and the writing of it.
abbrev pub Undisturbed : (Moment → List File → List File) → Type 0
Undisturbed meanwhile = (dir : List File) → meanwhile before_write dir ≡ dir

module _ (meanwhile : Moment → List File → List File) (quiet : Undisturbed meanwhile) where
  create_lock-won :
      (p : List ℕ) (new : LockInfo) (now : ℕ) (o : Option File) (dir : List File)
      → file_at p dir ≡ o
      → (create_lock meanwhile p new now o dir).1 ≡ true
      → IsHeld p new (create_lock meanwhile p new now o dir).0
  create_lock-won p new now none dir free wins =
      subst (λ d. IsHeld p new (fill_lock p new d)) (sym (quiet (open_lock p new dir)))
        (fill_lock-IsHeld p new dir free)
  create_lock-won p new now (some f) dir found wins =
      overwrite_stale-won p new now (read_lock p dir) wins

  acquire_after-won :
      (p : List ℕ) (new : LockInfo) (now : ℕ) (r : Option LockInfo × List File)
      → (acquire_after meanwhile p new now r).1 ≡ true
      → IsHeld p new (acquire_after meanwhile p new now r).0
  acquire_after-won p new now (none, dir) wins =
      let seen = meanwhile before_create dir in
      create_lock-won p new now (file_at p seen) seen refl wins
  acquire_after-won p new now (some info, dir) wins = elim (Bool-cases (is_expired info now)) [
    | inl stale ↦ rw stale (write_lock-IsHeld p new (meanwhile before_create dir))
    | inr live ↦ absurd (ground (arith, wins, live))
  ]

module _ (is_word : ℕ → Bool) where
  pub acquire-won :
      (meanwhile : Moment → List File → List File) (vm : List ℕ) (batch : String) (ttl now : ℕ)
      (dir : List File)
      → Undisturbed meanwhile
      → (acquire is_word meanwhile vm batch ttl now dir).1 ≡ true
      → IsHeld
          (sanitize_vm_id is_word vm)
          (new_lock is_word vm batch ttl now)
          (acquire is_word meanwhile vm batch ttl now dir).0
  unfolding acquire
  acquire-won meanwhile vm batch ttl now dir quiet wins =
      acquire_after-won meanwhile quiet (sanitize_vm_id is_word vm)
        (new_lock is_word vm batch ttl now) now (read_lock (sanitize_vm_id is_word vm) dir) wins

  pub acquire-held :
      (meanwhile : Moment → List File → List File) (vm : List ℕ) (batch : String) (ttl now : ℕ)
      (info : LockInfo) (dir : List File)
      → IsHeld (sanitize_vm_id is_word vm) info dir
      → is_expired info now ≡ false
      → acquire is_word meanwhile vm batch ttl now dir ≡ (dir, false)
  unfolding acquire
  acquire-held meanwhile vm batch ttl now info dir held live =
      rw (read_lock-IsHeld (sanitize_vm_id is_word vm) info dir held, live) refl

  -- Once a batch has got the lock of a VM, a second `acquire` for the VM fails and changes nothing, up to
  -- the end of the time to live, whatever other processes do to the directory before the first call makes
  -- or overwrites the lock file, if none of them comes between the making of the file and the writing,
  -- and none uses the temporary file of an overwriting at the same time.
  pub acquire_excludes :
      (meanwhile later : Moment → List File → List File) (vm : List ℕ) (batch other : String)
      (ttl ttl' now now' : ℕ) (dir : List File)
      → Undisturbed meanwhile
      → (acquire is_word meanwhile vm batch ttl now dir).1 ≡ true
      → now' ≤ now + ttl
      → acquire is_word later vm other ttl' now' (acquire is_word meanwhile vm batch ttl now dir).0
        ≡ ((acquire is_word meanwhile vm batch ttl now dir).0, false)
  acquire_excludes meanwhile later vm batch other ttl ttl' now now' dir quiet wins in_time =
      acquire-held later vm other ttl' now' (new_lock is_word vm batch ttl now)
        (acquire is_word meanwhile vm batch ttl now dir).0
        (acquire-won meanwhile vm batch ttl now dir quiet wins) (ground (arith, in_time))

  create_lock-free :
      (p : List ℕ) (new : LockInfo) (now : ℕ) (dir : List File)
      → file_at p dir ≡ none
      → (create_lock undisturbed p new now (file_at p dir) dir).1 ≡ true
  create_lock-free p new now dir free = rw free refl

  has_info : List File × Option LockInfo → Bool
  has_info r = elim r.1 [ none ↦ false | some _ ↦ true ]

  read-agrees :
      (p : List ℕ) (new : LockInfo) (now : ℕ) (c : Content) (dir : List File)
      → let r : Option LockInfo × List File = elim c [
        | corrupt ↦ (none, unlink p dir)
        | opened _ ↦ (none, unlink p dir)
        | lock info ↦ (some info, dir)
      ] in
        (acquire_after undisturbed p new now r).1 ≡ not (has_info (info_read is_word p now r))
  unfolding has_info
  read-agrees p new now corrupt dir =
      create_lock-free p new now (unlink p dir) (file_at-unlinked p dir)
  read-agrees p new now (opened info) dir =
      create_lock-free p new now (unlink p dir) (file_at-unlinked p dir)
  read-agrees p new now (lock info) dir = elim (Bool-cases (is_expired info now)) [
    | inl stale ↦ rw stale refl
    | inr live ↦ rw live refl
  ]

  look-agrees :
      (p : List ℕ) (new : LockInfo) (now : ℕ) (o : Option File) (dir : List File)
      → file_at p dir ≡ o
      → (acquire_after undisturbed p new now (read_file p o dir)).1
        ≡ not (has_info (info_read is_word p now (read_file p o dir)))
  look-agrees p new now none dir found = unfold has_info in (create_lock-free p new now dir found)
  look-agrees p new now (some f) dir found = read-agrees p new now f.content dir

  -- With no other process between its steps, `acquire` succeeds exactly if `is_locked` says that the VM
  -- is not locked.
  pub acquire-is_locked :
      (vm : List ℕ) (batch : String) (ttl now : ℕ) (dir : List File)
      → (acquire is_word undisturbed vm batch ttl now dir).1 ≡ not (is_locked is_word vm now dir).1
  unfolding acquire is_locked get_lock_info read_lock has_info
  acquire-is_locked vm batch ttl now dir =
      let p = sanitize_vm_id is_word vm in
      look-agrees p (new_lock is_word vm batch ttl now) now (file_at p dir) dir refl

  -- A batch releases the lock of a VM exactly if the lock file is its own, and then the file is gone.
  pub release-own :
      (vm : List ℕ) (batch : String) (info : LockInfo) (dir : List File)
      → IsHeld (sanitize_vm_id is_word vm) info dir
      → release is_word vm batch dir ≡ (
          if str_eq info.batch_id batch
          then (unlink (sanitize_vm_id is_word vm) dir, true)
          else (dir, false))
  unfolding release
  release-own vm batch info dir held =
      rw (read_lock-IsHeld (sanitize_vm_id is_word vm) info dir held) refl

  acquire-stale :
      (meanwhile : Moment → List File → List File) (vm : List ℕ) (batch : String) (ttl now : ℕ)
      (info : LockInfo) (dir : List File)
      → IsHeld (sanitize_vm_id is_word vm) info dir
      → is_expired info now ≡ true
      → (acquire is_word meanwhile vm batch ttl now dir).1 ≡ true
  unfolding acquire
  acquire-stale meanwhile vm batch ttl now info dir held stale =
      rw (read_lock-IsHeld (sanitize_vm_id is_word vm) info dir held, stale) refl

  -- If the lock of a VM is expired, two processes can both get it: the second one runs its whole call
  -- while the first one is between its look at the file and its write.
  pub stale_taken_twice :
      (vm : List ℕ) (first second : String) (ttl now : ℕ) (info : LockInfo) (dir : List File)
      → IsHeld (sanitize_vm_id is_word vm) info dir
      → is_expired info now ≡ true
      → let whole_call = λ (d : List File). (acquire is_word undisturbed vm second ttl now d).0 in
        ((acquire is_word undisturbed vm second ttl now dir).1 ≡ true)
        × ((acquire is_word (λ moment d. whole_call d) vm first ttl now dir).1 ≡ true)
  stale_taken_twice vm first second ttl now info dir held stale = (
    acquire-stale undisturbed vm second ttl now info dir held stale,
    acquire-stale (λ moment d. (acquire is_word undisturbed vm second ttl now d).0) vm first ttl now
        info dir held stale,
  )

  opened-free :
      (p : List ℕ) (new : LockInfo) (now : ℕ) (o : Option File) (dir : List File) (info : LockInfo)
      → content_of o ≡ some (opened info)
      → (acquire_after undisturbed p new now (read_file p o dir)).1 ≡ true
  opened-free p new now none dir info e = absurd (ground (arith, e))
  opened-free p new now (some f) dir info e =
      let same : f.content ≡ opened info = ground (arith, e) in
      rw same (create_lock-free p new now (unlink p dir) (file_at-unlinked p dir))

  -- If a VM has no lock file, two processes can both get its lock: the second one runs its whole call
  -- while the first one is between the making of the file and the writing. It takes the empty file for
  -- a corrupt one, removes it and makes its own.
  pub created_twice :
      (vm : List ℕ) (first second : String) (ttl now : ℕ) (dir : List File)
      → file_at (sanitize_vm_id is_word vm) dir ≡ none
      → let made = open_lock (sanitize_vm_id is_word vm) (new_lock is_word vm first ttl now) dir in
        let second_call =
          just_before_write (λ d. (acquire is_word undisturbed vm second ttl now d).0) in
        ((acquire is_word second_call vm first ttl now dir).1 ≡ true)
        × ((acquire is_word undisturbed vm second ttl now made).1 ≡ true)
  unfolding acquire read_lock
  created_twice vm first second ttl now dir free =
      let p = sanitize_vm_id is_word vm in
      let made = open_lock p (new_lock is_word vm first ttl now) dir in
      (
        rw (free, free) refl,
        opened-free p (new_lock is_word vm second ttl now) now (file_at p made) made
            (new_lock is_word vm first ttl now) (open_lock-opened p _ dir free),
      )
