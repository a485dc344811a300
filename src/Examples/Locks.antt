-- ===== src/Examples/Locks.antt =====
-- Two batches that want the lock of one VM, with errander/safety/locking.py.
use errander_ai.Common.{ℕ, none, ◌≡◌, refl, Bool, true, false, List, [], ◌∷◌, arith, find_where}
use errander_ai.Lock.{
  LockInfo, File, open_lock, new_lock, file_at, fill_lock, undisturbed, lock, sanitize_vm_id,
  acquire, read_lock, same_name,
}
use errander_ai.Lock.Files.{IsHeld}
use errander_ai.Lock.Exclusion.{acquire_excludes, created_twice, just_before_write}

abbrev lower_case : ℕ → Bool
lower_case c = true

abbrev web : List ℕ
web = b'w' ∷ b'e' ∷ b'b' ∷ []

abbrev held_by_b1 : LockInfo
held_by_b1 = record { vm_id = web; batch_id = "b1"; acquired_at = 0; ttl = 60 }

abbrev with_lock : List File
with_lock = record { name = web; content = lock held_by_b1 } ∷ []

b1_gets_it : (acquire lower_case undisturbed web "b1" 60 0 []).1 ≡ true
unfolding acquire sanitize_vm_id read_lock find_where fill_lock open_lock
b1_gets_it = refl

b1-IsHeld : IsHeld (sanitize_vm_id lower_case web) held_by_b1 with_lock
unfolding sanitize_vm_id find_where same_name
b1-IsHeld = refl

acquire_excludes_example :
    acquire lower_case undisturbed web "b2" 60 30
      (acquire lower_case undisturbed web "b1" 60 0 []).0
    ≡ ((acquire lower_case undisturbed web "b1" 60 0 []).0, false)
acquire_excludes_example =
    acquire_excludes lower_case undisturbed undisturbed web "b1" "b2" 60 60 0 30 [] (λ dir. refl)
      b1_gets_it (omega arith)

no_lock_yet : file_at (sanitize_vm_id lower_case web) [] ≡ none
unfolding find_where
no_lock_yet = refl

created_twice_example :
    let made = open_lock (sanitize_vm_id lower_case web) (new_lock lower_case web "b1" 60 0) [] in
    let second_call = just_before_write (λ d. (acquire lower_case undisturbed web "b2" 60 0 d).0) in
    ((acquire lower_case second_call web "b1" 60 0 []).1 ≡ true)
    × ((acquire lower_case undisturbed web "b2" 60 0 made).1 ≡ true)
created_twice_example = created_twice lower_case web "b1" "b2" 60 0 [] no_lock_yet
