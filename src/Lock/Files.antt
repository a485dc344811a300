-- ===== src/Lock/Files.antt =====
-- errander/safety/locking.py: what the operations on a lock file leave in the directory.
use errander_ai.Common.{
  ℕ, ◌≡◌, ◌↔◌, refl, ap, ◌∙◌, true, false, Option, none, some, List, [], ◌∷◌, arith, find_where,
  delete_where, find_where-update_where, find_where-append, find_where-meets, changed?, ◌++◌, ◌&&◌,
  eq_refl,
}
use errander_ai.Lock.{
  LockInfo, Content, opened, open_lock, fill_lock, is_opened_by, lock, File, same_name, named,
  file_at, unlink, add_file, write_lock,
}

pub same_name_iff : (xs ys : List ℕ) → (same_name xs ys ≡ true) ↔ (xs ≡ ys)
unfolding same_name
same_name_iff [] [] = ground arith
same_name_iff [] (d ∷ ds) = ground arith
same_name_iff (c ∷ cs) [] = ground arith
same_name_iff (c ∷ cs) (d ∷ ds) = ground (arith, same_name_iff cs ds)

pub same_name_refl : (xs : List ℕ) → same_name xs xs ≡ true
same_name_refl xs = (same_name_iff xs xs).1 refl

-- The two tests of a file's name exclude each other.
other_name :
    (p q : List ℕ) (f : File) → same_name p q ≡ false → named p f ≡ true → named q f ≡ false
other_name p q f differ here =
    ground (arith, same_name_iff f.name p, same_name_iff f.name q, same_name_iff p q)

abbrev pub content_of : Option File → Option Content
content_of none = none
content_of (some f) = some f.content

-- The directories agree on every name but one.
pub Frames : List ℕ → List File → List File → Type 0
Frames q dir dir' =
    (p : List ℕ) → same_name p q ≡ false → content_of (file_at p dir') ≡ content_of (file_at p dir)

-- A lock file with this lock is there.
abbrev pub IsHeld : List ℕ → LockInfo → List File → Type 0
IsHeld p info dir = content_of (file_at p dir) ≡ some (lock info)

Frames-refl : (q : List ℕ) (dir : List File) → Frames q dir dir
unfolding Frames
Frames-refl q dir = λ p differ. refl

Frames-trans : (q : List ℕ) (d e f : List File) → Frames q d e → Frames q e f → Frames q d f
unfolding Frames
Frames-trans q d e f first then_second = λ p differ. then_second p differ ∙ first p differ

file_at-unlink :
    (q p : List ℕ) (dir : List File)
    → same_name p q ≡ false
    → file_at p (unlink q dir) ≡ file_at p dir
unfolding find_where delete_where
file_at-unlink q p [] differ = refl
file_at-unlink q p (f ∷ dir) differ =
    ground (arith, file_at-unlink q p dir differ, other_name p q f differ)

Frames-unlink : (q : List ℕ) (dir : List File) → Frames q dir (unlink q dir)
unfolding Frames
Frames-unlink q dir = λ p differ. ap content_of (file_at-unlink q p dir differ)

pub file_at-unlinked : (q : List ℕ) (dir : List File) → file_at q (unlink q dir) ≡ none
unfolding find_where delete_where
file_at-unlinked q [] = refl
file_at-unlinked q (f ∷ dir) = ground (arith, file_at-unlinked q dir)

content_of-changed :
    (p q : List ℕ) (c : Content) (o : Option File)
    → same_name p q ≡ false
    → ((f : File) → o ≡ some f → named p f ≡ true)
    → content_of (changed? (named q) (λ g. record g { content = c }) o) ≡ content_of o
content_of-changed p q c none differ meets = refl
content_of-changed p q c (some f) differ meets =
    ground (arith, other_name p q f differ (meets f refl))

content_of-appended :
    (p q : List ℕ) (c : Content) (o : Option File)
    → same_name p q ≡ false
    → content_of
        (elim o [ none ↦ file_at p ((record { name = q; content = c }) ∷ []) | some r ↦ some r ])
      ≡ content_of o
unfolding find_where
content_of-appended p q c none differ = ground (arith, differ, same_name_iff p q, same_name_iff q p)
content_of-appended p q c (some f) differ = refl

Frames-add_file :
    (q : List ℕ) (c : Content) (o : Option File) (dir : List File)
    → Frames q dir (add_file q c o dir)
unfolding Frames
Frames-add_file q c none dir = λ p differ.
    ap content_of (find_where-append (named p) dir ((record { name = q; content = c }) ∷ []))
    ∙ content_of-appended p q c (file_at p dir) differ
Frames-add_file q c (some f) dir = λ p differ.
    ap content_of
      (find_where-update_where (named p) (named q) (λ g. record g { content = c }) dir (λ r. refl))
    ∙ content_of-changed p q c (file_at p dir) differ
        (λ g found. find_where-meets (named p) dir g found)

Frames-write_lock :
    (q : List ℕ) (info : LockInfo) (dir : List File) → Frames q dir (write_lock q info dir)
unfolding write_lock
Frames-write_lock q info dir = Frames-add_file q (lock info) (file_at q dir) dir

IsHeld-add_file :
    (p : List ℕ) (info : LockInfo) (o : Option File) (dir : List File)
    → file_at p dir ≡ o
    → IsHeld p info (add_file p (lock info) o dir)
unfolding find_where
IsHeld-add_file p info none dir found =
    ap content_of
      (find_where-append (named p) dir ((record { name = p; content = lock info }) ∷ []))
    ∙ (rw (found, same_name_refl p) refl)
IsHeld-add_file p info (some f) dir found =
    ap content_of (
      find_where-update_where (named p) (named p) (λ g. record g { content = lock info }) dir
        (λ r. refl))
    ∙ (rw (found, find_where-meets (named p) dir f found) refl)

-- A lock that is written is there.
pub write_lock-IsHeld :
    (p : List ℕ) (info : LockInfo) (dir : List File) → IsHeld p info (write_lock p info dir)
unfolding write_lock
write_lock-IsHeld p info dir = IsHeld-add_file p info (file_at p dir) dir refl

-- A lock that is written to the file that was made for it is there.
pub fill_lock-IsHeld :
    (p : List ℕ) (info : LockInfo) (dir : List File)
    → file_at p dir ≡ none
    → IsHeld p info (fill_lock p info (open_lock p info dir))
unfolding fill_lock open_lock find_where
fill_lock-IsHeld p info dir free =
    let new : File = record { name = p; content = opened info } in
    ap content_of (
      find_where-update_where (named p) (λ f. named p f && is_opened_by info.batch_id f.content)
        (λ f. record f { content = lock info }) (dir ++ new ∷ []) (λ r. refl))
    ∙ (rw
        (
          find_where-append (named p) dir (new ∷ []),
          free,
          same_name_refl p,
          eq_refl info.batch_id,
          same_name_refl p,
        )
        refl)

pub open_lock-opened :
    (p : List ℕ) (info : LockInfo) (dir : List File)
    → file_at p dir ≡ none
    → content_of (file_at p (open_lock p info dir)) ≡ some (opened info)
unfolding open_lock find_where
open_lock-opened p info dir free =
    ap content_of
      (find_where-append (named p) dir ((record { name = p; content = opened info }) ∷ []))
    ∙ (rw (free, same_name_refl p) refl)
