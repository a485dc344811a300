-- ===== src/Lock.antt =====
-- errander/safety/locking.py: `FileLocker`. The lock directory is the list of its files; an instant is
-- a number of microseconds, and each method reads the clock once.
pub mod Files
pub mod Exclusion
use errander_ai.Common.{
  ℕ, ◌+◌, String, Bool, true, false, not, ◌&&◌, ◌||◌, Option, none, some, List, [], ◌∷◌, ◌++◌, map,
  str_eq, ltb, ◌==◌, if◌then◌else◌, find_where, delete_where, update_where,
}

pub record LockInfo : Type 0 where
  pub vm_id : List ℕ
  pub batch_id : String
  pub acquired_at : ℕ
  pub ttl : ℕ

-- `LockInfo.is_expired`.
abbrev pub is_expired : LockInfo → ℕ → Bool
is_expired info now = ltb (info.acquired_at + info.ttl) now

-- What a lock file holds, when its JSON is parsed. `opened info` is the empty file that `os.open` has just
-- made for a process that is going to write `info` to it.
pub data Content : Type 0 where
  corrupt : Content
  opened lock : LockInfo → Content

-- A lock file, by its name without the suffix `.lock`.
pub record File : Type 0 where
  pub name : List ℕ
  pub content : Content

unfoldable pub same_name : List ℕ → List ℕ → Bool
same_name [] [] = true
same_name [] (d ∷ ds) = false
same_name (c ∷ cs) [] = false
same_name (c ∷ cs) (d ∷ ds) = let rest = same_name cs ds in c == d && rest

abbrev pub named : List ℕ → File → Bool
named p f = same_name f.name p

-- The file of a name, when `lock_path.exists()`.
abbrev pub file_at : List ℕ → List File → Option File
file_at p dir = find_where (named p) dir

abbrev pub unlink : List ℕ → List File → List File
unlink p dir = delete_where (named p) dir

abbrev pub add_file : List ℕ → Content → Option File → List File → List File
add_file p c none dir = dir ++ (record { name = p; content = c }) ∷ []
add_file p c (some f) dir = update_where (named p) (λ g. record g { content = c }) dir

-- `_write_lock_atomic`: what `os.replace` makes of the directory. The temporary file is no lock file.
-- Two processes that use its name at the same time are not modelled.
unfoldable pub write_lock : List ℕ → LockInfo → List File → List File
write_lock p info dir = add_file p (lock info) (file_at p dir) dir

-- `os.open` with O_EXCL where there is no such file.
unfoldable pub open_lock : List ℕ → LockInfo → List File → List File
open_lock p info dir = add_file p (opened info) none dir

abbrev pub is_opened_by : String → Content → Bool
is_opened_by batch corrupt = false
is_opened_by batch (opened info) = str_eq info.batch_id batch
is_opened_by batch (lock info) = false

-- The write to the file that `os.open` has made: if the file was removed or replaced since then, no file
-- of the directory gets the text.
unfoldable pub fill_lock : List ℕ → LockInfo → List File → List File
fill_lock p info =
    update_where (λ f. named p f && is_opened_by info.batch_id f.content)
      (λ f. record f { content = lock info })

-- `_read_lock`, which removes a corrupt file; an empty file is corrupt.
abbrev pub read_file : List ℕ → Option File → List File → Option LockInfo × List File
read_file p none dir = (none, dir)
read_file p (some f) dir = elim f.content [
  | corrupt ↦ (none, unlink p dir)
  | opened _ ↦ (none, unlink p dir)
  | lock info ↦ (some info, dir)
]

unfoldable pub read_lock : List ℕ → List File → Option LockInfo × List File
read_lock p dir = read_file p (file_at p dir) dir

-- `os.open` with O_EXCL failed: the file is read again.
abbrev pub overwrite_stale : List ℕ → LockInfo → ℕ → Option LockInfo × List File → List File × Bool
overwrite_stale p new now (none, dir) = (write_lock p new dir, true)
overwrite_stale p new now (some info, dir) =
    if is_expired info now then (write_lock p new dir, true) else (dir, false)

-- The points inside `acquire` at which other processes come in: before `os.open` or the overwriting of
-- a stale file, and between `os.open` and the write to the new file.
pub data Moment : Type 0 where
  before_create before_write : Moment

abbrev pub create_lock :
    (Moment → List File → List File)
    → List ℕ
    → LockInfo
    → ℕ
    → Option File
    → List File
    → List File × Bool
create_lock meanwhile p new now none dir =
    (fill_lock p new (meanwhile before_write (open_lock p new dir)), true)
create_lock meanwhile p new now (some f) dir = overwrite_stale p new now (read_lock p dir)

-- `acquire` after its first look; `meanwhile` is what other processes do to the directory.
abbrev pub acquire_after :
    (Moment → List File → List File)
    → List ℕ
    → LockInfo
    → ℕ
    → Option LockInfo × List File
    → List File × Bool
acquire_after meanwhile p new now (some info, dir) =
    if is_expired info now
    then (write_lock p new (meanwhile before_create dir), true)
    else (dir, false)
acquire_after meanwhile p new now (none, dir) =
    create_lock meanwhile p new now (file_at p (meanwhile before_create dir))
      (meanwhile before_create dir)

-- No other process comes in.
abbrev pub undisturbed : Moment → List File → List File
undisturbed moment dir = dir

-- The character class `\w` of Python's `re`, over all of Unicode.
module _ (is_word : ℕ → Bool) where
  -- `_sanitize_vm_id` on the code points of an id.
  unfoldable pub sanitize_vm_id : List ℕ → List ℕ
  sanitize_vm_id = map (λ c. if is_word c || (c == b'-' || c == b'.') then c else b'_')

  abbrev pub new_lock : List ℕ → String → ℕ → ℕ → LockInfo
  new_lock vm batch ttl now = record { vm_id = vm; batch_id = batch; acquired_at = now; ttl = ttl }

  unfoldable pub acquire :
      (Moment → List File → List File) → List ℕ → String → ℕ → ℕ → List File → List File × Bool
  acquire meanwhile vm batch ttl now dir =
      let p = sanitize_vm_id vm in
      acquire_after meanwhile p (new_lock vm batch ttl now) now (read_lock p dir)

  abbrev pub release_read : List ℕ → String → Option LockInfo × List File → List File × Bool
  release_read p batch (none, dir) = (dir, false)
  release_read p batch (some info, dir) =
      if str_eq info.batch_id batch then (unlink p dir, true) else (dir, false)

  unfoldable pub release : List ℕ → String → List File → List File × Bool
  release vm batch dir = let p = sanitize_vm_id vm in release_read p batch (read_lock p dir)

  -- `get_lock_info`; `is_locked` tests whether it returns one.
  abbrev pub info_read : List ℕ → ℕ → Option LockInfo × List File → List File × Option LockInfo
  info_read p now (none, dir) = (dir, none)
  info_read p now (some info, dir) =
      if is_expired info now then (unlink p dir, none) else (dir, some info)

  unfoldable pub get_lock_info : List ℕ → ℕ → List File → List File × Option LockInfo
  get_lock_info vm now dir = let p = sanitize_vm_id vm in info_read p now (read_lock p dir)

  unfoldable pub is_locked : List ℕ → ℕ → List File → List File × Bool
  is_locked vm now dir =
      let (dir', info) = get_lock_info vm now dir in
      (dir', elim info [ none ↦ false | some _ ↦ true ])

  unfoldable pub force_release : List ℕ → List File → List File × Bool
  force_release vm dir =
      let p = sanitize_vm_id vm in
      elim (file_at p dir) [ none ↦ (dir, false) | some _ ↦ (unlink p dir, true) ]

-- `list_locks`: the active locks, and the directory without the files that are corrupt or expired.
unfoldable pub list_locks : ℕ → List File → List File × List LockInfo
list_locks now [] = ([], [])
list_locks now (f ∷ dir) =
    let (kept, active) = list_locks now dir in
    elim f.content [
      | corrupt ↦ (kept, active)
      | opened _ ↦ (kept, active)
      | lock info ↦ if is_expired info now then (kept, active) else (f ∷ kept, info ∷ active)
    ]
