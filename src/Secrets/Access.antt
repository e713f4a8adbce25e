-- ===== src/Secrets/Access.antt =====
-- src/secrets.rs: who may read a secret file, and what is read of one that was written.
use narwal_publisher.Prelude.{◌/◌, ◌%◌, err, Option-cases}
use narwal_publisher.Prelude.{
  ℕ, ◌≡◌, ◌≢◌, ◌↔◌, Bool, true, some, Text, text_eq, text_eq_iff, ok, >>=-eq-ok, if◌then◌else◌,
  arith, inl, inr, Bool-cases, ok-injective, ap, sym, ◌∙◌,
}
use narwal_publisher.Prelude.Membership.{get, insert}
use narwal_publisher.Secrets.{
  read_failed, File, FilePath, FileSystem, weak_bits, deny_weak_permissions, read_to_string,
  read_secret_file, create_parent, write_file, lock_down, write_secret_file, trim, mode_of,
}

-- each of the six permission bits of the group and of others is 0
abbrev pub IsPrivate : ℕ → Type 0
IsPrivate mode =
    (mode % 2 ≡ 0)
    × (mode / 2 % 2 ≡ 0)
    × (mode / 4 % 2 ≡ 0)
    × (mode / 8 % 2 ≡ 0)
    × (mode / 16 % 2 ≡ 0)
    × (mode / 32 % 2 ≡ 0)

weak_bits-IsPrivate : (mode : ℕ) → (weak_bits mode ≡ 0) ↔ IsPrivate mode
weak_bits-IsPrivate mode = ground arith

-- A secret is read exactly when its file is there, gives no right to its group or to others, and
-- can be read; then it is the trimmed content.
pub read_secret_file_iff :
    (fs : FileSystem) (path secret : Text)
    → (read_secret_file fs path ≡ ok secret) ↔ (
        (file : File) × (get path fs.files ≡ some file)
        × IsPrivate file.mode
        × (fs.readable path ≡ true)
        × (trim file.content ≡ secret))
unfolding read_secret_file deny_weak_permissions read_to_string
read_secret_file_iff fs path secret = elim (Option-cases (get path fs.files)) [
  | inl absent ↦ ground (arith, absent)
  | inr (file, there) ↦ ground (arith, there, weak_bits-IsPrivate file.mode)
]

-- what a step of writing leaves: the file at the path, the others, and who may read
abbrev Leaves : FileSystem → FileSystem → Text → ℕ → Text → Type 0
Leaves fs fs' path mode contents =
    ((k : Text)
      → get k fs'.files ≡ (
          if text_eq k path
          then some (record { mode = mode; content = contents })
          else get k fs.files))
    × (fs'.readable ≡ fs.readable)

write_file-Leaves :
    (fs w : FileSystem) (path contents : Text)
    → write_file fs path contents ≡ ok w
    → (mode : ℕ) × Leaves fs w path mode contents
unfolding write_file get insert
write_file-Leaves fs w path contents h = elim (Bool-cases (fs.writable path)) [
  | inl can ↦
      let same = ok-injective (rw can at h) in
      (
        mode_of fs path,
        (
          (λ k. sym (ap (λ (x : FileSystem). get k x.files) same)),
          sym (ap (λ (x : FileSystem). x.readable) same),
        ),
      )
  | inr cannot ↦ cc (rw cannot at h)
]

lock_down-Leaves :
    (fs w : FileSystem) (path contents : Text)
    → lock_down fs path contents ≡ ok w
    → Leaves fs w path 384 contents
unfolding lock_down get insert
lock_down-Leaves fs w path contents h = elim (Bool-cases (fs.can_chmod path)) [
  | inl can ↦
      let same = ok-injective (rw can at h) in
      (
        (λ k. sym (ap (λ (x : FileSystem). get k x.files) same)),
        sym (ap (λ (x : FileSystem). x.readable) same),
      )
  | inr cannot ↦ cc (rw cannot at h)
]

stored_read :
    (fs : FileSystem) (path contents : Text)
    → get path fs.files ≡ some (record { mode = 384; content = contents })
    → read_secret_file fs path
      ≡ (if fs.readable path then ok (trim contents) else err (read_failed path))
unfolding read_secret_file deny_weak_permissions read_to_string
stored_read fs path contents stored = ground (arith, stored)

-- A secret that was written without an error is a file of mode 0600 with exactly these contents, and
-- every other file is as it was; the process reads the contents, trimmed, if it can read the file, and
-- fails to otherwise.
pub read_secret_file-write_secret_file :
    (fs fs' : FileSystem) (path : FilePath) (contents : Text)
    → write_secret_file fs path contents ≡ ok fs'
    → (get path.name fs'.files ≡ some (record { mode = 384; content = contents }))
      × ((other : Text) → other ≢ path.name → get other fs'.files ≡ get other fs.files)
      × (read_secret_file fs' path.name
          ≡ (if fs.readable path.name then ok (trim contents) else err (read_failed path.name)))
unfolding write_secret_file
read_secret_file-write_secret_file fs fs' path contents h =
    let (_, _, steps) = >>=-eq-ok (create_parent fs path) _ h in
    let (w, wrote, locked) = >>=-eq-ok (write_file fs path.name contents) _ steps in
    let (mode, (written, same)) = write_file-Leaves fs w path.name contents wrote in
    let (left, same') = lock_down-Leaves w fs' path.name contents locked in
    let stored : get path.name fs'.files ≡ some (record { mode = 384; content = contents }) =
      ground (arith, left path.name, text_eq_iff path.name path.name) in
    (
      stored,
      (λ other differs. ground (arith, left other, written other, text_eq_iff other path.name)),
      stored_read fs' path.name contents stored
          ∙ ap
              (λ (f : Text → Bool).
                if f path.name then ok (trim contents) else err (read_failed path.name))
              (same' ∙ same),
    )
