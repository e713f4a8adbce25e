-- ===== src/Secrets.antt =====
-- src/secrets.rs: secret files and their permissions. The file system is a record of its files and
-- of what fails.
pub mod Access
use mathlib.Core.List.{reverse}
use narwal_publisher.Prelude.{take}
use narwal_publisher.Prelude.{
  ℕ, zero, suc, ◌%◌, List, [], ◌∷◌, Bool, true, false, ◌&&◌, ◌||◌, Option, none, some, Text, text,
  leb, ltb, ◌==◌, Result, ok, err, ◌>>=◌, if◌then◌else◌,
}
use narwal_publisher.Prelude.Membership.{get, insert}

pub data SecretError : Type 0 where
  stat_failed read_failed : Text → SecretError
  weak_permissions : Text → SecretError
  dir_failed write_failed chmod_failed : Text → SecretError

pub record File : Type 0 where
  pub mode : ℕ
  pub content : Text

-- a path with its parent, `none` where it has none
pub record FilePath : Type 0 where
  pub name : Text
  pub parent : Option Text

-- the files, the mode of a new file, and what the operating system lets the process do
pub record FileSystem : Type 0 where
  pub files : List (Text × File)
  pub new_mode : ℕ
  pub readable : Text → Bool
  pub can_create_dir : Text → Bool
  pub writable : Text → Bool
  pub can_chmod : Text → Bool

-- `char::is_whitespace` on the UTF-8 bytes of a character
abbrev is_white : Text → Bool
is_white [] = false
is_white (a ∷ []) = (leb 9 a && leb a 13) || a == 32
is_white (a ∷ b ∷ []) = a == 194 && (b == 133 || b == 160)
is_white (a ∷ b ∷ c ∷ []) =
    (a == 225 && (b == 154 && c == 128))
    || ((a == 226 && (b == 128 && (leb 128 c && leb c 138 || (c == 168 || (c == 169 || c == 175)))))
        || ((a == 226 && (b == 129 && c == 159)) || (a == 227 && (b == 128 && c == 128))))
is_white (a ∷ b ∷ c ∷ d ∷ cs) = false

-- the bytes of the first character, if it is white space, and 0 otherwise
abbrev white_bytes : (Text → Bool) → Text → ℕ
white_bytes white s =
    if white (take 1 s)
    then 1
    else if white (take 2 s)
    then 2
    else if white (take 3 s)
    then 3
    else 0

-- the text after its white space, behind `n` bytes
abbrev skip_white : (Text → Bool) → ℕ → Text → Text
skip_white white n [] = []
skip_white white (suc n) (c ∷ cs) = skip_white white n cs
skip_white white zero (c ∷ cs) = elim (white_bytes white (c ∷ cs)) [
  | zero ↦ c ∷ cs
  | suc n ↦ skip_white white n cs
]

unfoldable pub trim_start : Text → Text
trim_start s = skip_white is_white 0 s

unfoldable pub trim_end : Text → Text
trim_end s = reverse (skip_white (λ cs. is_white (reverse cs)) 0 (reverse s))

unfoldable pub trim : Text → Text
unfolding trim_start trim_end
trim s = trim_start (trim_end s)

-- `mode & 0o077`
abbrev pub weak_bits : ℕ → ℕ
weak_bits mode = mode % 64

unfoldable pub deny_weak_permissions : FileSystem → Text → Result SecretError (Unit {0})
unfolding get
deny_weak_permissions fs path = elim (get path fs.files) [
  | none ↦ err (stat_failed path)
  | some file ↦ if weak_bits file.mode == 0 then ok tt else err (weak_permissions path)
]

-- `std::fs::read_to_string`
unfoldable pub read_to_string : FileSystem → Text → Result SecretError Text
unfolding get
read_to_string fs path = elim (get path fs.files) [
  | none ↦ err (read_failed path)
  | some file ↦ if fs.readable path then ok file.content else err (read_failed path)
]

unfoldable pub read_secret_file : FileSystem → Text → Result SecretError Text
unfolding deny_weak_permissions read_to_string trim
read_secret_file fs path = do
  allowed ← deny_weak_permissions fs path
  content ← read_to_string fs path
  ok (trim content)

-- `path.parent()` where it is there and not empty
unfoldable pub create_parent : FileSystem → FilePath → Result SecretError (Unit {0})
create_parent fs path = elim path.parent [
  | none ↦ ok tt
  | some parent ↦ elim parent [
    | [] ↦ ok tt
    | c ∷ cs ↦ if fs.can_create_dir (c ∷ cs) then ok tt else err (dir_failed (c ∷ cs))
  ]
]

-- `std::fs::write` keeps the mode of a file that is there
unfoldable pub mode_of : FileSystem → Text → ℕ
unfolding get
mode_of fs path = elim (get path fs.files) [ none ↦ fs.new_mode | some file ↦ file.mode ]

unfoldable pub write_file : FileSystem → Text → Text → Result SecretError FileSystem
unfolding mode_of insert
write_file fs path contents =
    if fs.writable path
    then ok (record fs {
      files = insert path (record { mode = mode_of fs path; content = contents }) fs.files;
    })
    else err (write_failed path)

-- `set_permissions` with 0o600
unfoldable pub lock_down : FileSystem → Text → Text → Result SecretError FileSystem
unfolding insert
lock_down fs path contents =
    if fs.can_chmod path
    then ok (record fs { files = insert path (record { mode = 384; content = contents }) fs.files })
    else err (chmod_failed path)

unfoldable pub write_secret_file : FileSystem → FilePath → Text → Result SecretError FileSystem
unfolding create_parent write_file lock_down
write_secret_file fs path contents = do
  parent_made ← create_parent fs path
  written ← write_file fs path.name contents
  lock_down written path.name contents

-- the files behind `write_secret_file`, also where it failed: an error of `write` changes nothing
unfoldable pub left_by_write : FileSystem → FilePath → Text → FileSystem
unfolding create_parent write_file lock_down
left_by_write fs path contents = elim (create_parent fs path) [
  | err e ↦ fs
  | ok made ↦ elim (write_file fs path.name contents) [
    | err e ↦ fs
    | ok written ↦ elim (lock_down written path.name contents) [ err e ↦ written | ok done ↦ done ]
  ]
]
