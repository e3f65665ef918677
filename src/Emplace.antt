-- ===== src/Emplace.antt =====
-- lib/fs/emplacements.go. The operating system is an argument: its answer to a call is any function of the call
-- and of the calls before it, which are the state. An error of a call that the code does not
-- look at keeps its number.
pub mod Place
pub mod Mkdir
pub mod Links
pub mod Breakout
pub mod Fuel
mod Examples
use repeatr.Base.{ℕ, ℤ, Bool, Text, Option, none, some, List, [], ◌∷◌, ◌++◌, if◌then◌else◌}
use repeatr.Formula.{Time}

-- The system calls, by the functions of Go that make them.
pub data Call : Type 0 where
  readlink lstat stat copy_body close_file : Text → Call
  mkdir open_write mkfifo chmod : Text → ℕ → Call
  symlink link : Text → Text → Call
  mknod : Text → ℕ → ℕ → Call
  lchown : Text → ℤ → ℤ → Call
  lsetxattr : Text → Text → Text → Call
  utimes_nano lutimes_nano : Text → Time → Time → Call

-- `os.IsNotExist`, `EINVAL`, and the others; `enotdir` is the error that `mkdirAll` makes itself.
pub data Errno : Type 0 where
  not_exist invalid_argument enotdir : Errno
  other_errno : ℕ → Errno

-- What a call returns: nothing, the target of a link, `IsDir` and `ModTime` of a file, or an error.
pub data Reply : Type 0 where
  done : Reply
  link_target : Text → Reply
  file_info : Bool → Time → Reply
  errno : Errno → Reply

-- The panics of the file.
pub data Panic : Type 0 where
  breakout : Panic
  io_error : Errno → Panic
  unhandled_mode : Panic

pub data Result (A : Type 0) : Type 0 where
  value : A → Result A
  panicked : Panic → Result A

-- A part of the code: from the calls so far to its result and the calls then.
abbrev pub Prog : Type 0 → Type 0
Prog A = List Call → Result A × List Call

module _ {A B : Type 0} where
  abbrev pub continued : (A → Prog B) → Result A → Prog B
  continued f (value a) calls = f a calls
  continued f (panicked p) calls = (panicked p, calls)

infixl 5 ◌>>=◌ ◌>>◌
abbrev pub ◌>>=◌ : {A B : Type 0} → Prog A → (A → Prog B) → Prog B
◌>>=◌ m f calls = let (r, later) = m calls in continued f r later

abbrev pub ◌>>◌ : {B : Type 0} → Prog (Unit {0}) → Prog B → Prog B
m >> k = m >>= λ _. k

abbrev pub pure : {A : Type 0} → A → Prog A
pure a calls = (value a, calls)

abbrev pub panic : {A : Type 0} → Panic → Prog A
panic p calls = (panicked p, calls)

-- `ioError`, if there is an error.
abbrev pub checked : Reply → Prog (Unit {0})
checked done = pure tt
checked (link_target t) = pure tt
checked (file_info d t) = pure tt
checked (errno e) = panic (io_error e)

module _ (os : List Call → Call → Reply) where
  abbrev pub ask : Call → Prog Reply
  ask call calls = (value (os calls call), calls ++ (call ∷ []))

  abbrev pub must : Call → Prog (Unit {0})
  must call = ask call >>= checked
