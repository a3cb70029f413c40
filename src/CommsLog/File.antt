-- ===== src/CommsLog/File.antt =====
-- file.go of bus/internal/commslog: the rotating file behind the log. The files of the log are numbered
-- as `rotatedName` does, 0 being the file that is written; every call of the operating system may
-- fail. Sizes are far below 2 ^ 63 and do not wrap.
use sessionbus.Base.{
  Bool, Option, [], false, first, if◌then◌else◌, is_none, length, ltb, none, not, some, suc, true,
  zero, ℕ, ◌&&◌, ◌++◌, ◌+◌, ◌-◌, ◌==◌, ◌||◌,
}
use sessionbus.CommsLog.State.{Bytes}
use sessionbus.CommsLog.Writer.{failed}

abbrev pub Files : Type 0
Files = ℕ → Option Bytes

pub record RotatingFile : Type 0 where
  pub max_bytes : ℕ
  pub max_files : ℕ
  -- `f.file` is not nil
  pub is_open : Bool
  pub size : ℕ
  pub files : Files

-- The calls that may fail; `stats_new` is the check of a file that has been opened and truncated.
pub data Call : Type 0 where
  syncs_and_closes removes_oldest opens_new stats_new : Call
  validates inspects renames : ℕ → Call

abbrev pub Faults : Type 0
Faults = Call → Bool

abbrev pub body : Option Bytes → Bytes
body none = []
body (some bs) = bs

unfoldable pub set_file : ℕ → Option Bytes → Files → Files
set_file n value fs i = if i == n then value else fs i

-- `os.Rename` of file `n` to the next number.
unfoldable pub move_up : ℕ → Files → Files
unfolding set_file
move_up n fs = set_file n none (set_file (suc n) (fs n) fs)

-- The loop of `rotate` from file `n - 1` down to file 0, and whether no call failed.
unfoldable pub shift : Faults → ℕ → Files → Files × Bool
unfolding move_up
shift fails zero fs = (fs, true)
shift fails (suc n) fs =
    let skipped = shift fails n fs in
    let moved = shift fails n (move_up n fs) in
    if fails (validates n) || fails (inspects n)
    then (fs, false)
    else if is_none (fs n)
    then skipped
    else if fails (renames n)
    then (fs, false)
    else moved

-- `openLogFile` with O_TRUNC, and the fields that follow it.
unfoldable pub create : Faults → RotatingFile → RotatingFile × Bool
unfolding set_file
create fails f =
    let fs = set_file 0 (some []) f.files in
    if fails opens_new
    then (f, false)
    else if fails stats_new
    then (record f { files = fs }, false)
    else (record f { files = fs; is_open = true; size = 0 }, true)

unfoldable pub shifted : Faults → RotatingFile → Files × Bool → RotatingFile × Bool
unfolding create
shifted fails f (fs, true) = create fails (record f { files = fs })
shifted fails f (fs, false) = (record f { files = fs }, false)

unfoldable pub rotate : Faults → RotatingFile → RotatingFile × Bool
unfolding shifted shift create set_file
rotate fails f =
    if fails syncs_and_closes
    then (f, false)
    else let g = record f { is_open = false } in
      if f.max_files == 1
      then create fails g
      else if fails removes_oldest
      then (g, false)
      else shifted fails g (shift fails (f.max_files - 1) (set_file (f.max_files - 1) none f.files))

-- `f.file.Write(raw)`: it took `count` bytes, and failed or not.
unfoldable pub append : RotatingFile → Bytes → ℕ → Bool → RotatingFile × Bool
unfolding set_file
append f raw count failed =
    if f.is_open
    then (
      record f {
        files = set_file 0 (some (body (f.files 0) ++ first count raw)) f.files;
        size = f.size + count;
      },
      not failed && count == length raw,
    )
    else (f, false)

unfoldable pub appended : RotatingFile × Bool → Bytes → ℕ → Bool → RotatingFile × Bool
unfolding append
appended (f, true) raw count failed = append f raw count failed
appended (f, false) raw count failed = (f, false)

unfoldable pub write_record : Faults → RotatingFile → Bytes → ℕ → Bool → RotatingFile × Bool
unfolding append appended rotate
write_record fails f raw count failed =
    if ltb f.max_bytes (length raw)
    then (f, false)
    else if not (f.size == 0) && ltb f.max_bytes (f.size + length raw)
    then appended (rotate fails f) raw count failed
    else append f raw count failed
