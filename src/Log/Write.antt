-- ===== src/Log/Write.antt =====
-- ser_log_errno, ser_log_error_core, ser_log_stderr and ser_log_init.
-- What is written is a list of file descriptors with the bytes; -1 for a file is `none`.
use linux_communication.Common.{
  ℕ, zero, suc, ◌+◌, ◌-◌, List, [], ◌∷◌, ◌++◌, length, Bool, true, false, Option, none, some, ℤ,
  pos, negsuc, ltb, ◌||◌, codes, ◌==◌, if◌then◌else◌,
}
use linux_communication.Log.{Page, blank_page, write_at, write_all, read_from, c_string}
use mathlib.Core.Option
use linux_communication.Log.Format.{Arg, word, text, Printer, run_format, ser_vslprintf}
use linux_communication.Config.{ConfItem, get_string, get_int_default}

-- `ser_log_format`
abbrev pub ser_log_format : ℕ → ℕ → List ℕ → List Arg → Page → Page
ser_log_format w last fmt args p = ser_vslprintf w last fmt args p

-- `ser_log_t`
pub record SerLog : Type 0 where
  pub level : ℤ
  pub fd : Option ℕ

-- `struct tm`, as `localtime_r` fills it in.
pub record Tm : Type 0 where
  pub year : ℕ
  pub mon : ℕ
  pub mday : ℕ
  pub hour : ℕ
  pub min : ℕ
  pub sec : ℕ

-- What `strerror` returns, and what `sprintf` makes of "(%d: ".
pub record ErrorTexts : Type 0 where
  pub strerror : ℕ → List ℕ
  pub left : ℕ → List ℕ

-- What `write` returns: the number of bytes, or -1 with `errno`.
pub data Written : Type 0 where
  written : ℕ → Written
  failed : ℕ → Written

abbrev pub ser_max_error_str : ℕ
ser_max_error_str = 2048

abbrev pub enospc : ℕ
enospc = 28

-- `SerLogLevels`; 8 is its last index.
pub level_name : ℕ → List ℕ
level_name zero = codes "stderr"
level_name (suc zero) = codes "emerg"
level_name (suc (suc zero)) = codes "alert"
level_name (suc (suc (suc zero))) = codes "crit"
level_name (suc (suc (suc (suc zero)))) = codes "error"
level_name (suc (suc (suc (suc (suc zero))))) = codes "warn"
level_name (suc (suc (suc (suc (suc (suc zero)))))) = codes "notice"
level_name (suc (suc (suc (suc (suc (suc (suc zero))))))) = codes "info"
level_name (suc (suc (suc (suc (suc (suc (suc (suc n)))))))) = codes "debug"

-- `logLevel > ser_log.mLogLevel`
abbrev pub above : ℕ → ℤ → Bool
above level (pos n) = ltb n level
above level (negsuc n) = true

-- `STDERR_FILENO == ser_log.mFd`
abbrev pub is_stderr : Option ℕ → Bool
is_stderr none = false
is_stderr (some fd) = fd == 2

-- `ser_log.mFd > STDERR_FILENO`
abbrev pub is_file : Option ℕ → Bool
is_file none = false
is_file (some fd) = ltb 2 fd

-- `ser_log_errno(w, last, err)`
unfoldable pub ser_log_errno : ErrorTexts → ℕ → ℕ → ℕ → Page → Page
ser_log_errno texts w last err p =
    let info = texts.strerror err in
    let left = texts.left err in
    let right = codes ") " in
    if ltb (w + length info + length left + length right) last
    then write_all w (left ++ (info ++ right)) p
    else p

-- `if (0 != errNum) ser_log_errno(...)`
abbrev pub append_errno : ErrorTexts → ℕ → ℕ → ℕ → Page → Page
append_errno texts w last err p = if err == 0 then p else ser_log_errno texts w last err p

-- The place for the line feed, and the line from the start of the page up to it.
unfoldable pub end_line : ℕ → ℕ → Page → List ℕ
end_line w last p =
    let v = if ltb (last - 1) w then last - 1 else w in read_from 0 (suc v) (write_at v b'\n' p)

-- `currentTime`: the text that the format of the time makes.
unfoldable pub current_time : Tm → List ℕ
current_time tm = c_string 0 30 (
    ser_log_format 0 30 (codes "%4d/%02d/%02d %02d:%02d:%02d")
      (word (tm.year + 1900)
        ∷ word (tm.mon + 1)
        ∷ word tm.mday
        ∷ word tm.hour
        ∷ word tm.min
        ∷ word tm.sec
        ∷ [])
      (blank_page 30))

-- In `ser_log_error_core`, the run of `ser_vslprintf` for the message, after the time, the level and
-- the process. No call moves `w`, which is behind the time.
unfoldable pub message_run : ℕ → Tm → ℕ → List ℕ → List Arg → Printer
message_run pid tm level fmt args =
    let time = current_time tm in
    let w = length time in
    let p = write_all 0 time (blank_page (ser_max_error_str + 1)) in
    let q = ser_log_format w ser_max_error_str (codes " [%s] ") (text (level_name level) ∷ []) p in
    let r = ser_log_format w ser_max_error_str (codes " pid:%p ") (word pid ∷ []) q in
    run_format w ser_max_error_str fmt args r

-- The line of `ser_log_error_core`; `none` after a read outside of `SerLogLevels`, or where the
-- message does not have the arguments that its format wants.
unfoldable pub log_line : ErrorTexts → ℕ → Tm → ℕ → ℕ → List ℕ → List Arg → Option (List ℕ)
log_line texts pid tm level err fmt args =
    let w = length (current_time tm) in
    let s = message_run pid tm level fmt args in
    if ltb 8 level || s.fault
    then none
    else some (end_line w ser_max_error_str (append_errno texts w ser_max_error_str err s.page))

-- A `write`, where the file is open.
abbrev pub write_fd : Option ℕ → List ℕ → List (ℕ × List ℕ)
write_fd none line = []
write_fd (some fd) line = (fd, line) ∷ []

-- The loop at the end of `ser_log_error_core`, by what the first `write` returns.
pub write_line : SerLog → ℕ → Written → List ℕ → List (ℕ × List ℕ)
write_line log level (written n) line = if above level log.level then [] else write_fd log.fd line
write_line log level (failed errno) line =
    if above level log.level
    then []
    else if errno == enospc || is_stderr log.fd
    then write_fd log.fd line
    else write_fd log.fd line ++ ((2, line) ∷ [])

unfoldable pub ser_log_error_core :
    ErrorTexts → ℕ → Tm → Written → SerLog → ℕ → ℕ → List ℕ → List Arg → Option (List (ℕ × List ℕ))
ser_log_error_core texts pid tm result log level err fmt args =
    Option.map (write_line log level result) (log_line texts pid tm level err fmt args)

-- `ser_log_stderr`: a line to the standard error, after one to the log if that is a file; `none`
-- where a format does not have the arguments that it wants.
ser_log_stderr :
    ErrorTexts → ℕ → Tm → Written → SerLog → ℕ → List ℕ → List Arg → Option (List (ℕ × List ℕ))
ser_log_stderr texts pid tm result log err fmt args =
    let head = codes "server: " in
    let w = length head in
    let p = write_all 0 head (blank_page (ser_max_error_str + 1)) in
    let run = run_format w ser_max_error_str fmt args p in
    let r = append_errno texts w ser_max_error_str err run.page in
    let line = c_string 0 (ser_max_error_str + 1) r in
    let logged =
      if is_file log.fd
      then ser_log_error_core texts pid tm result log 0 err line []
      else some [] in
    if run.fault
    then none
    else Option.map (λ ls. ls ++ ((2, end_line w ser_max_error_str r) ∷ [])) logged

-- `LogFilePath`, or `SER_LOG_DEFAULT_PATH`.
abbrev pub path_or_default : Option (List ℕ) → List ℕ
path_or_default none = codes "logs/error.log"
path_or_default (some path) = path

-- By what `open` returns.
open_log :
    ErrorTexts → ℕ → Tm → Written → ℕ → ℤ → List ℕ → Option ℕ → SerLog × Option (List (ℕ × List ℕ))
open_log texts pid tm result errno level path (some fd) =
    (record { level = level; fd = some fd }, some [])
open_log texts pid tm result errno level path none = (
  record { level = level; fd = some 2 },
  ser_log_stderr texts pid tm result (record { level = level; fd = none }) errno
      (codes "can not open log file path:%s") (text path ∷ []),
)

-- `ser_log_init`. `open_file` returns the file or -1, then with `errno`; a failure is reported
-- with -1 for the file, and the log goes to the standard error from then on.
ser_log_init :
    (List ℕ → List ℕ → Bool)
    → (List ℕ → ℤ)
    → (List ℕ → Option ℕ)
    → ErrorTexts
    → ℕ
    → Tm
    → Written
    → ℕ
    → List ConfItem
    → SerLog × Option (List (ℕ × List ℕ))
ser_log_init same_name atoi open_file texts pid tm result errno items =
    let path = path_or_default (get_string same_name (codes "LogFilePath") items) in
    let level = get_int_default same_name atoi (codes "LogLevel") (pos 6) items in
    open_log texts pid tm result errno level path (open_file path)
