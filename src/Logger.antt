-- ===== src/Logger.antt =====
-- include/quick/utils: Logger.hh, SimpleLogger.hh, LoggerImpl.hpp and Timer.hh. A message is its text;
-- what is written to `std::cout` is one text. The clock is an argument.
pub mod Clock
pub mod Names
mod Tests
use quickstructs.Prelude.{
  ℕ, ◌-◌, ◌/◌, Bool, true, false, Option, none, some, List, [], ◌∷◌, ◌++◌, ltb, if◌then◌else◌,
}
use quickstructs.Text.{Text, codes}
use quickstructs.Text.Numbers.{decimal}

-- `Level`
pub data Level : Type 0 where
  info : Level
  debug : Level
  error : Level
  warn : Level

pub level_to_string : Level → Text
level_to_string info = codes "INFO"
level_to_string debug = codes "DEBUG"
level_to_string error = codes "ERROR"
level_to_string warn = codes "WARN"

-- An escape sequence.
abbrev pub escape : Text → Text
escape s = 27 ∷ b'[' ∷ s

pub level_to_color : Level → Text
level_to_color info = escape (codes "32m")
level_to_color debug = escape (codes "36m")
level_to_color error = escape (codes "31m")
level_to_color warn = escape (codes "33m")

-- The parts of the time that are written.
pub record Time : Type 0 where
  pub hour : ℕ
  pub min : ℕ
  pub sec : ℕ
  pub ms : ℕ

abbrev pub two_digits : ℕ → Text
two_digits n = (if ltb n 10 then b'0' ∷ [] else []) ++ decimal n

pub time_text : Time → Text
time_text t =
    two_digits t.hour
    ++ b':' ∷ (two_digits t.min ++ b':' ∷ (two_digits t.sec ++ b'.' ∷ decimal t.ms))

-- What a call of a logger is given: the level, the time, `func`, `line` and the arguments.
pub record Message : Type 0 where
  pub level : Level
  pub time : Time
  pub func : Text
  pub line : ℕ
  pub args : List Text

abbrev pub join : List Text → Text
join [] = []
join (a ∷ rest) = a ++ join rest

-- The line that `_log` builds.
pub log_line : Text → Message → Text
log_line name m =
    level_to_color m.level
    ++ codes "["
    ++ time_text m.time
    ++ codes "]["
    ++ level_to_string m.level
    ++ codes "]["
    ++ name
    ++ codes "::"
    ++ m.func
    ++ codes ":"
    ++ decimal m.line
    ++ codes "] "
    ++ join m.args
    ++ escape (codes "0m")
    ++ b'\n' ∷ []

-- The loggers of one tag: the name of the static instance, if it was constructed, and the output.
pub record Logger : Type 0 where
  pub name : Option Text
  pub out : Text

abbrev pub no_logger : Logger
no_logger = record { name = none; out = [] }

-- `get_instance`
abbrev pub first_name : Option Text → Text → Text
first_name none name = name
first_name (some n) name = n

pub get_instance : Text → Logger → Logger
get_instance name l = record l { name = some (first_name l.name name) }

-- `_log`, by `info`, `error`, `debug` and `warn` of the instance with this name.
pub log : Text → Message → Logger → Logger
log name m l = record l { out = l.out ++ log_line name m }

-- SimpleLogger: `impl_logger`, `init`, and the four functions that forward to it.
abbrev pub generic_name : Text
generic_name = codes "GenericLogger"

abbrev pub impl_logger : Logger → Logger
impl_logger l = get_instance generic_name l

abbrev pub init : Text → Logger → Logger
init name l = get_instance name l

abbrev pub forward : Message → Logger → Logger
forward m l = let l' = impl_logger l in log (first_name l.name generic_name) m l'

-- LoggerImpl: an older `_log`, whose tables have no `warn`, and which takes the time as a text.
pub impl_level_to_string : Level → Text
impl_level_to_string info = codes "INFO"
impl_level_to_string debug = codes "DEBUG"
impl_level_to_string error = codes "ERROR"
impl_level_to_string warn = codes "UNKNOWN"

pub impl_level_to_color : Level → Text
impl_level_to_color info = escape (codes "32m")
impl_level_to_color debug = escape (codes "36m")
impl_level_to_color error = escape (codes "31m")
impl_level_to_color warn = escape (codes "0m")

pub impl_line : Text → Message → Text
impl_line time m =
    impl_level_to_color m.level
    ++ b'[' ∷ time
    ++ codes "]["
    ++ m.func
    ++ b':' ∷ decimal m.line
    ++ codes "]["
    ++ impl_level_to_string m.level
    ++ codes "] "
    ++ join m.args
    ++ escape (codes "0m")
    ++ b'\n' ∷ []

-- `Timer`, with the nanoseconds of `steady_clock`.
pub record Timer : Type 0 where
  pub scope_name : Text
  pub start_timepoint : ℕ

abbrev pub make_timer : Text → ℕ → Timer
make_timer name now = record { scope_name = name; start_timepoint = now }

-- `elapsed`, in microseconds, and the text that `stop` prints; `utc` is the time of day.
pub elapsed : ℕ → Timer → ℕ
elapsed now t = (now - t.start_timepoint) / 1000

pub stop : Text → ℕ → Timer → Text
stop utc now t =
    utc
    ++ codes "[Timer] "
    ++ t.scope_name
    ++ codes " took "
    ++ decimal (elapsed now t)
    ++ codes "ns"

pub reset_timer : ℕ → Timer → Timer
reset_timer now t = record t { start_timepoint = now }
