-- ===== src/Logger.antt =====
-- The logger and its sinks (src/lib-core/src/Logger.cpp and src/lib-core/include/core/Logger.hpp):
-- a level filter in front of a list of shared sinks, which print to the console or to a file. The
-- children hold what a run of log calls leaves in a file and on the console.
pub mod File
pub mod Console
mod Tests
use my_server_project.Common.{
  ℕ, zero, suc, Bool, true, false, Option, none, some, List, [], ◌∷◌, ◌++◌, ◌||◌, ltb, leb, ◌==◌,
  if◌then◌else◌,
}

-- The codes of the characters.
abbrev pub String : Type 0
String = List ℕ

-- `eLogLevel`.
pub data LogLevel : Type 0 where
  trace debug info warn error critical off : LogLevel

-- The enumerators' values.
abbrev pub rank : LogLevel → ℕ
rank trace = 0
rank debug = 1
rank info = 2
rank warn = 3
rank error = 4
rank critical = 5
rank off = 6

-- "UNKNOWN", for a number that no enumerator has, is not needed.
unfoldable pub to_level_name : LogLevel → String
to_level_name trace = 84 ∷ 82 ∷ 65 ∷ 67 ∷ 69 ∷ []
to_level_name debug = 68 ∷ 69 ∷ 66 ∷ 85 ∷ 71 ∷ []
to_level_name info = 73 ∷ 78 ∷ 70 ∷ 79 ∷ []
to_level_name warn = 87 ∷ 65 ∷ 82 ∷ 78 ∷ []
to_level_name error = 69 ∷ 82 ∷ 82 ∷ 79 ∷ 82 ∷ []
to_level_name critical = 67 ∷ 82 ∷ 73 ∷ 84 ∷ 73 ∷ 67 ∷ 65 ∷ 76 ∷ []
to_level_name off = 79 ∷ 70 ∷ 70 ∷ []

-- A `ConsoleSink`, or a `FileSink` with `mFilePath` and `mAppend`.
pub data Sink : Type 0 where
  console : Sink
  file : String → Bool → Sink

-- The lines on stdout and stderr, the lines of each file, the `mFileHandle` of each sink, and the
-- directories that `mkdir` was called with. Sinks are shared, so a logger names them by number.
pub record World : Type 0 where
  pub out : List String
  pub err : List String
  pub disk : ℕ → List String
  pub handles : ℕ → Option ℕ
  pub made : List String

pub record Logger : Type 0 where
  pub name : String
  pub level : LogLevel
  pub sinks : List ℕ

unfoldable pub construct : String → List ℕ → Logger
construct name sinks = record { name = name; level = info; sinks = sinks }

abbrev pub set_level : Logger → LogLevel → Logger
set_level l level = record l { level = level }

abbrev pub get_level : Logger → LogLevel
get_level l = l.level

-- A call of `Log`: its level, the formatted message, the time it would be stamped with, and the file
-- that `fopen` would give each sink.
pub record LogCall : Type 0 where
  pub level : LogLevel
  pub message : String
  pub timestamp : String
  pub opens : ℕ → Option ℕ

-- "[{}] " of a text.
unfoldable pub bracket : String → String
bracket s = 91 ∷ (s ++ 93 ∷ 32 ∷ [])

-- The line for "[{}] [{}] {}", or for "[{}] [{}] [{}] {}" where the logger has a name.
unfoldable pub format_line : String → LogCall → String
unfolding bracket to_level_name
format_line [] c = bracket c.timestamp ++ bracket (to_level_name c.level) ++ c.message
format_line (x ∷ xs) c =
    bracket c.timestamp ++ bracket (to_level_name c.level) ++ bracket (x ∷ xs) ++ c.message

unfoldable pub write_console : World → String → LogCall → World
unfolding format_line
write_console w name c =
    if leb (rank error) (rank c.level)
    then record w { err = w.err ++ format_line name c ∷ [] }
    else record w { out = w.out ++ format_line name c ∷ [] }

-- The text before the last '/', if there is one.
unfoldable pub parent_dir : String → Option String
parent_dir [] = none
parent_dir (x ∷ xs) = elim (parent_dir xs) [
  | some dir ↦ some (x ∷ dir)
  | none ↦ if x == 47 then some [] else none
]

unfoldable pub make_dir : World → Option String → World
make_dir w none = w
make_dir w (some dir) = record w { made = w.made ++ dir ∷ [] }

-- `fopen` with mode "a" or "w", which empties the file, and the store of its result.
unfoldable pub open_file : World → ℕ → Bool → Option ℕ → World
open_file w i append none = record w { handles = λ k. if k == i then none else w.handles k }
open_file w i append (some f) = record w {
  handles = λ k. if k == i then some f else w.handles k;
  disk = λ g. if g == f then (if append then w.disk g else []) else w.disk g;
}

-- `EnsureFileOpen`, by the handle that it finds.
unfoldable pub ensure_open : Option ℕ → World → ℕ → String → Bool → Option ℕ → World
unfolding make_dir open_file parent_dir
ensure_open (some f) w i path append opened = w
ensure_open none w i path append opened = open_file (make_dir w (parent_dir path)) i append opened

abbrev pub ensure_file_open : World → ℕ → String → Bool → Option ℕ → World
ensure_file_open w i path append opened = ensure_open (w.handles i) w i path append opened

unfoldable pub print_to : Option ℕ → World → String → LogCall → World
unfolding format_line
print_to none w name c = w
print_to (some f) w name c = record w {
  disk = λ g. if g == f then w.disk g ++ format_line name c ∷ [] else w.disk g;
}

unfoldable pub write_file : World → ℕ → String → Bool → String → LogCall → World
unfolding ensure_open print_to
write_file w i path append name c =
    let v = ensure_file_open w i path append (c.opens i) in print_to (v.handles i) v name c

unfoldable pub write_sink : Sink → ℕ → World → String → LogCall → World
unfolding write_console write_file
write_sink console i w name c = write_console w name c
write_sink (file path append) i w name c = write_file w i path append name c

-- The loop of `Emit`, over the sinks left.
unfoldable pub emit_to : (ℕ → Sink) → List ℕ → World → String → LogCall → World
unfolding write_sink
emit_to sink_at [] w name c = w
emit_to sink_at (i ∷ is) w name c = emit_to sink_at is (write_sink (sink_at i) i w name c) name c

unfoldable pub is_filtered : LogLevel → LogLevel → Bool
is_filtered level least = ltb (rank level) (rank least) || rank least == rank off

unfoldable pub log : (ℕ → Sink) → Logger → World → LogCall → World
unfolding emit_to is_filtered
log sink_at l w c = if is_filtered c.level l.level then w else emit_to sink_at l.sinks w l.name c

-- Calls one after another.
unfoldable pub log_all : (ℕ → Sink) → Logger → World → List LogCall → World
unfolding log
log_all sink_at l w [] = w
log_all sink_at l w (c ∷ cs) = log_all sink_at l (log sink_at l w c) cs

-- The lines that the filter lets through, oldest first.
unfoldable pub passed_lines : Logger → List LogCall → List String
unfolding is_filtered format_line
passed_lines l [] = []
passed_lines l (c ∷ cs) =
    let rest = passed_lines l cs in
    if is_filtered c.level l.level then rest else format_line l.name c ∷ rest

-- `LevelToString`.
abbrev pub level_to_string : LogLevel → String
level_to_string level = to_level_name level
