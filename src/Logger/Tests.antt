-- ===== src/Logger/Tests.antt =====
-- Runs of a logger on the calls of the repository's unit test, and the theorems at concrete loggers.
use my_server_project.Common.{ℕ, ◌≡◌, refl, false, none, some, List, [], ◌∷◌, ◌++◌}
use my_server_project.Logger.{
  String, Sink, console, file, World, Logger, LogCall, debug, info, error, construct, set_level,
  get_level, level_to_string, to_level_name, log_all, passed_lines, is_filtered, format_line,
  parent_dir,
}
use my_server_project.Logger.File.{log_all_lem}

-- "a/b".
abbrev path : String
path = 97 ∷ 47 ∷ 98 ∷ []

abbrev logger : Logger
logger = record { name = 85 ∷ []; level = info; sinks = 0 ∷ [] }

abbrev on_disk : ℕ → Sink
on_disk i = file path false

abbrev on_console : ℕ → Sink
on_console i = console

-- File 7 holds a line of an earlier run.
abbrev world : World
world = record { out = []; err = []; disk = λ g. (1 ∷ []) ∷ []; handles = λ i. none; made = [] }

abbrev debug_call : LogCall
debug_call = record { level = debug; message = 1 ∷ []; timestamp = 48 ∷ []; opens = λ i. some 7 }

abbrev info_call : LogCall
info_call = record { level = info; message = 2 ∷ []; timestamp = 48 ∷ []; opens = λ i. some 7 }

abbrev error_call : LogCall
error_call = record { level = error; message = 3 ∷ []; timestamp = 48 ∷ []; opens = λ i. some 7 }

abbrev calls : List LogCall
calls = debug_call ∷ info_call ∷ error_call ∷ []

starts_at_info : construct (85 ∷ []) (0 ∷ []) ≡ logger
unfolding construct
starts_at_info = refl

directory : parent_dir path ≡ some (97 ∷ [])
unfolding parent_dir
directory = refl

debug_filtered :
    passed_lines logger calls
    ≡ format_line (85 ∷ []) info_call ∷ format_line (85 ∷ []) error_call ∷ []
unfolding passed_lines is_filtered
debug_filtered = refl

log_all_lem_example : (log_all on_disk logger world calls).disk 7 ≡ [] ++ passed_lines logger calls
log_all_lem_example =
    log_all_lem on_disk logger 0 7 path false calls world refl refl refl (refl, (refl, (refl, tt)))
      (unfold passed_lines is_filtered in λ e. cc)

-- The level set is the level had, and "INFO" is its name at first.
level_set : get_level (set_level (construct (85 ∷ []) []) error) ≡ error
level_set = refl

level_named : level_to_string (get_level (construct (85 ∷ []) [])) ≡ 73 ∷ 78 ∷ 70 ∷ 79 ∷ []
unfolding construct to_level_name
level_named = refl
