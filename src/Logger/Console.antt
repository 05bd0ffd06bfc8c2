-- ===== src/Logger/Console.antt =====
-- What a console sink prints on which stream.
use my_server_project.Common.{
  ℕ, ◌≡◌, refl, sym, ap, ◌∙◌, inl, inr, Bool, true, false, not, ◌&&◌, List, [], ◌∷◌, ◌++◌, leb,
  append-nil, append_assoc, Bool-cases, if◌then◌else◌,
}
use my_server_project.Logger.{
  String, Sink, console, World, Logger, LogCall, rank, error, format_line, write_console,
  write_sink, is_filtered, log_all,
}
use my_server_project.Logger.File.{log-filtered, log-passed}

-- Whether a call is for the stream of errors (`true`) or the other one.
pub is_for : Bool → LogCall → Bool
is_for true c = leb (rank error) (rank c.level)
is_for false c = not (leb (rank error) (rank c.level))

-- The lines of the calls that the filter lets through and that are for a stream, oldest first.
pub lines_for : Bool → Logger → List LogCall → List String
lines_for errors l [] = []
lines_for errors l (c ∷ cs) =
    let rest = lines_for errors l cs in
    if not (is_filtered c.level l.level) && is_for errors c
    then format_line l.name c ∷ rest
    else rest

abbrev pub stream : Bool → World → List String
stream true w = w.err
stream false w = w.out

write_console-stream :
    (w : World) (name : String) (c : LogCall) (errors : Bool)
    → stream errors (write_console w name c)
      ≡ stream errors w ++ (if is_for errors c then format_line name c ∷ [] else [])
unfolding write_console is_for
write_console-stream w name c true = elim (Bool-cases (leb (rank error) (rank c.level))) [
  | inl e ↦ rw e refl
  | inr e ↦ rw e (sym (append-nil w.err))
]
write_console-stream w name c false = elim (Bool-cases (leb (rank error) (rank c.level))) [
  | inl e ↦ rw e (sym (append-nil w.out))
  | inr e ↦ rw e refl
]

split_line :
    (b : Bool) (xs rest : List String) (line : String)
    → (xs ++ (if b then line ∷ [] else [])) ++ rest ≡ xs ++ (if b then line ∷ rest else rest)
split_line true xs rest line = append_assoc xs (line ∷ []) rest
split_line false xs rest line = append_assoc xs [] rest

module _ (sink_at : ℕ → Sink) (l : Logger) (i : ℕ) (errors : Bool) where
  -- With a console sink alone, a run of calls appends to stderr the lines of those calls that pass
  -- and are of level ERROR or above, and to stdout those of the others that pass, in their order.
  pub log_all_console :
      (cs : List LogCall) (w : World)
      → l.sinks ≡ i ∷ []
      → sink_at i ≡ console
      → stream errors (log_all sink_at l w cs) ≡ stream errors w ++ lines_for errors l cs
  unfolding log_all lines_for write_sink
  log_all_console [] w one is_console = sym (append-nil (stream errors w))
  log_all_console (c ∷ cs) w one is_console = elim (Bool-cases (is_filtered c.level l.level)) [
    | inl e ↦
        ap (λ v. stream errors (log_all sink_at l v cs)) (log-filtered sink_at l w c e)
        ∙ log_all_console cs w one is_console
        ∙ ap
            (λ b.
              stream errors w
              ++ (if not b && is_for errors c
                  then format_line l.name c ∷ lines_for errors l cs
                  else lines_for errors l cs))
            (sym e)
    | inr e ↦
        ap (λ v. stream errors (log_all sink_at l v cs))
          (log-passed sink_at l w c i console e one is_console)
        ∙ log_all_console cs (write_console w l.name c) one is_console
        ∙ ap (λ s. s ++ lines_for errors l cs) (write_console-stream w l.name c errors)
        ∙ split_line (is_for errors c) (stream errors w) (lines_for errors l cs)
            (format_line l.name c)
        ∙ ap
            (λ b.
              stream errors w
              ++ (if not b && is_for errors c
                  then format_line l.name c ∷ lines_for errors l cs
                  else lines_for errors l cs))
            (sym e)
  ]
