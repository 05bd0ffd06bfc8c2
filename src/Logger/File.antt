-- ===== src/Logger/File.antt =====
-- What a file sink leaves in its file.
use my_server_project.Common.{
  ℕ, ◌≡◌, ◌≢◌, refl, sym, ap, ◌∙◌, inl, inr, Bool, true, false, Option, none, some, List, [], ◌∷◌,
  ◌++◌, append-nil, append_assoc, Bool-cases, if◌then◌else◌, if_self, All,
}
use my_server_project.Logger.{
  String, Sink, file, World, Logger, LogCall, format_line, make_dir, open_file, ensure_open,
  print_to, write_file, write_sink, emit_to, is_filtered, log, log_all, passed_lines, parent_dir,
}

print_lem :
    (h : Option ℕ) (w : World) (name : String) (c : LogCall) (i f : ℕ)
    → h ≡ some f
    → ((print_to h w name c).handles i ≡ w.handles i)
      × ((print_to h w name c).disk f ≡ w.disk f ++ format_line name c ∷ [])
unfolding print_to
print_lem none w name c i f e = cc
print_lem (some g) w name c i f e =
    let same : g ≡ f = cc in
    (refl, rw same (if_self f (w.disk f ++ format_line name c ∷ []) (w.disk f)))

make_dir-disk : (w : World) (o : Option String) → (make_dir w o).disk ≡ w.disk
unfolding make_dir
make_dir-disk w none = refl
make_dir-disk w (some dir) = refl

-- What `write_file` does after the file is open.
print_opened :
    (v : World) (i f : ℕ) (name : String) (c : LogCall)
    → v.handles i ≡ some f
    → let u = print_to (v.handles i) v name c in
      (u.handles i ≡ some f) × (u.disk f ≡ v.disk f ++ format_line name c ∷ [])
print_opened v i f name c h =
    let (kept, line) = print_lem (v.handles i) v name c i f h in (kept ∙ h, line)

ensure_opened :
    (h : Option ℕ) (w : World) (i f : ℕ) (path : String) (append : Bool) (opened : Option ℕ)
    → w.handles i ≡ h
    → h ≡ some f
    → let v = ensure_open h w i path append opened in (v.handles i ≡ some f) × (v.disk f ≡ w.disk f)
unfolding ensure_open
ensure_opened none w i f path append opened e h = cc
ensure_opened (some g) w i f path append opened e h = (e ∙ h, refl)

ensure_first :
    (h : Option ℕ) (w : World) (i f : ℕ) (path : String) (append : Bool) (opened : Option ℕ)
    → h ≡ none
    → opened ≡ some f
    → let v = ensure_open h w i path append opened in
      (v.handles i ≡ some f) × (v.disk f ≡ (if append then w.disk f else []))
unfolding ensure_open open_file
ensure_first (some g) w i f path append opened h o = cc
ensure_first none w i f path append none h o = cc
ensure_first none w i f path append (some g) h o =
    let same : g ≡ f = cc in
    rw same (
      if_self i (some f) ((make_dir w (parent_dir path)).handles i),
      if_self f (if append then (make_dir w (parent_dir path)).disk f else [])
            ((make_dir w (parent_dir path)).disk f)
          ∙ ap (λ d. if append then d f else []) (make_dir-disk w (parent_dir path)),
    )

-- An open sink appends the line and stays open.
write_opened :
    (w : World) (i f : ℕ) (path : String) (append : Bool) (name : String) (c : LogCall)
    → w.handles i ≡ some f
    → let v = write_file w i path append name c in
      (v.handles i ≡ some f) × (v.disk f ≡ w.disk f ++ format_line name c ∷ [])
unfolding write_file
write_opened w i f path append name c h =
    let v = ensure_open (w.handles i) w i path append (c.opens i) in
    let (held, kept) = ensure_opened (w.handles i) w i f path append (c.opens i) refl h in
    let (still, line) = print_opened v i f name c held in
    (still, line ∙ ap (λ d. d ++ format_line name c ∷ []) kept)

-- The first write opens the file, keeps its lines or drops them by the mode, and appends.
write_first :
    (w : World) (i f : ℕ) (path : String) (append : Bool) (name : String) (c : LogCall)
    → w.handles i ≡ none
    → c.opens i ≡ some f
    → let v = write_file w i path append name c in
      (v.handles i ≡ some f)
      × (v.disk f ≡ (if append then w.disk f else []) ++ format_line name c ∷ [])
unfolding write_file
write_first w i f path append name c h o =
    let v = ensure_open (w.handles i) w i path append (c.opens i) in
    let (held, kept) = ensure_first (w.handles i) w i f path append (c.opens i) h o in
    let (still, line) = print_opened v i f name c held in
    (still, line ∙ ap (λ d. d ++ format_line name c ∷ []) kept)

module _ (sink_at : ℕ → Sink) (l : Logger) (w : World) (c : LogCall) where
  pub log-filtered : is_filtered c.level l.level ≡ true → log sink_at l w c ≡ w
  unfolding log
  log-filtered e = ap (λ b. if b then w else emit_to sink_at l.sinks w l.name c) e

  -- A call that passes, with one sink.
  pub log-passed :
      (i : ℕ) (s : Sink)
      → is_filtered c.level l.level ≡ false
      → l.sinks ≡ i ∷ []
      → sink_at i ≡ s
      → log sink_at l w c ≡ write_sink s i w l.name c
  unfolding log emit_to
  log-passed i s e one is_s =
      ap (λ b. if b then w else emit_to sink_at l.sinks w l.name c) e
      ∙ ap (λ is. emit_to sink_at is w l.name c) one
      ∙ ap (λ s. write_sink s i w l.name c) is_s

module _ (l : Logger) (c : LogCall) (cs : List LogCall) where
  pub passed-filtered :
      is_filtered c.level l.level ≡ true → passed_lines l (c ∷ cs) ≡ passed_lines l cs
  unfolding passed_lines
  passed-filtered e =
      ap (λ b. if b then passed_lines l cs else format_line l.name c ∷ passed_lines l cs) e

  pub passed-passed :
      is_filtered c.level l.level ≡ false
      → passed_lines l (c ∷ cs) ≡ format_line l.name c ∷ passed_lines l cs
  unfolding passed_lines
  passed-passed e =
      ap (λ b. if b then passed_lines l cs else format_line l.name c ∷ passed_lines l cs) e

module _ (sink_at : ℕ → Sink) (l : Logger) (i f : ℕ) (path : String) (append : Bool) where
  -- Once the file is open, a run of calls appends the lines that the filter lets through.
  log_all_opened :
      (cs : List LogCall) (w : World)
      → l.sinks ≡ i ∷ []
      → sink_at i ≡ file path append
      → w.handles i ≡ some f
      → (log_all sink_at l w cs).disk f ≡ w.disk f ++ passed_lines l cs
  unfolding log_all write_sink
  log_all_opened [] w one is_file h = unfold passed_lines in sym (append-nil (w.disk f))
  log_all_opened (c ∷ cs) w one is_file h = elim (Bool-cases (is_filtered c.level l.level)) [
    | inl e ↦
        ap (λ v. (log_all sink_at l v cs).disk f) (log-filtered sink_at l w c e)
        ∙ log_all_opened cs w one is_file h
        ∙ ap (λ xs. w.disk f ++ xs) (sym (passed-filtered l c cs e))
    | inr e ↦
        let (still, line) = write_opened w i f path append l.name c h in
        ap (λ v. (log_all sink_at l v cs).disk f)
          (log-passed sink_at l w c i (file path append) e one is_file)
        ∙ log_all_opened cs (write_file w i path append l.name c) one is_file still
        ∙ ap (λ d. d ++ passed_lines l cs) line
        ∙ append_assoc (w.disk f) (format_line l.name c ∷ []) (passed_lines l cs)
        ∙ ap (λ xs. w.disk f ++ xs) (sym (passed-passed l c cs e))
  ]

  -- For a logger with one file sink that is not open yet, calls whose `fopen` would each yield the
  -- file, and at least one that the filter lets through: the file then holds what it held (nothing,
  -- if the sink does not append), and after it the lines of just those calls, in their order.
  pub log_all_lem :
      (cs : List LogCall) (w : World)
      → l.sinks ≡ i ∷ []
      → sink_at i ≡ file path append
      → w.handles i ≡ none
      → All (λ c. c.opens i ≡ some f) cs
      → passed_lines l cs ≢ []
      → (log_all sink_at l w cs).disk f ≡ (if append then w.disk f else []) ++ passed_lines l cs
  unfolding log_all write_sink
  log_all_lem [] w one is_file h opens some_pass = absurd (some_pass (unfold passed_lines in refl))
  log_all_lem (c ∷ cs) w one is_file h opens some_pass =
      elim (Bool-cases (is_filtered c.level l.level)) [
        | inl e ↦
            ap (λ v. (log_all sink_at l v cs).disk f) (log-filtered sink_at l w c e)
            ∙ log_all_lem cs w one is_file h opens.1
                (λ none_pass. some_pass (passed-filtered l c cs e ∙ none_pass))
            ∙ ap (λ xs. (if append then w.disk f else []) ++ xs) (sym (passed-filtered l c cs e))
        | inr e ↦
            let (still, line) = write_first w i f path append l.name c h opens.0 in
            ap (λ v. (log_all sink_at l v cs).disk f)
              (log-passed sink_at l w c i (file path append) e one is_file)
            ∙ log_all_opened cs (write_file w i path append l.name c) one is_file still
            ∙ ap (λ d. d ++ passed_lines l cs) line
            ∙ append_assoc (if append then w.disk f else []) (format_line l.name c ∷ [])
                (passed_lines l cs)
            ∙ ap (λ xs. (if append then w.disk f else []) ++ xs) (sym (passed-passed l c cs e))
      ]
