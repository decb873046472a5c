-- ===== src/Args/Traces.antt =====
-- The search for the traces in src/argsv2.rs. How sure babeltrace is that a directory holds a trace, and which
-- directories lie below one, are parameters; a query or a walk that fails panics.
use ros2trace_analyzer.Common.{
  String, Bool, true, false, List, [], ◌∷◌, ◌++◌, Result, ok, ◌≡◌, ◌⊎◌, inl, inr, if◌then◌else◌,
}
use ros2trace_analyzer.Analysis.Base.{◌>>=◌}
use ros2trace_analyzer.Analysis.Returns.{Returns, returns, >>=-Returns, bind-Returns, of_Returns}
use ros2trace_analyzer.Args.{Args, FilePath}

module _ {F : Type 0} (weight : FilePath → Result F) (walk : FilePath → Result (List FilePath))
    (above_threshold : F → Bool) where
  unfoldable pub is_trace_path : FilePath → Result Bool
  is_trace_path path = do w ← weight path; ok (above_threshold w)

  unfoldable pub keep_trace_paths : List FilePath → Result (List FilePath)
  unfolding is_trace_path
  keep_trace_paths [] = ok []
  keep_trace_paths (path ∷ rest) = do
    is_trace ← is_trace_path path
    later ← keep_trace_paths rest
    ok (if is_trace then path ∷ later else later)

  unfoldable pub find_trace_paths : FilePath → Result (List FilePath)
  unfolding keep_trace_paths
  find_trace_paths search_path = do directories ← walk search_path; keep_trace_paths directories

  -- `flat_map(find_trace_paths)`.
  unfoldable pub find_all : List FilePath → Result (List FilePath)
  unfolding find_trace_paths
  find_all [] = ok []
  find_all (search_path ∷ rest) = do
    found ← find_trace_paths search_path
    later ← find_all rest
    ok (found ++ later)

  -- On the left, the error that there is none.
  abbrev pub ensure_some : List FilePath → String ⊎ List FilePath
  ensure_some [] = inl "No traces found in the provided paths."
  ensure_some (path ∷ rest) = inr (path ∷ rest)

  unfoldable pub prepare_trace_paths : Args F → Result (String ⊎ List FilePath)
  unfolding keep_trace_paths find_all
  prepare_trace_paths args = do
    found ←
        (if args.exact_trace_path
          then keep_trace_paths args.trace_paths
          else find_all args.trace_paths)
    ok (ensure_some found)

  -- Each of them is a trace.
  abbrev pub AllTraces : List FilePath → Type 0
  AllTraces [] = Unit {0}
  AllTraces (path ∷ rest) = (is_trace_path path ≡ ok true) × AllTraces rest

  keep_trace_paths-AllTraces : (paths : List FilePath) → Returns AllTraces (keep_trace_paths paths)
  unfolding keep_trace_paths
  keep_trace_paths-AllTraces [] = returns tt
  keep_trace_paths-AllTraces (path ∷ rest) = bind-Returns (is_trace_path path) (λ is_trace e.
      >>=-Returns (keep_trace_paths-AllTraces rest)
        (λ later all. returns (kept path is_trace later e all)))
    where
      kept :
          (path : FilePath) (is_trace : Bool) (later : List FilePath)
          → is_trace_path path ≡ ok is_trace
          → AllTraces later
          → AllTraces (if is_trace then path ∷ later else later)
      kept path true later e all = (e, all)
      kept path false later e all = all

  append-AllTraces : (xs ys : List FilePath) → AllTraces xs → AllTraces ys → AllTraces (xs ++ ys)
  append-AllTraces [] ys p q = q
  append-AllTraces (x ∷ xs) ys p q = (p.0, append-AllTraces xs ys p.1 q)

  find_all-AllTraces : (paths : List FilePath) → Returns AllTraces (find_all paths)
  unfolding find_all
  find_all-AllTraces [] = returns tt
  find_all-AllTraces (path ∷ rest) =
      >>=-Returns
        (bind-Returns (walk path) (λ directories e. keep_trace_paths-AllTraces directories))
        (λ found p.
          >>=-Returns (find_all-AllTraces rest)
            (λ later q. returns (append-AllTraces found later p q)))

  -- Some traces, each of which is one, or the error.
  abbrev pub Prepared : String ⊎ List FilePath → Type 0
  Prepared (inl error) = Unit {0}
  Prepared (inr []) = ⊥
  Prepared (inr (path ∷ rest)) = AllTraces (path ∷ rest)

  ensure_some-Prepared : (found : List FilePath) → AllTraces found → Prepared (ensure_some found)
  ensure_some-Prepared [] all = tt
  ensure_some-Prepared (path ∷ rest) all = all

  -- When the paths of the traces are prepared without an error, there is at least one, and each of them is a trace,
  -- whether they were named exactly or searched for.
  pub prepare_trace_paths-Prepared :
      (args : Args F) (r : String ⊎ List FilePath) → prepare_trace_paths args ≡ ok r → Prepared r
  unfolding prepare_trace_paths
  prepare_trace_paths-Prepared args r e = of_Returns (prepared args.exact_trace_path) e
    where
      prepared :
          (exact : Bool)
          → Returns Prepared (
              (if exact then keep_trace_paths args.trace_paths else find_all args.trace_paths)
              >>= λ found. ok (ensure_some found))
      prepared true =
          >>=-Returns (keep_trace_paths-AllTraces args.trace_paths)
            (λ f p. returns (ensure_some-Prepared f p))
      prepared false =
          >>=-Returns (find_all-AllTraces args.trace_paths)
            (λ f p. returns (ensure_some-Prepared f p))
