-- ===== src/Analysis/CallbackDuration/Arrivals.antt =====
-- The times between the starts of a callback's executions (`get_inter_arrival_time_inner` of
-- src/analysis/callback_duration.rs).
use ros2trace_analyzer.Common.{
  ℤ, pos, ◌+ℤ◌, ◌-ℤ◌, is_i64, leb_ℤ, +ℤ_-ℤ, -ℤ_+ℤ, leb_ℤ--ℤ, true, List, [], ◌∷◌, map, ok, ◌≡◌, ◌↔◌,
  refl, ap, sym, ◌∙◌, Bool-cases, inl, inr,
}
use ros2trace_analyzer.Model.PublicationMessage.{Time}
use ros2trace_analyzer.Analysis.Returns.{Returns, of_Returns, returns, faults, >>=-Returns}
use ros2trace_analyzer.Analysis.CallbackDuration.{ExecutionData, times_between}

-- The times that are reached from a time, one step after another.
abbrev pub reached : Time → List ℤ → List Time
reached t [] = []
reached t (d ∷ ds) = (t +ℤ d) ∷ reached (t +ℤ d) ds

-- Times that are not negative, and fit into 64 bits.
abbrev pub AreTimes : List ℤ → Type 0
AreTimes [] = Unit {0}
AreTimes (d ∷ ds) = (leb_ℤ (pos 0) d ≡ true) × (is_i64 d ≡ true) × AreTimes ds

abbrev pub starts : List ExecutionData → List Time
starts rest = map (λ e. e.start_time) rest

times_between-Returns :
    (first : ExecutionData) (rest : List ExecutionData)
    → Returns
        (λ ds. (reached first.start_time ds ≡ starts rest) × AreTimes ds)
        (times_between first rest)
unfolding times_between
times_between-Returns first [] = returns (refl, tt)
times_between-Returns first (second ∷ rest) =
    elim (Bool-cases (leb_ℤ first.start_time second.start_time)) [
      | inl ordered ↦ elim (Bool-cases (is_i64 (second.start_time -ℤ first.start_time))) [
        | inl fits ↦
            rw (ordered, fits)
              (>>=-Returns (times_between-Returns second rest) (λ ds p. returns (
                rw (+ℤ_-ℤ first.start_time second.start_time, p.0) refl,
                (leb_ℤ--ℤ first.start_time second.start_time ∙ ordered, fits, p.1),
              )))
        | inr overflow ↦ rw (ordered, overflow) faults
      ]
      | inr unordered ↦ rw unordered faults
    ]

head_or : ℤ → List ℤ → ℤ
head_or d [] = d
head_or d (x ∷ xs) = x

tail : List ℤ → List ℤ
tail [] = []
tail (x ∷ xs) = xs

enough :
    (first : ExecutionData) (rest : List ExecutionData) (ds : List ℤ)
    → reached first.start_time ds ≡ starts rest
    → AreTimes ds
    → times_between first rest ≡ ok ds
unfolding times_between head_or tail
enough first [] [] e all = refl
enough first [] (d ∷ ds) e all = absurd (cc e)
enough first (second ∷ rest) [] e all = absurd (cc e)
enough first (second ∷ rest) (d ∷ ds) e (positive, fits, all) =
    let second_start : first.start_time +ℤ d ≡ second.start_time = ap (head_or d) e in
    let time : second.start_time -ℤ first.start_time ≡ d =
      rw (sym second_start) (-ℤ_+ℤ first.start_time d) in
    let later : reached second.start_time ds ≡ starts rest = rw (sym second_start) (ap tail e) in
    let ordered : leb_ℤ first.start_time second.start_time ≡ true =
      sym (leb_ℤ--ℤ first.start_time second.start_time) ∙ ap (leb_ℤ (pos 0)) time ∙ positive in
    rw (ordered, time, fits, enough second rest ds later all) refl

-- The times between executions are returned exactly where they are not negative, fit into 64 bits, and lead from the
-- first start to each of the others, one after another: an execution that starts before the one before it, or too long
-- after it, lets the calculation panic.
pub times_between-reached :
    (first : ExecutionData) (rest : List ExecutionData) (ds : List ℤ)
    → (times_between first rest ≡ ok ds) ↔ (reached first.start_time ds ≡ starts rest) × AreTimes ds
times_between-reached first rest ds =
    ((λ e. of_Returns (times_between-Returns first rest) e), λ h. enough first rest ds h.0 h.1)
