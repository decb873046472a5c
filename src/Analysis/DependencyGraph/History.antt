-- ===== src/Analysis/DependencyGraph/History.antt =====
-- The data of an edge of src/analysis/dependency_graph.rs as a summary of its uses: a list of the times at
-- which it was activated, each with its latency.
use mathlib.Core.List.{map-append}
use ros2trace_analyzer.Common.{
  suc, ◌+◌, ℤ, ◌-ℤ◌, is_i64, Option, none, some, List, [], ◌∷◌, ◌++◌, map, length, ◌==◌, true, ◌≡◌,
  refl, sym, ap, arith, Result, ok, Bool-cases, inl, inr,
}
use ros2trace_analyzer.Model.PublicationMessage.{Time}
use ros2trace_analyzer.Analysis.Returns.{Returns, returns, faults, >>=-Returns}
use ros2trace_analyzer.Analysis.DependencyGraph.Graph.{EdgeData}
use ros2trace_analyzer.Analysis.DependencyGraph.Uses.{activate, extend}

abbrev pub Use : Type 0
Use = Time × ℤ

abbrev pub times : List Use → List Time
times h = map (λ u. u.0) h

abbrev pub last_from : Time → List Time → Time
last_from t [] = t
last_from t (u ∷ us) = last_from u us

abbrev pub last : List Time → Option Time
last [] = none
last (t ∷ ts) = some (last_from t ts)

-- The times between each time and the next.
abbrev pub delays_from : Time → List Time → List ℤ
delays_from t [] = []
delays_from t (u ∷ us) = (u -ℤ t) ∷ delays_from u us

abbrev pub delays : List Time → List ℤ
delays [] = []
delays (t ∷ ts) = delays_from t ts

-- The data of an edge that was used like this.
abbrev pub summary : List Use → EdgeData
summary h = record {
  activation_delay = delays (times h);
  latencies = map (λ u. u.1) h;
  last_activation = last (times h);
}

length-delays_from : (t : Time) (ts : List Time) → length (delays_from t ts) ≡ length ts
length-delays_from t [] = refl
length-delays_from t (u ∷ us) = ap suc (length-delays_from u us)

length-map : {A B : Type 0} (f : A → B) (xs : List A) → length (map f xs) ≡ length xs
length-map f [] = refl
length-map f (x ∷ xs) = ap suc (length-map f xs)

delays_from-append :
    (t u : Time) (ts : List Time)
    → delays_from t (ts ++ u ∷ []) ≡ delays_from t ts ++ (u -ℤ last_from t ts) ∷ []
delays_from-append t u [] = refl
delays_from-append t u (v ∷ ts) = ap (λ ds. (v -ℤ t) ∷ ds) (delays_from-append v u ts)

last_from-append : (t u : Time) (ts : List Time) → last_from t (ts ++ u ∷ []) ≡ u
last_from-append t u [] = refl
last_from-append t u (v ∷ ts) = last_from-append v u ts

-- The time between the last use and the next fits into an `i64`.
abbrev pub Fits : List Use → Time → Type 0
Fits [] t = Unit {0}
Fits (u ∷ h) t = is_i64 (t -ℤ last_from u.0 (times h)) ≡ true

summary-append :
    (u : Use) (h : List Use) (t : Time) (latency : ℤ)
    → summary (u ∷ h ++ (t, latency) ∷ []) ≡ record {
      activation_delay = delays_from u.0 (times h) ++ (t -ℤ last_from u.0 (times h)) ∷ [];
      latencies = map (λ (v : Use). v.1) (u ∷ h) ++ latency ∷ [];
      last_activation = some t;
    }
summary-append u h t latency = rw (
  map-append (λ (v : Use). v.0) h ((t, latency) ∷ []),
  map-append (λ (v : Use). v.1) h ((t, latency) ∷ []),
  delays_from-append u.0 t (times h),
  last_from-append u.0 t (times h),
)

lengths :
    (u : Use) (h : List Use)
    → (length (summary (u ∷ h)).activation_delay + 1 == length (summary (u ∷ h)).latencies) ≡ true
lengths u h = ground (
  arith,
  length-delays_from u.0 (times h),
  length-map (λ (v : Use). v.0) h,
  length-map (λ (v : Use). v.1) h,
)

-- The assertions hold, and the edge is used once more.
pub extend-summary :
    (h : List Use) (t : Time) (latency : ℤ)
    → Fits h t
    → extend t (ok latency) (summary h) ≡ ok (summary (h ++ (t, latency) ∷ []))
unfolding extend activate
extend-summary [] t latency fit = refl
extend-summary (u ∷ h) t latency fit = rw (lengths u h, fit, summary-append u h t latency)

-- Whatever is known of the latency, what is returned has one more use with such a latency.
pub extend-Returns :
    {Q : ℤ → Type 0} (h : List Use) (t : Time) {latency : Result ℤ}
    → Returns Q latency
    → Returns (λ d. (l : ℤ) × Q l × (d ≡ summary (h ++ (t, l) ∷ []))) (extend t latency (summary h))
unfolding extend activate
extend-Returns [] t p = >>=-Returns p (λ l q. returns (l, q, refl))
extend-Returns (u ∷ h) t p = elim (Bool-cases (is_i64 (t -ℤ last_from u.0 (times h)))) [
  | inl fit ↦
      rw (lengths u h, fit) (>>=-Returns p (λ l q. returns (l, q, sym (summary-append u h t l))))
  | inr overflow ↦ rw (lengths u h, overflow) faults
]
