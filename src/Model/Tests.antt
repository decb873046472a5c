-- ===== src/Model/Tests.antt =====
-- The types of src/model/mod.rs on small inputs.
use ros2trace_analyzer.Common.{ℕ, ◌≡◌, refl, List, [], ◌∷◌, ok}
use ros2trace_analyzer.Model.Subscriber
use ros2trace_analyzer.Model.Subscriber.Queue.{receive_all, receive_all-latest}

receive_all-latest_example :
    receive_all (1 ∷ 2 ∷ 3 ∷ 4 ∷ 5 ∷ 6 ∷ 7 ∷ 8 ∷ 9 ∷ 10 ∷ 11 ∷ 12 ∷ 13 ∷ []) Subscriber.default
    ≡ ok (record Subscriber.default {
      taken_message = 3 ∷ 4 ∷ 5 ∷ 6 ∷ 7 ∷ 8 ∷ 9 ∷ 10 ∷ 11 ∷ 12 ∷ 13 ∷ [];
    })
receive_all-latest_example =
    receive_all-latest (1 ∷ 2 ∷ 3 ∷ 4 ∷ 5 ∷ 6 ∷ 7 ∷ 8 ∷ 9 ∷ 10 ∷ 11 ∷ 12 ∷ 13 ∷ [])
      Subscriber.default refl refl

abbrev bytes_a : List ℕ
bytes_a = 1 ∷ 2 ∷ []

abbrev bytes_b : List ℕ
bytes_b = 1 ∷ 3 ∷ []
