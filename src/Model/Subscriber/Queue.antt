-- ===== src/Model/Subscriber/Queue.antt =====
-- The bounded queue of the messages that a subscriber has taken (`replace_taken_message` of
-- src/model/mod.rs), over a whole sequence of messages.
use mathlib.Core.List.{append-nil, append_assoc}
use ros2trace_analyzer.Common.{
  ℕ, zero, suc, Ref, false, List, [], ◌∷◌, ◌++◌, ◌≡◌, refl, sym, ap, ◌∙◌, ◌-◌, ◌≤◌, ◌<◌, arith,
  length, drop, length-append, length-drop, drop-append, Result, ok, err, fault,
}
use ros2trace_analyzer.Model.Subscriber.{
  Subscriber, pop_front, push_bounded, replace_taken_message, taken_messages_max,
}

-- The messages one after another; a message that is dropped to make room is lost.
unfoldable pub receive_all : List Ref → Subscriber → Result Subscriber
receive_all [] s = ok s
receive_all (m ∷ ms) s = elim (replace_taken_message m s) [
  | ok (s', dropped) ↦ receive_all ms s'
  | err e ↦ err e
  | fault x ↦ fault x
]

-- The last messages of a sequence, as many as the queue holds.
abbrev pub latest : List Ref → List Ref
latest ms = drop (length ms - taken_messages_max) ms

pop_front-drop : (k : ℕ) (xs : List Ref) → (pop_front (drop k xs)).0 ≡ drop (suc k) xs
unfolding pop_front
pop_front-drop zero [] = refl
pop_front-drop zero (x ∷ xs) = refl
pop_front-drop (suc k) [] = refl
pop_front-drop (suc k) (x ∷ xs) = pop_front-drop k xs

-- Where the last messages begin, before and after one more message.
length-snoc : (m : Ref) (ms : List Ref) → length (ms ++ m ∷ []) ≡ suc (length ms)
length-snoc m ms = length-append ms (m ∷ []) ∙ omega arith

latest-begins :
    (m : Ref) (ms : List Ref)
    → latest (ms ++ m ∷ []) ≡ drop (suc (length ms) - taken_messages_max) (ms ++ m ∷ [])
latest-begins m ms = ap (λ n. drop (n - taken_messages_max) (ms ++ m ∷ [])) (length-snoc m ms)

suc-sub : (n k : ℕ) → k ≤ n → suc (n - k) ≡ suc n - k
suc-sub n k h = omega arith

sub-below : (n k : ℕ) → n < k → suc n - k ≡ n - k
sub-below n k h = omega arith

sub-none : (n k : ℕ) → n ≤ k → n - k ≡ 0
sub-none n k h = omega arith

push_bounded-full :
    (m : Ref) (ms : List Ref)
    → taken_messages_max ≤ length ms
    → (pop_front (latest ms)).0 ++ m ∷ [] ≡ latest (ms ++ m ∷ [])
push_bounded-full m ms full =
    ap (λ xs. xs ++ m ∷ []) (pop_front-drop (length ms - taken_messages_max) ms)
    ∙ sym (drop-append (suc (length ms - taken_messages_max)) ms (m ∷ []) (omega arith))
    ∙ ap (λ k. drop k (ms ++ m ∷ [])) (suc-sub (length ms) taken_messages_max full)
    ∙ sym (latest-begins m ms)

push_bounded-room :
    (m : Ref) (ms : List Ref)
    → length ms < taken_messages_max
    → latest ms ++ m ∷ [] ≡ latest (ms ++ m ∷ [])
push_bounded-room m ms room =
    sym (drop-append (length ms - taken_messages_max) ms (m ∷ []) (omega arith))
    ∙ ap (λ k. drop k (ms ++ m ∷ [])) (sym (sub-below (length ms) taken_messages_max room))
    ∙ sym (latest-begins m ms)

latest-all : (ms : List Ref) → length ms ≤ taken_messages_max → latest ms ≡ ms
latest-all ms short = ap (λ n. drop n ms) (sub-none (length ms) taken_messages_max short)

-- One more message behind a queue that holds the latest ones.
push_bounded-latest :
    (m : Ref) (ms : List Ref) → (push_bounded m (latest ms)).0 ≡ latest (ms ++ m ∷ [])
unfolding push_bounded
push_bounded-latest m ms = grind (
  arith,
  push_bounded-full m ms,
  push_bounded-room m ms,
  length-drop (length ms - taken_messages_max) ms,
)

-- One more message behind a queue that is not too long.
pub push_bounded-latest_of :
    (m : Ref) (ms : List Ref)
    → length ms ≤ taken_messages_max
    → (push_bounded m ms).0 ≡ latest (ms ++ m ∷ [])
push_bounded-latest_of m ms short =
    ap (λ xs. (push_bounded m xs).0) (sym (latest-all ms short)) ∙ push_bounded-latest m ms

receive_all-latest_from :
    (ms before : List Ref) (s : Subscriber)
    → s.removed ≡ false
    → s.taken_message ≡ latest before
    → receive_all ms s ≡ ok (record s { taken_message = latest (before ++ ms) })
unfolding receive_all replace_taken_message
receive_all-latest_from [] before s kept held = grind (arith, append-nil before)
receive_all-latest_from (m ∷ ms) before s kept held = grind (
  arith,
  push_bounded-latest m before,
  append_assoc before (m ∷ []) ms,
  receive_all-latest_from ms (before ++ m ∷ [])
      (record s { taken_message = (push_bounded m s.taken_message).0 }),
)

-- Whatever messages a subscriber with an empty queue receives, it accepts them all, and its queue
-- then holds the last eleven of them in the order of their arrival (all of them, if they are fewer).
pub receive_all-latest :
    (ms : List Ref) (s : Subscriber)
    → s.removed ≡ false
    → s.taken_message ≡ []
    → receive_all ms s ≡ ok (record s { taken_message = latest ms })
receive_all-latest ms s kept empty = receive_all-latest_from ms [] s kept empty
