-- ===== src/Analysis/MessageLatency/Totals.antt =====
-- Every message that src/analysis/message_latency.rs accounts for has one latency.
use ros2trace_analyzer.Common.{
  ℕ, ◌+◌, ℤ, Ref, List, [], ◌∷◌, Option, none, some, ok, ◌≡◌, refl, arith,
}
use ros2trace_analyzer.Utils.Known.{into_option}
use ros2trace_analyzer.Model.SubscriptionMessage.{SubscriptionMessage}
use ros2trace_analyzer.Processor.State.{World, Heap}
use ros2trace_analyzer.Analysis.Base.{lock, expect}
use ros2trace_analyzer.Analysis.Returns.{
  Returns, weaken-Returns, returns, bind-Returns, then-Returns, >>=-Returns, of_Returns,
}
use ros2trace_analyzer.Analysis.Table.{Table}
use ros2trace_analyzer.Analysis.Table.Laws.{total, total-push}
use ros2trace_analyzer.Analysis.MessageLatency.{
  MessageLatency, SubPubKey, record_latency, calculate_latency_and_get_publisher, account,
  account_all, remove_remaining_messages,
}

abbrev one_if_known : Option Ref → ℕ
one_if_known none = 0
one_if_known (some r) = 1

abbrev has_subscriber : Option SubscriptionMessage → ℕ
has_subscriber none = 0
has_subscriber (some m) = one_if_known (into_option m.subscriber)

-- How many of the messages have a known subscriber.
unfoldable pub with_subscriber : World → List Ref → ℕ
with_subscriber w [] = 0
with_subscriber w (m ∷ ms) = has_subscriber (w.subscriptions.cell m) + with_subscriber w ms

record_latency-total :
    (subscriber : Option Ref) (sent : Option ℤ × Option Ref) (t : Table SubPubKey (List ℤ))
    → Returns
        (λ t'. total t' ≡ total t + one_if_known subscriber)
        (record_latency subscriber sent t)
unfolding record_latency
record_latency-total none sent t = returns (omega arith)
record_latency-total (some r) sent t =
    then-Returns (expect sent.0) (λ l. returns (omega (arith, total-push (r, sent.1) l t)))

lock-cell : {A : Type 0} (h : Heap A) (r : Ref) {a : A} → lock h r ≡ ok a → h.cell r ≡ some a
lock-cell h r e = ground arith

account-total :
    (w : World) (message : Ref) (t : Table SubPubKey (List ℤ))
    → Returns
        (λ t'. total t' ≡ total t + has_subscriber (w.subscriptions.cell message))
        (account w message t)
unfolding account
account-total w message t = bind-Returns (lock w.subscriptions message) (λ m e.
    then-Returns (calculate_latency_and_get_publisher w m) (λ sent.
      rw (lock-cell w.subscriptions message e)
        (record_latency-total (into_option m.subscriber) sent t)))

account_all-total :
    (w : World) (messages : List Ref) (t : Table SubPubKey (List ℤ))
    → Returns (λ t'. total t' ≡ total t + with_subscriber w messages) (account_all w messages t)
unfolding account_all with_subscriber
account_all-total w [] t = returns (omega arith)
account_all-total w (m ∷ ms) t =
    >>=-Returns (account-total w m t)
      (λ t' p. weaken-Returns (account_all-total w ms t') (λ t'' q. omega (arith, p, q)))

-- When remove_remaining_messages returns, no message is left, and the latencies are as many more as messages with a
-- subscriber were left.
pub remove_remaining_messages-total :
    (w : World) (s s' : MessageLatency)
    → remove_remaining_messages w s ≡ ok s'
    → (s'.messages ≡ []) × (total s'.latencies ≡ total s.latencies + with_subscriber w s.messages)
unfolding remove_remaining_messages
remove_remaining_messages-total w s s' e =
    of_Returns
      {P = λ (x : MessageLatency).
        (x.messages ≡ []) × (total x.latencies ≡ total s.latencies + with_subscriber w s.messages)}
      (>>=-Returns (account_all-total w s.messages s.latencies) (λ t p. returns (refl, p))) e
