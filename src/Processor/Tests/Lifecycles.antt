-- ===== src/Processor/Tests/Lifecycles.antt =====
-- Callbacks and spins that start and end.
use ros2trace_analyzer.Common.{◌≡◌, refl, [], ◌∷◌, pos}
use ros2trace_analyzer.Utils.Known.{known}
use ros2trace_analyzer.Processor.Exec.{Shows}
use ros2trace_analyzer.Processor.Callbacks.{process_callback_start}
use ros2trace_analyzer.Processor.Callbacks.Lifecycle.{callback_start-end}
use ros2trace_analyzer.Processor.Callbacks
use ros2trace_analyzer.Processor.Spins
use ros2trace_analyzer.Model.Callback
use ros2trace_analyzer.Model.CallbackInstance.{end_instance, subscription_message}
use ros2trace_analyzer.Model.Node
use ros2trace_analyzer.Model.SpinInstance
use ros2trace_analyzer.Processor.Spins.Lifecycle.{spin_start-end, spin_start-wake}
use ros2trace_analyzer.Processor.Callbacks.Trigger.{IsReady, callback_start-takes_first}
use ros2trace_analyzer.Processor.Tests.Data.{
  steps, after, here, all_alive, with_waiting, with_running, start_event, with_node, with_spin,
  spin_event, listener,
}

callback_start-end_example :
    Shows
      ((after (
          Callbacks.process_callback_end
            (record { callback = 80 })
            (pos 9)
            here
            with_running)).instances.cell
        0)
      (λ instance. (instance.start_time ≡ pos 8) × (instance.end_time ≡ known (pos 9)))
unfolding steps Callbacks.process_callback_end Callback.take_running_instance end_instance
callback_start-end_example =
    (callback_start-end all_alive start_event (record { callback = 80 }) (pos 8) (pos 9) here
      with_waiting {i = 0} {w' = with_running} refl refl).1

spin_start-end_example :
    Shows
      ((after
          (Spins.process_spin_end (record { node_handle = 10 }) (pos 9) here with_spin)).spins.cell
        0)
      (λ spin. (spin.start_time ≡ pos 4) × (spin.end_time ≡ known (pos 9)))
unfolding steps Spins.process_spin_end Spins.inspect_spin Node.take_spin_instance
    SpinInstance.set_end_time
spin_start-end_example =
    (spin_start-end spin_event (record { node_handle = 10 }) (pos 4) (pos 9) here with_node {n = 0}
      {s = 0} {w' = with_spin} refl refl).1

spin_start-wake_example :
    Shows
      ((after
          (Spins.process_spin_wake (record { node_handle = 10 }) (pos 5) here with_spin)).spins.cell
        0)
      (λ spin. (spin.start_time ≡ pos 4) × (spin.wake_time ≡ known (pos 5)))
unfolding steps Spins.process_spin_wake Spins.inspect_spin SpinInstance.set_wake_time
spin_start-wake_example =
    (spin_start-wake spin_event (record { node_handle = 10 }) (record { node_handle = 10 }) (pos 4)
      (pos 5) (pos 6) here with_node {n = 0} {s = 0} {w' = with_spin} refl refl refl).1

waiting-IsReady :
    IsReady all_alive start_event here with_waiting 0 0
      (Callback.new_subscription 80 0 "robot")
      (record listener { taken_message = 3 ∷ [] })
unfolding steps
waiting-IsReady = record {
  found = refl;
  is_callback = refl;
  idle = refl;
  caller = refl;
  reachable = refl;
  is_subscriber = refl;
}

callback_start-takes_first_example :
    Shows (with_running.instances.cell 0) (λ instance. instance.trigger ≡ subscription_message 3)
unfolding steps
callback_start-takes_first_example =
    (callback_start-takes_first all_alive start_event (pos 8) here with_waiting 0 0 _ _ 3 []
      waiting-IsReady refl).0
