-- ===== src/TrackManager/Reachable.antt =====
-- What a TrackManager comes to, by any sequence of its methods.
use moq_web.Base.{List, [], ◌∷◌}
use moq_web.TrackManager.{TrackManager}
use moq_web.TrackManager
use moq_web.TrackManager.Announced
use moq_web.TrackManager.Consistent.{
  Call, create_published_track, remove_published_track, record_published_object, add_subscriber,
  remove_subscriber, create_subscription, set_subscription_active, set_subscription_error,
  set_subscription_ended, remove_subscription, record_received_object, create_announcement,
  remove_announcement, move_announcement, on, unsubscribe, clear, step, run, IsConsistent,
}
use moq_web.TrackManager.Kept.{
  create_published_track-IsConsistent, create_subscription-IsConsistent,
  create_announcement-IsConsistent,
}
use moq_web.TrackManager.Changed.{
  remove_published_track-IsConsistent, record_published_object-IsConsistent,
  add_subscriber-IsConsistent, remove_subscriber-IsConsistent, set_subscription_active-IsConsistent,
  set_subscription_error-IsConsistent, set_subscription_ended-IsConsistent,
  remove_subscription-IsConsistent, record_received_object-IsConsistent,
}

step-IsConsistent : (call : Call) (s : TrackManager) → IsConsistent s → IsConsistent (step call s)
unfolding step Announced.remove_announcement Announced.move_announcement TrackManager.on
    TrackManager.unsubscribe TrackManager.clear
step-IsConsistent (create_published_track config now) s h =
    create_published_track-IsConsistent config now s h
step-IsConsistent (remove_published_track key) s h = remove_published_track-IsConsistent key s h
step-IsConsistent (record_published_object key is_keyframe) s h =
    record_published_object-IsConsistent key is_keyframe s h
step-IsConsistent (add_subscriber key id) s h = add_subscriber-IsConsistent key id s h
step-IsConsistent (remove_subscriber key id) s h = remove_subscriber-IsConsistent key id s h
step-IsConsistent (create_subscription config now) s h =
    create_subscription-IsConsistent config now s h
step-IsConsistent (set_subscription_active id alias group_order now) s h =
    set_subscription_active-IsConsistent id alias group_order now s h
step-IsConsistent (set_subscription_error id error_code reason) s h =
    set_subscription_error-IsConsistent id error_code reason s h
step-IsConsistent (set_subscription_ended id reason) s h =
    set_subscription_ended-IsConsistent id reason s h
step-IsConsistent (remove_subscription key) s h = remove_subscription-IsConsistent key s h
step-IsConsistent (record_received_object id group object) s h =
    record_received_object-IsConsistent id group object s h
step-IsConsistent (create_announcement namespace) s h =
    create_announcement-IsConsistent namespace s h
step-IsConsistent (remove_announcement namespace) s h = record {
  published_paired = h.published_paired;
  subscribed_paired = h.subscribed_paired;
}
step-IsConsistent (move_announcement ref method) s h = record {
  published_paired = h.published_paired;
  subscribed_paired = h.subscribed_paired;
}
step-IsConsistent (on handler) s h = record {
  published_paired = h.published_paired;
  subscribed_paired = h.subscribed_paired;
}
step-IsConsistent (unsubscribe handler) s h = record {
  published_paired = h.published_paired;
  subscribed_paired = h.subscribed_paired;
}
step-IsConsistent clear s h = record {
  published_paired = record { keyed = tt; numbered = tt };
  subscribed_paired = record { keyed = tt; numbered = tt };
}

-- Whatever the calls of its methods, on a TrackManager whose maps are in step, they stay so: each entry
-- of a published track, by key or by alias, leads to a track with that key or alias, to which the other
-- map leads too, and so does each entry of a subscription by key or by ID; the aliases and IDs in use are
-- below the next one to be given.
pub run-IsConsistent :
    (calls : List Call) (s : TrackManager) → IsConsistent s → IsConsistent (run calls s)
unfolding run
run-IsConsistent [] s h = h
run-IsConsistent (call ∷ calls) s h =
    run-IsConsistent calls (step call s) (step-IsConsistent call s h)
