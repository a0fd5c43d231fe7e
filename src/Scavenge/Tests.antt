-- ===== src/Scavenge/Tests.antt =====
-- The scavenger at concrete inputs.
use gpupipe.Prelude.{◌≡◌, refl, true, false, none, some, [], ◌∷◌, arith}
use gpupipe.Scavenge.{Slot, late, acked, Poll, poll_slot, poll_all, late_ack, thaw_worker}
use gpupipe.Scavenge.Slots.{
  IsTracked, poll_slot-IsTracked, IsReleased, poll_slot-IsReleased, IsStranded, poll_all-late_ack,
}

abbrev working : Slot
working = record { frozen = false; parked = false; hold = false; park = some 0; frozen_mib = 0 }

-- A foreign process claims the GPU; the worker lets go of all but 900 MiB, which are checkpointed.
abbrev claim : Poll
claim = record {
  is_alive = true;
  foreign = true;
  free_streak = 0;
  used = some 30000;
  fresh = some 900;
  answer = acked 900;
  hazard = false;
  has_checkpoint = true;
  host_available = some 64000;
  gpu_free = none;
  lock_succeeds = true;
  checkpoint_succeeds = true;
  restore_succeeds = true;
  unlock_succeeds = true;
}

abbrev slim : Slot
slim = record { frozen = true; parked = false; hold = true; park = some 2; frozen_mib = 900 }

frozen_slim : poll_slot 5 claim working ≡ slim
unfolding poll_slot
frozen_slim = refl

poll_slot-IsTracked_example : IsTracked (poll_slot 5 claim working)
poll_slot-IsTracked_example =
    poll_slot-IsTracked 5 claim working refl (record { known = λ e. cc; one_state = refl })

abbrev free_again : Poll
free_again = record claim { foreign = false; free_streak = 5; gpu_free = some 40000 }

thaws : thaw_worker free_again 900 ≡ true
unfolding thaw_worker
thaws = refl

poll_slot-IsReleased_example : IsReleased (poll_slot 5 free_again slim)
poll_slot-IsReleased_example =
    poll_slot-IsReleased 5 free_again slim refl refl (omega arith) (λ _. thaws)
      (record { known = λ _. refl; one_state = refl })

-- The worker answers too late, and a hazard forbids the checkpoint.
abbrev too_late : Poll
too_late = record claim { answer = late; hazard = true }

abbrev held : Slot
held = record working { hold = true }

held_only : poll_slot 5 too_late working ≡ held
unfolding poll_slot
held_only = refl

poll_all-late_ack_example : IsStranded (poll_all 5 (free_again ∷ free_again ∷ []) (late_ack held))
poll_all-late_ack_example =
    poll_all-late_ack 5 (free_again ∷ free_again ∷ []) held (refl, (refl, tt)) refl refl
