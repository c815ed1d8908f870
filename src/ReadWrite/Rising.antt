-- ===== src/ReadWrite/Rising.antt =====
-- examples/readers_writers.c: what a phase is before and after it is woken.
use comp_arch_project.Base.{◌≡◌, refl, true}
use comp_arch_project.ReadWrite.{
  Phase, tests, wants_in, checks, sleeps, wakes, enters, works, wants_out, signals, leaves, rests,
  finished, woken,
}
use comp_arch_project.ReadWrite.Tally.{pending}
use comp_arch_project.ReadWrite.Asleep.{asleep}
use comp_arch_project.ReadWrite.Invariant.{holds_lock, roused, waking}

-- What a sleeper is before and after it is woken.
pub record Rising (p : Phase) : Type 0 where
  pub same_lock : holds_lock (woken p) ≡ holds_lock p
  pub same_waking : waking (woken p) ≡ waking p
  pub is_roused : asleep p ≡ true → roused (woken p) ≡ 1
  pub is_pending : asleep p ≡ true → pending p ≡ 1

pub woken-Rising : (p : Phase) → Rising p
woken-Rising (tests i) = record {
  same_lock = refl;
  same_waking = refl;
  is_roused = λ h. absurd (cc h);
  is_pending = λ h. absurd (cc h);
}
woken-Rising (wants_in i) = record {
  same_lock = refl;
  same_waking = refl;
  is_roused = λ h. absurd (cc h);
  is_pending = λ h. absurd (cc h);
}
woken-Rising (checks i) = record {
  same_lock = refl;
  same_waking = refl;
  is_roused = λ h. absurd (cc h);
  is_pending = λ h. absurd (cc h);
}
woken-Rising (sleeps i) = record {
  same_lock = refl;
  same_waking = refl;
  is_roused = λ h. refl;
  is_pending = λ h. refl;
}
woken-Rising (wakes i) = record {
  same_lock = refl;
  same_waking = refl;
  is_roused = λ h. absurd (cc h);
  is_pending = λ h. absurd (cc h);
}
woken-Rising (enters i) = record {
  same_lock = refl;
  same_waking = refl;
  is_roused = λ h. absurd (cc h);
  is_pending = λ h. absurd (cc h);
}
woken-Rising (works i) = record {
  same_lock = refl;
  same_waking = refl;
  is_roused = λ h. absurd (cc h);
  is_pending = λ h. absurd (cc h);
}
woken-Rising (wants_out i) = record {
  same_lock = refl;
  same_waking = refl;
  is_roused = λ h. absurd (cc h);
  is_pending = λ h. absurd (cc h);
}
woken-Rising (signals i) = record {
  same_lock = refl;
  same_waking = refl;
  is_roused = λ h. absurd (cc h);
  is_pending = λ h. absurd (cc h);
}
woken-Rising (leaves i) = record {
  same_lock = refl;
  same_waking = refl;
  is_roused = λ h. absurd (cc h);
  is_pending = λ h. absurd (cc h);
}
woken-Rising (rests i) = record {
  same_lock = refl;
  same_waking = refl;
  is_roused = λ h. absurd (cc h);
  is_pending = λ h. absurd (cc h);
}
woken-Rising finished = record {
  same_lock = refl;
  same_waking = refl;
  is_roused = λ h. absurd (cc h);
  is_pending = λ h. absurd (cc h);
}
