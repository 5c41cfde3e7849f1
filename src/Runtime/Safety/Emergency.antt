-- ===== src/Runtime/Safety/Emergency.antt =====
-- The emergency stop of sovereign-runtime/src/safety.rs as a state machine.
use sovereign_stack.Base.{◌≡◌, refl, false, arith}
use sovereign_stack.Runtime.Safety.{
  SafetyCommand, SafetySupervisor, SafetyTier, is_clear, emergency_stop, clear_emergency, evaluate,
}

-- What anyone may call; the tier changes otherwise only when an operator assigns it.
pub data Step : SafetySupervisor → SafetySupervisor → Type 0 where
  stop : (s : SafetySupervisor) → Step s (emergency_stop s)
  release : (s : SafetySupervisor) → Step s (clear_emergency s)

pub data Reach (s : SafetySupervisor) : SafetySupervisor → Type 0 where
  here : Reach s s
  next : {t u : SafetySupervisor} → Reach s t → Step t u → Reach s u

Step-emergency :
    {s t : SafetySupervisor}
    → Step s t
    → s.tier ≡ SafetyTier.emergency
    → t.tier ≡ SafetyTier.emergency
unfolding emergency_stop clear_emergency
Step-emergency (stop s) h = refl
Step-emergency (release s) h = h

Reach-emergency :
    {s t : SafetySupervisor}
    → s.tier ≡ SafetyTier.emergency
    → Reach s t
    → t.tier ≡ SafetyTier.emergency
Reach-emergency h here = h
Reach-emergency h (next r st) = Step-emergency st (Reach-emergency h r)

halted :
    (s : SafetySupervisor) (cmd : SafetyCommand)
    → s.tier ≡ SafetyTier.emergency
    → is_clear (evaluate s cmd) ≡ false
unfolding evaluate is_clear
halted s cmd h = ground arith

-- After an emergency stop no sequence of stops and clears lets a command pass: clearing alone never
-- restores motion.
pub stopped_stays :
    (s : SafetySupervisor) {t : SafetySupervisor} (cmd : SafetyCommand)
    → Reach (emergency_stop s) t
    → is_clear (evaluate t cmd) ≡ false
unfolding emergency_stop
stopped_stays s {t} cmd r = halted t cmd (Reach-emergency {s = emergency_stop s} refl r)
