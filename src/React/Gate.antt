-- ===== src/React/Gate.antt =====
-- runtime/engine/infra/pause_gate.go: the gate that pauses a group of workers.
use kugelblitz.Common.{
  ℕ, zero, suc, ◌-◌, ◌+◌, ◌≤◌, Bool, true, not, List, [], ◌∷◌, if◌then◌else◌, ◌≡◌, refl, ◌∙◌, sym,
  ap, subst, ◌↔◌, arith,
}
use kugelblitz.Tools.Arguments.{ℤ, pos, negsuc, ltz}

-- PauseGate: the int `paused`.
abbrev pub PauseGate : Type 0
PauseGate = ℤ

abbrev pub new_pause_gate : PauseGate
new_pause_gate = pos 0

pub data GateCall : Type 0 where
  pause resume : GateCall

-- `g.paused++` and `g.paused--`
abbrev pub increment : PauseGate → PauseGate
increment (pos n) = pos (suc n)
increment (negsuc zero) = pos 0
increment (negsuc (suc n)) = negsuc n

abbrev pub decrement : PauseGate → PauseGate
decrement (pos zero) = negsuc 0
decrement (pos (suc n)) = pos n
decrement (negsuc n) = negsuc (suc n)

-- Pause and Resume; each is one critical section.
unfoldable pub gate_call : GateCall → PauseGate → PauseGate
gate_call pause g = increment g
gate_call resume g = if ltz (pos 0) g then decrement g else g

-- WaitIfPaused goes on.
abbrev pub is_open : PauseGate → Bool
is_open g = not (ltz (pos 0) g)

unfoldable pub gate_calls : List GateCall → PauseGate → PauseGate
unfolding gate_call
gate_calls [] g = g
gate_calls (c ∷ cs) g = gate_calls cs (gate_call c g)

-- `n` calls of Pause, and of Resume.
unfoldable pub pause_all : ℕ → List GateCall
pause_all zero = []
pause_all (suc n) = pause ∷ pause_all n

unfoldable pub resume_all : ℕ → List GateCall
resume_all zero = []
resume_all (suc n) = resume ∷ resume_all n

-- Resume on a gate with a count that is not negative.
resume_lem : (n : ℕ) → gate_call resume (pos n) ≡ pos (n - 1)
unfolding gate_call
resume_lem zero = refl
resume_lem (suc n) = ground arith

count_kept : (cs : List GateCall) (n : ℕ) → (m : ℕ) × (gate_calls cs (pos n) ≡ pos m)
unfolding gate_calls gate_call
count_kept [] n = (n, refl)
count_kept (pause ∷ cs) n = count_kept cs (suc n)
count_kept (resume ∷ cs) n =
    let (m, e) = count_kept cs (n - 1) in (m, ap (gate_calls cs) (resume_lem n) ∙ e)

pause_all_lem : (k n : ℕ) → gate_calls (pause_all k) (pos n) ≡ pos (n + k)
unfolding gate_calls gate_call pause_all
pause_all_lem zero n = ap pos (omega arith)
pause_all_lem (suc k) n = pause_all_lem k (suc n) ∙ ap pos (omega arith)

resume_all_lem : (k n : ℕ) → gate_calls (resume_all k) (pos n) ≡ pos (n - k)
unfolding gate_calls resume_all
resume_all_lem zero n = ap pos (omega arith)
resume_all_lem (suc k) n =
    ap (gate_calls (resume_all k)) (resume_lem n) ∙ resume_all_lem k (n - 1) ∙ ap pos (omega arith)

open_zero : (n : ℕ) → is_open (pos n) ≡ true → n ≡ 0
open_zero n h = ground (arith, h)

open_iff : (n k : ℕ) → (is_open (pos (n - k)) ≡ true) ↔ (n ≤ k)
open_iff n k = (λ h. ground (arith, h), λ h. ground (arith, h))

-- Whenever a gate is open, after any calls of Pause and Resume on a new gate in any order, spare calls
-- of Resume count for nothing: after any number of them and n calls of Pause the gate is open again
-- after k further calls of Resume exactly if n is at most k.
pub gate_calls-is_open :
    (cs : List GateCall) (spare n k : ℕ)
    → is_open (gate_calls cs new_pause_gate) ≡ true
    → (is_open (
          gate_calls (resume_all k) (
            gate_calls
              (pause_all n)
              (gate_calls (resume_all spare) (gate_calls cs new_pause_gate))))
        ≡ true)
      ↔ (n ≤ k)
gate_calls-is_open cs spare n k h =
    let (m, e) = count_kept cs 0 in
    let m_zero = open_zero m (subst (λ g. is_open g ≡ true) e h) in
    let path =
      ap
        (λ g.
          gate_calls (resume_all k) (gate_calls (pause_all n) (gate_calls (resume_all spare) g)))
        e
      ∙ ap (λ g. gate_calls (resume_all k) (gate_calls (pause_all n) g)) (resume_all_lem spare m)
      ∙ ap (gate_calls (resume_all k)) (pause_all_lem n (m - spare))
      ∙ resume_all_lem k (m - spare + n)
      ∙ ap pos (omega (arith, m_zero)) in
    subst (λ g. (is_open g ≡ true) ↔ (n ≤ k)) (sym path) (open_iff n k)
