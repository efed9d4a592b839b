-- ===== src/Actuators/Interleaving/Phases.antt =====
-- How far each process is in `actuate` of backend/app/actuators/actuate.py.
use socio_seo_agent.Prelude.{ℕ, ◌≡◌, ◌≢◌, ◌⊎◌, arith, ◌==◌, if◌then◌else◌}
use socio_seo_agent.Actuators.Ledger.{Outcome}
use socio_seo_agent.Actuators.Actuate.{World}

pub data Phase : Type 0 where
  waiting reserved over : Phase
  answered : Outcome → Phase

pub record System : Type 0 where
  pub world : World
  pub phase : ℕ → Phase

unfoldable pub set_phase : (ℕ → Phase) → ℕ → Phase → ℕ → Phase
set_phase phase i p j = if j == i then p else phase j

-- A process that does not reserve leaves the others as they were.
pub still_reserved :
    (phase : ℕ → Phase) (i : ℕ) (p : Phase) (j : ℕ)
    → p ≢ reserved
    → set_phase phase i p j ≡ reserved
    → phase j ≡ reserved
unfolding set_phase
still_reserved phase i p j other h = ground arith

pub own_phase : (phase : ℕ → Phase) (i : ℕ) (p : Phase) (j : ℕ) → i ≡ j → set_phase phase i p j ≡ p
unfolding set_phase
own_phase phase i p j e = ground arith

pub reserved_cases :
    (phase : ℕ → Phase) (i : ℕ) (p : Phase) (j : ℕ)
    → set_phase phase i p j ≡ reserved
    → (i ≡ j) ⊎ (phase j ≡ reserved)
unfolding set_phase
reserved_cases phase i p j h = ground arith
