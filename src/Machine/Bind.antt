-- ===== src/Machine/Bind.antt =====
-- Laws of `>>=` on outcomes.
use f_ca.Base.{◌≡◌, refl}
use f_ca.Machine.{
  Machine, Outcome, next, fails, fault, ◌>>=◌, IsValid, Leaves, at_next, at_fail, at_fault,
}

pub bind_congr :
    (o : Outcome) {k k' : Machine → Outcome} → ((m : Machine) → k m ≡ k' m) → (o >>= k) ≡ (o >>= k')
bind_congr (next m) h = h m
bind_congr (fails m) h = refl
bind_congr fault h = refl

-- Rewriting the rest of a run at the machines that the first part can leave.
pub bind_valid :
    {o : Outcome} {k k' : Machine → Outcome}
    → Leaves IsValid o
    → ((m : Machine) → IsValid m → k m ≡ k' m)
    → (o >>= k) ≡ (o >>= k')
bind_valid (at_next {m} v) h = h m v
bind_valid (at_fail v) h = refl
bind_valid at_fault h = refl

pub bind_assoc :
    (o : Outcome) (k k' : Machine → Outcome) → (o >>= k >>= k') ≡ (o >>= λ m. k m >>= k')
bind_assoc (next m) k k' = refl
bind_assoc (fails m) k k' = refl
bind_assoc fault k k' = refl
