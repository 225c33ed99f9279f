-- ===== src/WhaleLand/Exec/After.antt =====
-- What holds after a call that has returned a value; of calls that fail nothing is said.
use one_true_pairing.WhaleLand.Error.{Result, ok, err, panic, hang}
use one_true_pairing.WhaleLand.Exec.{Exec, continue}

abbrev pub Holds : {S A : Type 0} → (A → S → Type 0) → Result A × S → Type 0
Holds Q (ok a, s) = Q a s
Holds Q (err e, s) = Unit
Holds Q (panic, s) = Unit
Holds Q (hang, s) = Unit

pub record After {S A : Type 0} (Q : A → S → Type 0) (x : Result A × S) : Type 0 where
  pub holds : Holds Q x

pub After-map :
    {S A : Type 0} {P Q : A → S → Type 0} {x : Result A × S}
    → After P x
    → ((a : A) (s : S) → P a s → Q a s)
    → After Q x
After-map {S} {A} {P} {Q} {x} h f = mapped x h.holds
  where
    mapped : (y : Result A × S) → Holds P y → After Q y
    mapped (ok a, s) h = record { holds = f a s h }
    mapped (err e, s) h = record { holds = tt }
    mapped (panic, s) h = record { holds = tt }
    mapped (hang, s) h = record { holds = tt }

-- A call, and what goes on from its result.
pub After-bind :
    {S A B : Type 0} {P : A → S → Type 0} {Q : B → S → Type 0} {x : Result A × S} {f : A → Exec S B}
    → After P x
    → ((a : A) (s : S) → P a s → After Q (f a s))
    → After Q (continue x.0 f x.1)
After-bind {S} {A} {B} {P} {Q} {x} {f} h g = goes_on x h.holds
  where
    goes_on : (y : Result A × S) → Holds P y → After Q (continue y.0 f y.1)
    goes_on (ok a, s) h = g a s h
    goes_on (err e, s) h = record { holds = tt }
    goes_on (panic, s) h = record { holds = tt }
    goes_on (hang, s) h = record { holds = tt }
