-- ===== src/Common/Act.antt =====
-- Methods that change an object and may raise: functions of its state to a result and the state after.
use mathlib.Core.Bool.{Bool, true, false}
use mathlib.Core.Option.{Option, none, some}
use container_service_extens.Common.Raise.{Result, ok, err}

abbrev pub pure : {S E A : Type 0} → A → S → Result E A × S
pure a s = (ok a, s)

abbrev pub raise : {S E A : Type 0} → E → S → Result E A × S
raise e s = (err e, s)

abbrev pub continue :
    {S E A B : Type 0} → Result E A × S → (A → S → Result E B × S) → Result E B × S
continue (ok a, s) k = k a s
continue (err e, s) k = (err e, s)

infixl 5 ◌>>=◌ ◌>>◌
abbrev pub ◌>>=◌ :
    {S E A B : Type 0} → (S → Result E A × S) → (A → S → Result E B × S) → S → Result E B × S
◌>>=◌ act k s = continue (act s) k

abbrev pub ◌>>◌ :
    {S E B : Type 0} → (S → Result E (Unit {0}) × S) → (S → Result E B × S) → S → Result E B × S
◌>>◌ act next s = continue (act s) λ _. next

-- `if not test: raise e`
abbrev pub check : {S E : Type 0} → Bool → E → S → Result E (Unit {0}) × S
check true e s = (ok tt, s)
check false e s = (err e, s)

abbrev pub when :
    {S E : Type 0} → Bool → (S → Result E (Unit {0}) × S) → S → Result E (Unit {0}) × S
when true act s = act s
when false act s = (ok tt, s)

abbrev pub from_option : {S E A : Type 0} → Option A → E → S → Result E A × S
from_option none e s = (err e, s)
from_option (some a) e s = (ok a, s)

abbrev pub modify : {S E : Type 0} → (S → S) → S → Result E (Unit {0}) × S
modify f s = (ok tt, f s)
