-- ===== src/Prelude/Result.antt =====
-- Outcomes of Go functions that return `(value, error)`: the value, or the text of the error.
use mathlib.Core.Path.{◌≡◌, refl}
use mathlib.Core.Option.{Option, none, some}
use mathlib.Core.Bool.{Bool, true, false}
use run_pilot.Prelude.Tests.{if◌then◌else◌}
use run_pilot.Prelude.Bytes.{Bytes}

pub data Result {ℓ} (A : Type ℓ) : Type ℓ where
  ok : A → Result A
  err : Bytes → Result A

-- The error that a call returned beside its value, if any.
abbrev pub error_of {ℓ} : {A : Type ℓ} → Result A → Option Bytes
error_of (ok a) = none
error_of (err e) = some e

abbrev pub and_then {ℓ κ} : {A : Type ℓ} {B : Type κ} → Result A → (A → Result B) → Result B
and_then (ok a) f = f a
and_then (err e) f = err e

-- The guard of an early return.
abbrev pub checked {ℓ} : {A : Type ℓ} → Option Bytes → Result A → Result A
checked none r = r
checked (some e) r = err e

pub checked-eq-ok {ℓ} :
    {A : Type ℓ} (o : Option Bytes) (r : Result A) {a : A}
    → checked o r ≡ ok a
    → (o ≡ none) × (r ≡ ok a)
checked-eq-ok none r h = (refl, h)
checked-eq-ok (some e) r h = cc

pub and_then-eq-ok {ℓ κ} :
    {A : Type ℓ} {B : Type κ} (r : Result A) (f : A → Result B) {b : B}
    → and_then r f ≡ ok b
    → (a : A) × (r ≡ ok a) × (f a ≡ ok b)
and_then-eq-ok (ok a) f h = (a, refl, h)
and_then-eq-ok (err e) f h = cc

pub ok-inj {ℓ} : {A : Type ℓ} {a b : A} → ok a ≡ ok b → a ≡ b
ok-inj e = cc

pub unless-eq-ok {ℓ} :
    {A : Type ℓ} (b : Bool) (e : Bytes) (r : Result A) {a : A}
    → (if b then err e else r) ≡ ok a
    → (b ≡ false) × (r ≡ ok a)
unless-eq-ok true e r h = cc
unless-eq-ok false e r h = (refl, h)

-- An early return of an error that was not taken.
pub if-eq-none {ℓ} :
    {A : Type ℓ} (b : Bool) (e : A) (o : Option A)
    → (if b then some e else o) ≡ none
    → (b ≡ false) × (o ≡ none)
if-eq-none true e o h = cc
if-eq-none false e o h = (refl, h)
