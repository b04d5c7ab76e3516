-- ===== src/Prelude/Results.antt =====
-- A predicate on what a computation returns, where it returns.
use mathlib.Core.Bool.{Bool, true, false}
use mathlib.Core.Option
use mathlib.Core.Path.{◌≡◌, subst}
use mathlib.Core.Option.{Option, none, some}
use cl_os.Prelude.Literal.{◌>>=◌}
use cl_os.Prelude.Tests.{if◌then◌else◌}

pub data Holds {A : Type 0} (P : A → Type 0) : Option A → Type 0 where
  no_result : Holds P none
  has_result : {a : A} → P a → Holds P (some a)

pub if-Holds :
    {A : Type 0} {P : A → Type 0} (b : Bool) {x y : Option A}
    → Holds P x
    → Holds P y
    → Holds P (if b then x else y)
if-Holds true h k = h
if-Holds false h k = k

pub map-Holds :
    {A B : Type 0} {P : B → Type 0} {Q : A → Type 0} (f : A → B) {o : Option A}
    → Holds Q o
    → ((a : A) → Q a → P (f a))
    → Holds P (Option.map f o)
map-Holds f no_result k = no_result
map-Holds f (has_result {a} h) k = has_result (k a h)

pub elim-Holds :
    {A B : Type 0} {P : B → Type 0} {Q : A → Type 0} (f : A → Option B) {o : Option A}
    → Holds Q o
    → ((a : A) → Q a → Holds P (f a))
    → Holds P (elim o [ none ↦ none | some a ↦ f a ])
elim-Holds f no_result k = no_result
elim-Holds f (has_result {a} h) k = k a h

pub bind-Holds :
    {A B : Type 0} {P : B → Type 0} {Q : A → Type 0} (f : A → Option B) {o : Option A}
    → Holds Q o
    → ((a : A) → Q a → Holds P (f a))
    → Holds P (o >>= f)
bind-Holds f no_result k = no_result
bind-Holds f (has_result {a} h) k = k a h

-- What holds of a result.
pub Holds-some : {A : Type 0} {P : A → Type 0} {o : Option A} {a : A} → Holds P o → o ≡ some a → P a
Holds-some {P = P} h e = of_some (subst (Holds P) e h)
  where
    of_some : {a : _} → Holds P (some a) → P a
    of_some (has_result p) = p
