-- ===== src/Prelude/Returns.antt =====
-- Properties of what a call returns that may not return.
use mathlib.Core.Path.{subst}
use dromajo.Prelude.{◌≡◌, Bool, true, false, Option, none, some, if◌then◌else◌, ◌>>=◌}

-- A property of what a call returns, if it returns.
abbrev pub Holds {ℓ κ} : {A : Type ℓ} → (A → Type κ) → Option A → Type κ
Holds P none = Unit
Holds P (some a) = P a

pub >>=-Holds {ℓ κ μ ν} :
    {A : Type ℓ} {B : Type κ} (P : A → Type μ) (Q : B → Type ν) (m : Option A) (k : A → Option B)
    → Holds P m
    → ((a : A) → P a → Holds Q (k a))
    → Holds Q (m >>= k)
>>=-Holds P Q none k h f = tt
>>=-Holds P Q (some a) k h f = f a h

pub either_Holds {ℓ κ} :
    {A : Type ℓ} (P : A → Type κ) (b : Bool) (x y : Option A)
    → Holds P x
    → Holds P y
    → Holds P (if b then x else y)
either_Holds P true x y h k = h
either_Holds P false x y h k = k

pub Holds-some {ℓ κ} :
    {A : Type ℓ} (P : A → Type κ) (m : Option A) (a : A) → Holds P m → m ≡ some a → P a
Holds-some P none a h e = absurd (cc e)
Holds-some P (some b) a h e = subst (λ (o : Option _). Holds P o) e h

pub Holds-impl {ℓ κ μ} :
    {A : Type ℓ} (P : A → Type κ) (Q : A → Type μ) (m : Option A)
    → ((a : A) → P a → Q a)
    → Holds P m
    → Holds Q m
Holds-impl P Q none f h = tt
Holds-impl P Q (some a) f h = f a h

abbrev pub Anything {ℓ} : {A : Type ℓ} → A → Type 0
Anything a = Unit

pub Holds-Anything {ℓ} : {A : Type ℓ} (m : Option A) → Holds Anything m
Holds-Anything none = tt
Holds-Anything (some a) = tt
