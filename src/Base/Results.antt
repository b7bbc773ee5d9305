-- ===== src/Base/Results.antt =====
-- How a Go call ends: with a value, with a returned error, by a panic, or by `log.Fatal`.
use mathlib.Core.Path.{◌≡◌, refl}
use mathlib.Core.Option.{Option, none, some}

-- The panics that the program can meet.
pub data Panic : Type 0 where
  index_out_of_range type_assertion close_of_closed close_of_nil not_supported could_not_initialize
        bad_configuration :
      Panic

-- `E` is the type of the errors, `fatal` carries the error that is logged before the process exits, and
-- `blocked` is a wait on a channel that is not closed.
pub data Outcome (E A : Type 0) : Type 0 where
  ok : A → Outcome E A
  err : E → Outcome E A
  panic : Panic → Outcome E A
  fatal : E → Outcome E A
  blocked : Outcome E A

infixl 5 ◌>>=◌ ◌>>◌
abbrev pub ◌>>=◌ : {E A B : Type 0} → Outcome E A → (A → Outcome E B) → Outcome E B
ok a >>= f = f a
err e >>= f = err e
panic p >>= f = panic p
fatal e >>= f = fatal e
blocked >>= f = blocked

abbrev pub ◌>>◌ : {E B : Type 0} → Outcome E (Unit {0}) → Outcome E B → Outcome E B
m >> k = m >>= λ _. k

-- The value of an option, or a panic where Go's runtime panics.
abbrev pub or_panic : {E A : Type 0} → Panic → Option A → Outcome E A
or_panic p none = panic p
or_panic p (some a) = ok a

-- `return …, fmt.Errorf(…: %v, err)`: the error of a call wrapped by the caller.
abbrev pub wrap_error : {E F A : Type 0} → (E → F) → Outcome E A → Outcome F A
wrap_error w (ok a) = ok a
wrap_error w (err e) = err (w e)
wrap_error w (panic p) = panic p
wrap_error w (fatal e) = fatal (w e)
wrap_error w blocked = blocked

-- Inversion of a successful bind.
pub >>=-eq-ok :
    {E A B : Type 0} (first : Outcome E A) (next : A → Outcome E B) {last : B}
    → (first >>= next) ≡ ok last
    → (value : A) × (first ≡ ok value) × (next value ≡ ok last)
>>=-eq-ok (ok value) next same = (value, refl, same)
>>=-eq-ok (err _) next same = cc
>>=-eq-ok (panic _) next same = cc
>>=-eq-ok (fatal _) next same = cc
>>=-eq-ok blocked next same = cc

pub wrap_error-ok :
    {E F A : Type 0} (w : E → F) (m : Outcome E A) (a : A) → wrap_error w m ≡ ok a → m ≡ ok a
wrap_error-ok w (ok b) a e = cc
wrap_error-ok w (err x) a e = cc
wrap_error-ok w (panic p) a e = cc
wrap_error-ok w (fatal x) a e = cc
wrap_error-ok w blocked a e = cc

pub or_panic-ok :
    {E A : Type 0} (p : Panic) (m : Option A) (a : A) → or_panic {E = E} p m ≡ ok a → m ≡ some a
or_panic-ok p none a e = cc
or_panic-ok p (some b) a e = cc
