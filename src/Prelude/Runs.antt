-- ===== src/Prelude/Runs.antt =====
-- Commands on a state, which return, fail an assertion, or use up the rounds that their loops have.
use mathlib.Core.Bool.{Bool, true, false}

pub data Run (S A : Type 0) : Type 0 where
  ok : A → S → Run S A
  panics running : Run S A

abbrev pub Cmd : Type 0 → Type 0 → Type 0
Cmd S A = S → Run S A

abbrev pub and_then : {S A B : Type 0} → Run S A → (A → Cmd S B) → Run S B
and_then (ok a m) f = f a m
and_then panics f = panics
and_then running f = running

infixl 5 ◌>>=◌ ◌>>◌
abbrev pub ◌>>=◌ : {S A B : Type 0} → Cmd S A → (A → Cmd S B) → Cmd S B
◌>>=◌ c f m = and_then (c m) f

abbrev pub ◌>>◌ : {S B : Type 0} → Cmd S (Unit {0}) → Cmd S B → Cmd S B
c >> d = c >>= λ _. d

abbrev pub pure : {S A : Type 0} → A → Cmd S A
pure a m = ok a m

abbrev pub assert : {S : Type 0} → Bool → Cmd S (Unit {0})
assert true m = ok tt m
assert false m = panics
