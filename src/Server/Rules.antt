-- ===== src/Server/Rules.antt =====
-- What a step of the server leaves behind: that it returns, and what holds then.
use sketch_sync.Prelude.{◌≡◌, refl, Bool, true, false, Option, some, none, if◌then◌else◌}
use sketch_sync.Server.State.{Server, Step, pure, ◌>>=◌, lift, gets}

-- The step returns from this state, and its value and the state that it leaves satisfy the predicate.
pub record Runs {ℓ} {A : Type ℓ} (m : Step A) (s : Server) (Q : A → Server → Type 0) : Type ℓ where
  pub value : A
  pub state : Server
  pub returns : m s ≡ some (value, state)
  pub ends : Q value state

module _ {A : Type 0} {B : Type 0} {s : Server} {Q : B → Server → Type 0} where
  pub Runs->>= :
      {m : Step A} {P : A → Server → Type 0} (f : A → Step B)
      → Runs m s P
      → ((a : A) (s' : Server) → P a s' → Runs (f a) s' Q)
      → Runs (m >>= f) s Q
  unfolding ◌>>=◌
  Runs->>= f r k =
      let q = k r.value r.state r.ends in
      record {
        value = q.value;
        state = q.state;
        returns = rw (r.returns, ◌>>=◌) q.returns;
        ends = q.ends;
      }

  pub Runs-lift :
      {o : Option A} {a : A} (f : A → Step B)
      → o ≡ some a
      → Runs (f a) s Q
      → Runs (lift o >>= f) s Q
  unfolding ◌>>=◌
  Runs-lift f e q = record {
    value = q.value;
    state = q.state;
    returns = rw e q.returns;
    ends = q.ends;
  }

  pub Runs-gets : (g : Server → A) (f : A → Step B) → Runs (f (g s)) s Q → Runs (gets g >>= f) s Q
  unfolding ◌>>=◌
  Runs-gets g f q = record { value = q.value; state = q.state; returns = q.returns; ends = q.ends }

module _ {B : Type 0} {s : Server} {Q : B → Server → Type 0} where
  pub Runs-pure : (b : B) → Q b s → Runs (pure b) s Q
  Runs-pure b q = record { value = b; state = s; returns = refl; ends = q }

  pub Runs-if :
      {m n : Step B} (b : Bool)
      → (b ≡ true → Runs m s Q)
      → (b ≡ false → Runs n s Q)
      → Runs (if b then m else n) s Q
  Runs-if true p q = p refl
  Runs-if false p q = q refl

  -- A step whose outcome is known.
  pub Runs-is : {m : Step B} {b : B} {s' : Server} → m s ≡ some (b, s') → Q b s' → Runs m s Q
  Runs-is {b = b} {s' = s'} e q = record { value = b; state = s'; returns = e; ends = q }

  pub Runs-option :
      {A : Type 0} {n : Step B} {f : A → Step B} (o : Option A)
      → (o ≡ none → Runs n s Q)
      → ((a : A) → o ≡ some a → Runs (f a) s Q)
      → Runs (elim o [ none ↦ n | some a ↦ f a ]) s Q
  Runs-option none p q = p refl
  Runs-option (some a) p q = q a refl
