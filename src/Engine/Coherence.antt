-- ===== src/Engine/Coherence.antt =====
-- What holds of the drawing program between two steps: the session manager's state, its client and the
-- network's state belong together.
use sketch_sync.Prelude.{
  ℕ, ◌≡◌, ◌≢◌, refl, sym, ◌∙◌, Bool, true, false, Option, none, some, if◌then◌else◌,
}
use sketch_sync.Client.{Client}
use sketch_sync.Engine.{Manager, Network, Engine, JoiningState, ConnectionState, Attempt}

-- The client acts in the session as the manager says.
abbrev pub Plays : Option Client → Bool → ℕ → Bool → Type 0
Plays none in_session member_id hosting = in_session ≡ false
Plays (some c) in_session member_id hosting =
    in_session ≡ true → (c.host ≡ hosting) × (c.member_id ≡ member_id)

abbrev pub is_some {ℓ} : {A : Type ℓ} → Option A → Bool
is_some none = false
is_some (some a) = true

pub record IsCoherent (m : Manager) (n : Network) (a : Option Attempt) : Type 0 where
  pub not_leaving : m.joining_state ≢ JoiningState.leaving
  pub not_closing : m.joining_state ≢ JoiningState.closing
  pub entered : m.joining_state ≡ JoiningState.in_session → m.in_session ≡ true
  pub plays : Plays m.client m.in_session m.member_id m.hosting
  pub outside : m.in_session ≡ false → (m.hosting ≡ false) × (m.member_id ≡ 0)
  pub online : n.connected ≡ true → n.attached ≡ true → is_some m.client ≡ true
  pub shown : n.state ≡ ConnectionState.connected → n.connected ≡ true
  pub busy : n.connecting ≡ is_some a

abbrev pub Coherent : Engine → Type 0
Coherent e = IsCoherent e.manager e.net e.attempt

pub if-Coherent :
    (b : Bool) (d e : Engine) → Coherent d → Coherent e → Coherent (if b then d else e)
if-Coherent true d e v w = v
if-Coherent false d e v w = w

-- What follows a test.
pub then-Coherent :
    (b : Bool) (f : Engine → Engine) (d e : Engine)
    → Coherent (f d)
    → Coherent (f e)
    → Coherent (f (if b then d else e))
then-Coherent true f d e v w = v
then-Coherent false f d e v w = w

-- The same, with the test known, and a state in which something else is returned too.
pub cond-Coherent :
    (b : Bool) (d e : Engine)
    → (b ≡ true → Coherent d)
    → (b ≡ false → Coherent e)
    → Coherent (if b then d else e)
cond-Coherent true d e v w = v refl
cond-Coherent false d e v w = w refl

pub pair-Coherent {ℓ} :
    {A : Type ℓ} (b : Bool) (p q : A × Engine)
    → (b ≡ true → Coherent p.1)
    → (b ≡ false → Coherent q.1)
    → Coherent (if b then p else q).1
pair-Coherent true p q v w = v refl
pair-Coherent false p q v w = w refl

-- The network's fields that no invariant reads.
pub net-Coherent :
    (e : Engine) (n : Network)
    → Coherent e
    → n.connected ≡ e.net.connected
    → n.attached ≡ e.net.attached
    → n.state ≡ e.net.state
    → n.connecting ≡ e.net.connecting
    → IsCoherent e.manager n e.attempt
net-Coherent e n v connected attached state connecting = record {
  not_leaving = v.not_leaving;
  not_closing = v.not_closing;
  entered = v.entered;
  plays = v.plays;
  outside = v.outside;
  online = λ h k. v.online (sym connected ∙ h) (sym attached ∙ k);
  shown = λ h. connected ∙ v.shown (sym state ∙ h);
  busy = connecting ∙ v.busy;
}

-- A network that is off the line.
pub offline-Coherent :
    (e : Engine) (n : Network)
    → Coherent e
    → n.connected ≡ false
    → n.state ≢ ConnectionState.connected
    → n.connecting ≡ e.net.connecting
    → IsCoherent e.manager n e.attempt
offline-Coherent e n v off dark connecting = record {
  not_leaving = v.not_leaving;
  not_closing = v.not_closing;
  entered = v.entered;
  plays = v.plays;
  outside = v.outside;
  online = λ h k. cc (off, h);
  shown = λ h. absurd (dark h);
  busy = connecting ∙ v.busy;
}
