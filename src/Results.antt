-- ===== src/Results.antt =====
-- common/results.h: the error codes and the result that every fallible function returns. A result
-- holds a value, an error and a message at once, and converts to true exactly where the error is
-- `none`, whatever the value is.
use sketch_sync.Prelude.{ℕ, Bool, true, false, List, [], ◌∷◌, String}
use Prim.Native.Char.{code}

pub data Error : Type 0 where
  none resolve_failed connect_failed send_failed receive_failed closed malformed : Error
  handshake_failed accept_failed close_failed shutdown_failed rejected : Error

pub record Result {ℓ} (A : Type ℓ) : Type ℓ where
  pub value : A
  pub err : Error
  pub message : List ℕ

-- explicit operator bool
abbrev pub is_ok {ℓ} : {A : Type ℓ} → Result A → Bool
is_ok r = elim r.err [ Error.none ↦ true | _ ↦ false ]

abbrev pub ok {ℓ} : {A : Type ℓ} → A → Result A
ok a = record { value = a; err = Error.none; message = [] }

abbrev pub fail {ℓ} : {A : Type ℓ} → A → Error → List ℕ → Result A
fail a e m = record { value = a; err = e; message = m }

-- A failed result is passed on with another value.
abbrev pub refail {ℓ κ} : {A : Type ℓ} {B : Type κ} → B → Result A → Result B
refail b r = record { value = b; err = r.err; message = r.message }

-- The bytes of a string literal.
unfoldable pub text : String → List ℕ
text String.[] = []
text (String.◌∷◌ c s) = code c ∷ text s
