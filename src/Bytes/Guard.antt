-- ===== src/Bytes/Guard.antt =====
-- The shape that every parse function of the repository has: a test of the span's size, and reads
-- that the test makes safe.
use sketch_sync.Prelude.{
  ℕ, ◌≡◌, ◌≤◌, inl, inr, Option, some, [], ◌++◌, append-nil, String, ltb, if◌then◌else◌, length,
  length-append, arith, Bool-cases, le→ltb, ltb→le,
}
use sketch_sync.Results.{Result, Error, fail, text}
use sketch_sync.Bytes.{Bytes, Action, parse}
use sketch_sync.Bytes.Read.{Finds, Ready, parse-Finds, parse-Ready}

-- if (data.size() < n) return {.value = d, .err = error::malformed, .message = msg};
abbrev pub parse_at_least :
    {A : Type 0} → ℕ → A → String → Action (Result A) → Bytes → Option (Result A)
parse_at_least n d msg m bs =
    if ltb (length bs) n then some (fail d Error.malformed (text msg)) else parse bs m

module _ {A : Type 0} (n : ℕ) (d : A) (msg : String) (m : Action (Result A)) where
  pub at_least-Finds :
      (bs rest : Bytes) {r : Result A}
      → n ≤ length bs
      → Finds m bs r
      → parse_at_least n d msg m (bs ++ rest) ≡ some r
  at_least-Finds bs rest {r} h f =
      rw (le→ltb (length (bs ++ rest)) n (omega (arith, length-append {0} bs rest)))
        (parse-Finds m bs rest r f)

  pub at_least-whole :
      (bs : Bytes) {r : Result A}
      → n ≤ length bs
      → Finds m bs r
      → parse_at_least n d msg m bs ≡ some r
  at_least-whole bs h f = rw append-nil at (at_least-Finds bs [] h f)

  pub at_least-total :
      (bs : Bytes)
      → (n ≤ length bs → Ready m 0 (length bs))
      → (r : Result A) × (parse_at_least n d msg m bs ≡ some r)
  at_least-total bs h = elim (Bool-cases (ltb (length bs) n)) [
    | inl e ↦ (fail d Error.malformed (text msg), rw e)
    | inr e ↦ rw e (parse-Ready m bs (h (ltb→le (length bs) n e)))
  ]
