-- ===== src/Udp/Discovery.antt =====
-- Discovery as a whole: the search of discover_host against the answer of responder::run_loop.
use sketch_sync.Prelude.{ℕ, ◌≡◌, refl, ◌∙◌, Option, none, some, ◌==◌, ==_refl, if◌then◌else◌}
use mathlib.Core.Option
use sketch_sync.Bytes.{IsU16, IsU32}
use sketch_sync.Udp.{OfferMessage, serialize_discover, answer, accept_offer}
use sketch_sync.Udp.RoundTrip.{
  discover_layout, serialize_discover-layout, parse_discover-layout, offer_layout,
  serialize_offer-layout, parse_offer-layout,
}

-- A request that reaches the responder, and the answer that comes back.
pub ask : (ℕ → Option ℕ) → ℕ → Option (Option ℕ)
ask lookup session_id = Option.bind (serialize_discover session_id) λ request.
    Option.bind (answer lookup request)
      λ reply. elim reply [ none ↦ some none | some packet ↦ accept_offer session_id packet ]

abbrev the_offer : ℕ → ℕ → OfferMessage
the_offer session_id port = record { session_id = session_id; tcp_port = port }

answer-layout :
    (lookup : ℕ → Option ℕ) (session_id : ℕ) (found : Option ℕ)
    → IsU32 session_id
    → lookup session_id ≡ found
    → answer lookup (discover_layout session_id)
      ≡ some (Option.map (λ port. offer_layout (the_offer session_id port)) found)
unfolding answer Option.bind
answer-layout lookup session_id none h e = rw (parse_discover-layout session_id h, Option.bind, e)
answer-layout lookup session_id (some port) h e =
    rw (parse_discover-layout session_id h, e, serialize_offer-layout (the_offer session_id port))

-- A searching client takes the port of an offer with fields in their ranges if it names the session
-- that is asked for, and goes on waiting if it names another.
pub accept_offer_lem :
    (asked : ℕ) (m : OfferMessage)
    → IsU32 m.session_id
    → IsU16 m.tcp_port
    → accept_offer asked (offer_layout m)
      ≡ some (if m.session_id == asked then some m.tcp_port else none)
unfolding accept_offer
accept_offer_lem asked m h k = rw (parse_offer-layout m h k)

ask_found :
    (lookup : ℕ → Option ℕ) (session_id : ℕ) (found : Option ℕ)
    → IsU32 session_id
    → lookup session_id ≡ found
    → ((port : ℕ) → found ≡ some port → IsU16 port)
    → ask lookup session_id ≡ some found
unfolding ask Option.bind
ask_found lookup session_id none h e k =
    rw (serialize_discover-layout session_id, answer-layout lookup session_id none h e)
ask_found lookup session_id (some port) h e k =
    rw (serialize_discover-layout session_id, answer-layout lookup session_id (some port) h e)
      (accept_offer_lem session_id (the_offer session_id port) h (k port refl)
        ∙ rw (==_refl session_id))

-- For a 32-bit session id and a lookup that answers with 16-bit ports, a search that reaches the
-- responder ends with exactly what the lookup says of the session: its TCP port, or nothing.
pub ask_lem :
    (lookup : ℕ → Option ℕ) (session_id : ℕ)
    → IsU32 session_id
    → ((port : ℕ) → lookup session_id ≡ some port → IsU16 port)
    → ask lookup session_id ≡ some (lookup session_id)
ask_lem lookup session_id h k = ask_found lookup session_id (lookup session_id) h refl k
