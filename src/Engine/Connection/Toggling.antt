-- ===== src/Engine/Connection/Toggling.antt =====
-- network_manager::toggle_protocol, twice.
use sketch_sync.Prelude.{
  ◌≡◌, ◌≢◌, refl, sym, ap, ◌∙◌, inl, inr, true, false, if◌then◌else◌, Bool-cases,
}
use sketch_sync.Bytes.{Bytes}
use sketch_sync.Files.Path.{equal, equal_sound, equal_refl}
use sketch_sync.Engine.{Network, Protocol, default_tcp_port, default_ws_port}
use sketch_sync.Engine.Protocol.{tcp, websocket}
use sketch_sync.Engine.Connection.{toggled, toggle_protocol}

-- The port is not the default of the protocol that is not in use.
abbrev pub IsOwnPort : Protocol → Bytes → Type 0
IsOwnPort tcp port = port ≢ default_ws_port
IsOwnPort websocket port = port ≢ default_tcp_port
IsOwnPort Protocol.none port = ⊥

not_equal : (xs ys : Bytes) → xs ≢ ys → equal xs ys ≡ false
not_equal xs ys h = elim (Bool-cases (equal xs ys)) [
  | inl e ↦ absurd (h (equal_sound xs ys e))
  | inr e ↦ e
]

swapped :
    (port here there : Bytes)
    → port ≢ there
    → let port' = if equal port here then there else port in
      (if equal port' there then here else port') ≡ port
swapped port here there h = elim (Bool-cases (equal port here)) [
  | inl e ↦ rw (e, equal_refl there) (sym (equal_sound port here e))
  | inr e ↦ rw (e, not_equal port there h) refl
]

toggled_twice :
    (protocol : Protocol) (port : Bytes)
    → IsOwnPort protocol port
    → (let (protocol', port') = toggled protocol port in toggled protocol' port') ≡ (protocol, port)
unfolding toggled
toggled_twice tcp port h = ap (λ p. (tcp, p)) (swapped port default_tcp_port default_ws_port h)
toggled_twice websocket port h =
    ap (λ p. (websocket, p)) (swapped port default_ws_port default_tcp_port h)
toggled_twice Protocol.none port h = absurd h

toggle_protocol-off :
    (n : Network)
    → n.connected ≡ false
    → n.connecting ≡ false
    → toggle_protocol n ≡ (
        let (protocol, port) = toggled n.protocol n.port in
        (record n { protocol = protocol; port = port }, true))
unfolding toggle_protocol
toggle_protocol-off n off idle = rw (off, idle) refl

-- Off the line, toggling the protocol succeeds, and toggling it twice restores the protocol and the port, unless
-- the port is the default port of the other protocol.
pub toggle_protocol_twice :
    (n : Network)
    → n.connected ≡ false
    → n.connecting ≡ false
    → IsOwnPort n.protocol n.port
    → ((toggle_protocol n).1 ≡ true) × (toggle_protocol (toggle_protocol n).0 ≡ (n, true))
toggle_protocol_twice n off idle own =
    let (protocol, port) = toggled n.protocol n.port in
    let n' : Network = record n { protocol = protocol; port = port } in
    let once : toggle_protocol n ≡ (n', true) = toggle_protocol-off n off idle in
    (
      ap (λ r. r.1) once,
      ap (λ r. toggle_protocol r.0) once
          ∙ toggle_protocol-off n' off idle
          ∙ ap (λ r. (record n { protocol = r.0; port = r.1 }, true))
              (toggled_twice n.protocol n.port own),
    )
