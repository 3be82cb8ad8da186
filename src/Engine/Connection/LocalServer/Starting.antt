-- ===== src/Engine/Connection/LocalServer/Starting.antt =====
-- start_local_server: what it keeps, the ports that it hands out, and what its success means.
use sketch_sync.Prelude.{
  ℕ, zero, suc, All, ◌≡◌, refl, sym, Bool, true, false, not, ◌&&◌, ◌||◌, List, [], ◌∷◌, Bool-cases,
  inl, inr, if◌then◌else◌,
}
use mathlib.Core.Path.{subst}
use sketch_sync.Results.{Result, is_ok, ok, text}
use sketch_sync.Bytes.{Bytes}
use sketch_sync.Engine.{Engine}
use sketch_sync.Engine.Coherence.{pair-Coherent, Coherent, net-Coherent}
use sketch_sync.Engine.Connection.{Outcome, set_stop, connect_to_server, adopt, rejected}
use sketch_sync.Engine.Session.{has_client}
use sketch_sync.Engine.Connection.Coherence.{connect_to_server-Coherent, set_stop-Coherent}
use sketch_sync.Engine.Connection.LocalServer.{
  Process, ports, stoi, try_connect, with_server, no_result, start_server, refused,
}

with_server-Coherent : (b : Bool) (e : Engine) → Coherent e → Coherent (with_server b e)
with_server-Coherent b e v =
    net-Coherent e (record e.net { server_running = b }) v refl refl refl refl

try_connect-Coherent :
    (n : ℕ) (rounds : List (Bool × Outcome)) (conn : Result Bool) (e : Engine)
    → Coherent e
    → Coherent (try_connect n rounds conn e).1
unfolding try_connect
try_connect-Coherent zero rounds conn e v = v
try_connect-Coherent (suc n) [] conn e v = with_server-Coherent false e v
try_connect-Coherent (suc n) ((running, o) ∷ rounds) conn e v =
    let (r, e') = connect_to_server o e in
    let v' = connect_to_server-Coherent o e v in
    pair-Coherent (e.net.stop_poll || not running) _ _ (λ _. with_server-Coherent running e v)
      λ _. pair-Coherent (is_ok r) _ _ (λ _. v') (λ _. try_connect-Coherent n rounds r e' v')

if-middle :
    (b : Bool) (p q : Result Bool × Engine × Bool)
    → Coherent p.1
    → Coherent q.1
    → Coherent (if b then p else q).1
if-middle true p q v w = v
if-middle false p q v w = w

pub start_server-Coherent : (p : Process) (e : Engine) → Coherent e → Coherent (start_server p e).1
unfolding start_server
start_server-Coherent p e v =
    let (tcp_p, ws_p) = ports e.net.protocol e.net.port (stoi e.net.port) in
    let v1 = set_stop-Coherent false e v in
    let e1 = with_server true (set_stop false e) in
    let v2 =
      try_connect-Coherent 15 p.rounds no_result e1
        (with_server-Coherent true (set_stop false e) v1) in
    let (conn, e2) = try_connect 15 p.rounds no_result e1 in
    if-middle e.net.server_running _ _ v (
      if-middle (not p.exists) _ _ v (
        if-middle (not (is_ok (p.launch tcp_p ws_p))) _ _ v1
          (if-middle (not (is_ok conn)) _ _ (with_server-Coherent false e2 v2) v2)))

-- A result that is no success, or with a connection.
abbrev Online : Result Bool × Engine → Type 0
Online p = is_ok p.0 ≡ true → p.1.net.connected ≡ true

if-Online :
    (b : Bool) (p q : Result Bool × Engine)
    → (b ≡ true → Online p)
    → (b ≡ false → Online q)
    → Online (if b then p else q)
if-Online true p q v w = v refl
if-Online false p q v w = w refl

adopt-connected : (e : Engine) → (adopt e).net.connected ≡ true
unfolding adopt
adopt-connected e = elim (Bool-cases e.net.attached) [ inl a ↦ rw a refl | inr a ↦ rw a refl ]

failed-Online : (r : Result Bool) (e : Engine) → is_ok r ≡ false → Online (r, e)
failed-Online r e h k = cc (h, k)

no_success : (r s : Bool) → (not r || s) ≡ true → s ≡ false → r ≡ false
no_success true s h k = cc (h, k)
no_success false s h k = refl

connect_to_server-Online :
    (o : Outcome) (e : Engine) → o.stopped ≡ false → Online (connect_to_server o e)
unfolding connect_to_server
connect_to_server-Online o e h =
    let e' = set_stop false e in
    let refused_ : Result Bool × Engine = (rejected, e') in
    let failed : Result Bool × Engine = (o.conn_res, set_stop o.stopped e') in
    let passed : Result Bool × Engine = (ok true, adopt e') in
    let bad = not (is_ok o.conn_res) || o.stopped in
    if-Online (e.net.connected || e.net.attached && has_client e) refused_
      (if bad then failed else passed) (λ _. failed-Online rejected e' refl)
      λ _.
        if-Online bad failed passed
          (λ b.
            failed-Online o.conn_res (set_stop o.stopped e')
              (no_success (is_ok o.conn_res) o.stopped b h))
          (λ _ _. adopt-connected e')

try_connect-Online :
    (n : ℕ) (rounds : List (Bool × Outcome)) (conn : Result Bool) (e : Engine)
    → All (λ r. r.1.stopped ≡ false) rounds
    → is_ok conn ≡ false
    → Online (try_connect n rounds conn e)
unfolding try_connect
try_connect-Online zero rounds conn e v h = failed-Online conn e h
try_connect-Online (suc n) [] conn e v h = failed-Online conn (with_server false e) h
try_connect-Online (suc n) ((running, o) ∷ rounds) conn e v h =
    let (r, e') = connect_to_server o e in
    if-Online (e.net.stop_poll || not running) _ _
      (λ _. failed-Online conn (with_server running e) h)
      λ _.
        if-Online (is_ok r) _ _ (λ _. connect_to_server-Online o e v.0)
          (try_connect-Online n rounds r e' v.1)

no_stop : (b : Bool) → b ≡ false → (b || not true) ≡ true → false ≡ true
no_stop true h k = sym h
no_stop false h k = k

first-Online :
    (n : ℕ) (rounds all_rounds : List (Bool × Outcome)) (o : Outcome) (e : Engine)
    → all_rounds ≡ (true, o) ∷ rounds
    → All (λ r. r.1.stopped ≡ false) all_rounds
    → e.net.stop_poll ≡ false
    → Online (try_connect (suc n) all_rounds no_result e)
unfolding try_connect
first-Online n rounds all_rounds o e first v go =
    let w = subst (All (λ r. r.1.stopped ≡ false)) first v in
    let (r, e') = connect_to_server o e in
    subst (λ all. Online (try_connect (suc n) all no_result e)) (sym first)
      (if-Online (e.net.stop_poll || not true) (no_result, with_server true e) _
        (λ b k. cc (no_stop _ go b))
        λ _.
          if-Online (is_ok r) (r, e') _ (λ _. connect_to_server-Online o e w.0)
            (try_connect-Online n rounds r e' w.1))

negated : (b : Bool) → not b ≡ true → b ≡ false
negated true h = sym h
negated false h = refl

affirmed : (b : Bool) → not b ≡ false → b ≡ true
affirmed true h = refl
affirmed false h = sym h

if-Started :
    (b : Bool) (p q : Result Bool × Engine × Bool)
    → (b ≡ true → Online (p.0, p.1))
    → (b ≡ false → Online (q.0, q.1))
    → Online ((if b then p else q).0, (if b then p else q).1)
if-Started true p q v w = v refl
if-Started false p q v w = w refl

-- Success of start_local_server means that the program is connected, if the server's process runs in the first
-- round and no round is stopped.
pub start_server-connected :
    (p : Process) (e : Engine) (o : Outcome) (rounds : List (Bool × Outcome))
    → p.rounds ≡ (true, o) ∷ rounds
    → All (λ r. r.1.stopped ≡ false) p.rounds
    → is_ok (start_server p e).0 ≡ true
    → (start_server p e).1.net.connected ≡ true
unfolding start_server
start_server-connected p e o rounds first v =
    let (tcp_p, ws_p) = ports e.net.protocol e.net.port (stoi e.net.port) in
    let e1 = with_server true (set_stop false e) in
    let (conn, e2) = try_connect 15 p.rounds no_result e1 in
    let online = first-Online 14 rounds p.rounds o e1 first v refl in
    let res = p.launch tcp_p ws_p in
    if-Started e.net.server_running _ _
      (λ _. failed-Online (refused (text "Already running")) e refl)
      λ _.
        if-Started (not p.exists) _ _
          (λ _. failed-Online (refused (text "server.exe not found")) e refl)
          λ _.
            if-Started (not (is_ok res)) _ _
              (λ b. failed-Online res (set_stop false e) (negated (is_ok res) b))
              λ _.
                if-Started (not (is_ok conn)) _ _
                  (λ b. failed-Online conn (with_server false e2) (negated (is_ok conn) b))
                  λ b _. online (affirmed (is_ok conn) b)

-- If the process does not run in the first round any more, start_local_server still succeeds: the connection is
-- what it was, the server does not count as running, and the session is to be created.
pub start_server-dead :
    (p : Process) (e : Engine) (o : Outcome) (rounds : List (Bool × Outcome))
    → e.net.server_running ≡ false
    → p.exists ≡ true
    → ((t w : Bytes) → is_ok (p.launch t w) ≡ true)
    → p.rounds ≡ (false, o) ∷ rounds
    → start_server p e ≡ (ok true, with_server false (set_stop false e), e.net.attached)
unfolding start_server try_connect
start_server-dead p e o rounds idle found launches first =
    let (tcp_p, ws_p) = ports e.net.protocol e.net.port (stoi e.net.port) in
    rw (idle, found, launches tcp_p ws_p, first) refl
