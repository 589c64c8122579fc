-- ===== src/Mock/Clients.antt =====
-- How many clients the mock server takes.
use Prim.Native.String.{String}
use text.Mathlib.Text.{◌==◌ as str_eq}
use linux_application_develo.Shared.{
  suc, ◌≤◌, ◌≡◌, refl, sym, ap, ◌∙◌, true, false, Option, some, List, [], ◌∷◌, ◌++◌, map, length,
  arith, inl, inr, Bool-cases,
}
use mathlib.Core.List.{append_assoc, append-nil}
use linux_application_develo.Shared.Int.{pos, ltb_ℤ, ◌≤ℤ◌}
use linux_application_develo.Shared.Dict
use linux_application_develo.Shared.Dict.{Dict}
use text.Mathlib.TextEquality.{eq_iff}
use linux_application_develo.Mock.{Server, admit, remove, accept_loop, open_session}

length-put_le : (m : Dict String) (k v : String) → length (Dict.put m k v) ≤ suc (length m)
unfolding Dict.put
length-put_le [] k v = omega arith
length-put_le ((i, w) ∷ m) k v = elim (Bool-cases (str_eq i k)) [
  | inl e ↦ rw e (omega arith)
  | inr e ↦ rw e (omega (arith, length-put_le m k v))
]

-- The first lines of handleConnection, if the accept loop has started it for a connection.
unfoldable pub open_pending : List String → Server → String → Server
open_pending [] s id = s
open_pending (conn ∷ _) s id = open_session s id conn

-- One round of the accept loop for a connection, and then the session of what it let in.
unfoldable pub serve_one : Server → String → String → Server
serve_one s id conn = let t = admit s conn in open_pending t.pending t id

unfoldable pub serve : Server → List (String × String) → Server
serve s [] = s
serve s ((id, conn) ∷ rest) = serve (serve_one s id conn) rest

-- No connection waits for its session, and the sessions do not outnumber MaxClients.
pub record HasRoom (s : Server) : Type 0 where
  pub opened : s.pending ≡ []
  pub room : pos (length s.sessions) ≤ℤ s.config.max_clients

remove_self : (conn : String) → remove (conn ∷ []) conn ≡ []
unfolding remove
remove_self conn = ground (arith, eq_iff conn conn)

admit_waiting :
    (s : Server) (conn : String)
    → s.pending ≡ []
    → ltb_ℤ (pos (length s.sessions)) s.config.max_clients ≡ true
    → admit s conn ≡ record s { pending = conn ∷ [] }
unfolding admit
admit_waiting s conn opened room = simp (room, opened) refl

admit_closed :
    (s : Server) (conn : String)
    → ltb_ℤ (pos (length s.sessions)) s.config.max_clients ≡ false
    → admit s conn ≡ record s { closed = s.closed ++ conn ∷ [] }
unfolding admit
admit_closed s conn full = simp full refl

serve_one-HasRoom : (s : Server) (id conn : String) → HasRoom s → HasRoom (serve_one s id conn)
unfolding serve_one open_session open_pending
serve_one-HasRoom s id conn h =
    elim (Bool-cases (ltb_ℤ (pos (length s.sessions)) s.config.max_clients)) [
      | inl room ↦ rw (admit_waiting s conn h.opened room) (record {
        opened = remove_self conn;
        room = ground (arith, room, length-put_le s.sessions id conn);
      })
      | inr full ↦
          rw (admit_closed s conn full) (rw h.opened (record { opened = refl; room = h.room }))
    ]

-- If no connection waits for its session and the sessions do not outnumber MaxClients, then it is so
-- again after any connections, when the session of each one that the accept loop lets in is opened
-- before the loop's next round.
pub serve-max_clients :
    (s : Server) (conns : List (String × String)) → HasRoom s → HasRoom (serve s conns)
unfolding serve
serve-max_clients s [] h = h
serve-max_clients s ((id, conn) ∷ rest) h =
    serve-max_clients (serve_one s id conn) rest (serve_one-HasRoom s id conn h)

admitted :
    (s : Server) (conn : String)
    → ltb_ℤ (pos (length s.sessions)) s.config.max_clients ≡ true
    → admit s conn ≡ record s { pending = s.pending ++ conn ∷ [] }
unfolding admit
admitted s conn room = simp room refl

admitted_next :
    (s : Server) (conn : String) (rest : List (Option String))
    → s.stop_closed ≡ false
    → accept_loop s (some conn ∷ rest) ≡ accept_loop (admit s conn) rest
unfolding accept_loop
admitted_next s conn rest fresh = simp fresh refl

-- While no session is opened, the accept loop of a server whose stop channel is open and whose
-- sessions are fewer than MaxClients admits every connection, however many there are.
pub accept_loop-pending :
    (s : Server) (conns : List String)
    → s.stop_closed ≡ false
    → ltb_ℤ (pos (length s.sessions)) s.config.max_clients ≡ true
    → (accept_loop s (map some conns)).pending ≡ s.pending ++ conns
unfolding accept_loop
accept_loop-pending s [] fresh room = sym (append-nil s.pending)
accept_loop-pending s (conn ∷ conns) fresh room =
    let t : Server = record s { pending = s.pending ++ conn ∷ [] } in
    ap (λ (u : Server). u.pending) (admitted_next s conn (map some conns) fresh)
    ∙ ap (λ (u : Server). (accept_loop u (map some conns)).pending) (admitted s conn room)
    ∙ accept_loop-pending t conns fresh room
    ∙ append_assoc s.pending _ _
