-- ===== src/Broker/Private.antt =====
-- Who receives a direct message (crates/room-daemon/src/broker/fanout.rs).
use room.Base.{
  ℕ, String, ◌≡◌, ◌≢◌, refl, ap, ◌∙◌, Bool, false, Option, none, some, List, [], ◌∷◌, arith,
  if◌then◌else◌, Option-cases, Bool-cases, inl, inr, ◌==◌, ==_iff, is_some_of,
}
use room.Protocol.Message.{direct_message, set_seq, is_visible_to}
use room.Broker.Fanout.{
  Env, Client, Channel, append, next_seq, deliver, persist_and_send, dm_and_persist,
}

-- What the clients of a user have received, client by client.
unfoldable pub inboxes : String → List Client → List (List String)
inboxes name [] = []
inboxes name (c ∷ clients) =
    let rest = inboxes name clients in if c.username == name then c.received ∷ rest else rest

inboxes-deliver :
    (reaches : String → Bool) (name line : String) (clients : List Client)
    → reaches name ≡ false
    → inboxes name (deliver reaches line clients) ≡ inboxes name clients
unfolding inboxes deliver
inboxes-deliver reaches name line [] h = refl
inboxes-deliver reaches name line (c ∷ clients) h = elim (Bool-cases (c.username == name)) [
  | inl e ↦
      rw (ap reaches ((==_iff c.username name).0 e) ∙ h)
        (rw (inboxes-deliver reaches name line clients h) refl)
  | inr e ↦ elim (Bool-cases (reaches c.username)) [
    | inl r ↦ rw (r, e) (inboxes-deliver reaches name line clients h)
    | inr r ↦ rw (r, e) (inboxes-deliver reaches name line clients h)
  ]
]

not_same : (s t : String) → s ≢ t → (s == t) ≡ false
not_same s t n = ground (arith, n, ==_iff s t)

not_host : (host : Option String) (name : String) → host ≢ some name → is_some_of host name ≡ false
not_host none name n = refl
not_host (some h) name n = not_same h name (λ e. n (ap some e))

hidden :
    (J : Type 0) (n : ℕ) (id room user to text name : String) (ts : ℕ) (number : Option ℕ)
    (host : Option String)
    → name ≢ user
    → name ≢ to
    → host ≢ some name
    → is_visible_to {J = J} (set_seq n (direct_message id room user ts number to text)) name host
      ≡ false
unfolding set_seq is_visible_to
hidden J n id room user to text name ts number host nu nt nh =
    ground (arith, not_same name user nu, not_same name to nt, not_host host name nh)

-- A direct message, whether or not it can be written to the history, reaches no client of a user who is
-- neither its sender nor its recipient nor the host of the room.
pub dm_stays_private :
    {J : Type 0} (env : Env J) (ch : Channel) (id room user to text name : String) (ts : ℕ)
    (number : Option ℕ)
    → name ≢ user
    → name ≢ to
    → ch.host_user ≢ some name
    → inboxes name (dm_and_persist env (direct_message id room user ts number to text) ch).1.clients
      ≡ inboxes name ch.clients
unfolding dm_and_persist persist_and_send
dm_stays_private {J} env ch id room user to text name ts number nu nt nh =
    let msg = direct_message id room user ts number to text in
    let numbered = set_seq {J = J} (next_seq ch) msg in
    elim (Option-cases (append env numbered ch.chat).0) [
      | inl e ↦ rw (dm_and_persist, persist_and_send, e) refl
      | inr (l, e) ↦
          rw (dm_and_persist, persist_and_send, e)
            (inboxes-deliver _ name l ch.clients
              (hidden J (next_seq ch) id room user to text name ts number ch.host_user nu nt nh))
    ]
