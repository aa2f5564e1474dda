-- ===== src/Websocket/Dial.antt =====
-- `NewWebsocket` of feeder/eventstream/websocket.go: a dial succeeds if the message that opens the
-- subscription could be written as well.
use pricefeeder.Base.{
  ℕ, ◌-◌, ◌≡◌, Bool, true, false, Option, Option-cases, none, some, Text, arith, inl, inr,
}
use pricefeeder.Websocket.{connected, connect}
use pricefeeder.Websocket.Backoff.{connect_backoff}

-- The dialer of gorilla/websocket at the n-th dial, `none` for an error, and whether a write goes
-- through.
pub record WsDialer : Type 1 where
  pub Conn : Type 0
  pub dial : Text → ℕ → Option Conn
  pub write_message : Conn → Text → Bool

module _ (deps : WsDialer) where
  open deps use {Conn, dial, write_message}

  unfoldable pub dial_function : Text → Text → ℕ → Option Conn
  dial_function url on_open_msg n = elim (dial url n) [
    | none ↦ none
    | some conn ↦ elim (write_message conn on_open_msg) [ true ↦ some conn | false ↦ none ]
  ]

  -- `err == nil`
  abbrev pub succeeds : Option Conn → Bool
  succeeds none = false
  succeeds (some conn) = true

  unfoldable pub new_dial : Text → Text → ℕ → Bool
  new_dial url on_open_msg n = succeeds (dial_function url on_open_msg n)

  new_dial-inverts :
      (url on_open_msg : Text) (n : ℕ)
      → new_dial url on_open_msg n ≡ true
      → (conn : Conn) × (dial url n ≡ some conn) × (write_message conn on_open_msg ≡ true)
  unfolding new_dial dial_function
  new_dial-inverts url on_open_msg n e = elim (Option-cases (dial url n)) [
    | inl failed ↦ absurd (ground arith)
    | inr (conn, dialed) ↦ (conn, dialed, ground arith)
  ]

  -- A websocket that `connect` leaves connected, at the start or after a lost connection, has sent
  -- its opening message on that connection: it is subscribed again after every reconnection.
  pub connect-subscribes :
      (url on_open_msg : Text) (dials slept : ℕ)
      → connect (new_dial url on_open_msg) ≡ connected dials slept
      → (conn : Conn) × (dial url (dials - 1) ≡ some conn) × (write_message conn on_open_msg ≡ true)
  connect-subscribes url on_open_msg dials slept e =
      elim (connect_backoff (new_dial url on_open_msg)) [
        | inl (k, lt, before, now, how) ↦
            let same : dials - 1 ≡ k = ground arith in
            rw same (new_dial-inverts url on_open_msg k now)
        | inr (all, gave_up) ↦ absurd (ground arith)
      ]
