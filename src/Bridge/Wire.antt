-- ===== src/Bridge/Wire.antt =====
-- The bytes that `_loop_can_to_tcp` writes to one socket.
use canopen_tools.Prelude.{
  ℕ, ◌≤◌, ◌<◌, ◌≡◌, ◌≢◌, refl, sym, ap, lt→ltb, ◌∙◌, inl, inr, Bool, true, false, Option, none,
  some, List, [], ◌∷◌, ◌++◌, arith, leb, ◌==◌, ==_iff, if◌then◌else◌, length, take, All,
  append_assoc, append-nil, Bool-cases,
}
use mathlib.Core.Path.{ap₂}
use canopen_tools.Outcome.{Exn, Result, ok, raise, value_error, keyboard_interrupt}
use canopen_tools.Frame.{CanMessage, sent_payload, frame_from_can}
use canopen_tools.Frame.RoundTrip.{record_of, frame_from_can_lem, length-record_of}
use canopen_tools.Framer.Front.{framed}
use canopen_tools.Bridge.Outbound.{
  SendAll, sent, broken, Round, Writes, Exit, running, send_payload, send_if_connected, catch_round,
  send_frame, send_received, loop_can_to_tcp,
}

-- What one socket was given, in order.
abbrev pub bytes_to : ℕ → Writes → List ℕ
bytes_to s [] = []
bytes_to s ((t, bytes) ∷ w) = (if t == s then bytes else []) ++ bytes_to s w

bytes_to-append : (s : ℕ) (w v : Writes) → bytes_to s (w ++ v) ≡ bytes_to s w ++ bytes_to s v
bytes_to-append s [] v = refl
bytes_to-append s ((t, bytes) ∷ w) v =
    rw (bytes_to-append s w v, append_assoc (if t == s then bytes else []))

abbrev on_socket : ℕ → Option ℕ → Bool
on_socket s none = false
on_socket s (some t) = t == s

-- The writes of a round, and that they do not interrupt the loop.
send_payload_broken :
    (t k : ℕ) (e : Exn) (payload : List ℕ) (w : Writes)
    → e ≢ keyboard_interrupt
    → ((send_payload t payload (broken k e) w).0 ≢ raise keyboard_interrupt)
      × ((send_payload t payload (broken k e) w).1 ≡ w ++ ((t, take k payload) ∷ []))
unfolding send_payload
send_payload_broken t k e payload w h = ground arith

send_if_connected-bytes_to :
    (s : ℕ) (sock : Option ℕ) (payload : List ℕ) (out : SendAll) (w : Writes)
    → (sock ≡ some s → out ≡ sent)
    → ((k : ℕ) → out ≢ broken k keyboard_interrupt)
    → ((send_if_connected sock payload out w).0 ≢ raise keyboard_interrupt)
      × (bytes_to s (send_if_connected sock payload out w).1
          ≡ bytes_to s w ++ (if on_socket s sock then payload else []))
unfolding send_if_connected
send_if_connected-bytes_to s none payload out w whole calm = (λ e. cc, sym (append-nil _))
send_if_connected-bytes_to s (some t) payload sent w whole calm =
    (λ e. cc, bytes_to-append s w _ ∙ ap (λ b. bytes_to s w ++ b) (append-nil _))
send_if_connected-bytes_to s (some t) payload (broken k e) w whole calm =
    elim (Bool-cases (t == s)) [
      | inl same ↦ absurd (cc (whole (ap some ((==_iff t s).0 same))))
      | inr other ↦
          let (quiet, wrote) =
            send_payload_broken t k e payload w (λ x. calm k (ap (broken k) x)) in
          (
            quiet,
            rw other (
                ap (bytes_to s) wrote
                ∙ bytes_to-append s w ((t, take k payload) ∷ [])
                ∙ ap (λ b. bytes_to s w ++ b) (rw other)),
          )
    ]

-- The messages of at most 64 bytes.
abbrev pub sendable : {M : Type 0} → CanMessage M → List M → List M
sendable can [] = []
sendable can (m ∷ ms) =
    if leb (length (sent_payload can m)) 64 then m ∷ sendable can ms else sendable can ms

module _ {M : Type 0} (s : ℕ) where
  -- The messages of the rounds in which `s` is the installed socket.
  abbrev heard_by : Option ℕ → Result (Option M) → List M
  heard_by sock (ok (some m)) = if on_socket s sock then m ∷ [] else []
  heard_by sock _ = []

  abbrev pub heard : List (Round M) → List M
  heard [] = []
  heard (r ∷ rs) = heard_by r.sock r.recv ++ heard rs

  -- A round that neither stops nor interrupts the loop, and in which `s` takes all it is given.
  pub record IsSteady (r : Round M) : Type 0 where
    pub not_stopped : r.stop_set ≡ false
    pub not_interrupted : r.recv ≢ raise keyboard_interrupt
    pub whole : r.sock ≡ some s → r.send_all ≡ sent
    pub calm : (k : ℕ) → r.send_all ≢ broken k keyboard_interrupt

-- `frame_from_can` frames a message of at most 64 bytes, and refuses any other.
module _ {M : Type 0} (can : CanMessage M) (use_fd_cfg : Bool) where
  pub frame_from_can-framed :
      (m : M)
      → length (sent_payload can m) ≤ 64
      → frame_from_can can m use_fd_cfg ≡ ok (framed (record_of can m use_fd_cfg))
  frame_from_can-framed m fits =
      frame_from_can_lem can m use_fd_cfg fits
      ∙ ap₂ (λ (a b : ℕ). ok (a ∷ b ∷ record_of can m use_fd_cfg))
          (omega (arith, length-record_of can m use_fd_cfg))
          (omega (arith, length-record_of can m use_fd_cfg))

  pub frame_from_can-raise :
      (m : M)
      → 64 < length (sent_payload can m)
      → frame_from_can can m use_fd_cfg ≡ raise value_error
  unfolding frame_from_can
  frame_from_can-raise m long = rw (lt→ltb 64 _ long)

  -- The records of messages behind one another.
  abbrev pub wire : List M → List ℕ
  wire [] = []
  wire (m ∷ ms) = framed (record_of can m use_fd_cfg) ++ wire ms

  wire-append :
      (ms ns : List M)
      → wire (sendable can (ms ++ ns)) ≡ wire (sendable can ms) ++ wire (sendable can ns)
  wire-append [] ns = refl
  wire-append (m ∷ ms) ns = elim (Bool-cases (leb (length (sent_payload can m)) 64)) [
    | inl fits ↦ rw fits (
        ap (λ b. framed (record_of can m use_fd_cfg) ++ b) (wire-append ms ns)
        ∙ sym (append_assoc (framed (record_of can m use_fd_cfg)) _ _))
    | inr long ↦ rw long (wire-append ms ns)
  ]

  wire_fitting :
      (m : M) (b : Bool)
      → leb (length (sent_payload can m)) 64 ≡ true
      → (if b then framed (record_of can m use_fd_cfg) else [])
        ≡ wire (sendable can (if b then m ∷ [] else []))
  wire_fitting m true h = rw h (sym (append-nil _))
  wire_fitting m false h = refl

  wire_refused :
      (m : M) (b : Bool)
      → leb (length (sent_payload can m)) 64 ≡ false
      → wire (sendable can (if b then m ∷ [] else [])) ≡ []
  wire_refused m true h = rw h
  wire_refused m false h = refl

  send_received-bytes_to :
      (s : ℕ) (r : Round M) (got : Result (Option M)) (w : Writes)
      → IsSteady s r
      → got ≢ raise keyboard_interrupt
      → ((send_received can use_fd_cfg r got w).0 ≢ raise keyboard_interrupt)
        × (bytes_to s (send_received can use_fd_cfg r got w).1
            ≡ bytes_to s w ++ wire (sendable can (heard_by s r.sock got)))
  unfolding send_received send_frame
  send_received-bytes_to s r (raise e) w steady calm = (λ x. calm (cc), sym (append-nil _))
  send_received-bytes_to s r (ok none) w steady calm = (λ x. cc, sym (append-nil _))
  send_received-bytes_to s r (ok (some m)) w steady calm =
      elim (Bool-cases (leb (length (sent_payload can m)) 64)) [
        | inl fits ↦
            rw (frame_from_can-framed m (ground arith), ← wire_fitting m (on_socket s r.sock) fits)
              (send_if_connected-bytes_to s r.sock _ r.send_all w steady.whole steady.calm)
        | inr long ↦
            rw (frame_from_can-raise m (ground arith), wire_refused m (on_socket s r.sock) long)
              (λ x. cc, sym (append-nil _))
      ]

catch_round_calm :
    (again : Writes → Exit × Writes) (x : Result (Unit {0}) × Writes)
    → x.0 ≢ raise keyboard_interrupt
    → catch_round again x ≡ again x.1
unfolding catch_round
catch_round_calm again (ok u, w) h = refl
catch_round_calm again (raise e, w) h = ground arith

module _ {M : Type 0} (can : CanMessage M) (use_fd_cfg : Bool) (s : ℕ) where
  loop_step :
      (r : Round M) (rs : List (Round M)) (w : Writes)
      → IsSteady s r
      → loop_can_to_tcp can use_fd_cfg (r ∷ rs) w
        ≡ loop_can_to_tcp can use_fd_cfg rs (send_received can use_fd_cfg r r.recv w).1
  unfolding loop_can_to_tcp
  loop_step r rs w steady = rw steady.not_stopped (
      catch_round_calm _ _
        (send_received-bytes_to can use_fd_cfg s r r.recv w steady steady.not_interrupted).0)

  -- Over rounds that neither stop nor interrupt the loop, and in which socket `s` takes all that it
  -- is given, the loop keeps running, and adds to the bytes of `s` the framed records of the messages
  -- of at most 64 bytes that were received while `s` was installed, in order and nothing else.
  pub bytes_to-loop_can_to_tcp :
      (rs : List (Round M)) (w : Writes)
      → All (IsSteady s) rs
      → ((loop_can_to_tcp can use_fd_cfg rs w).0 ≡ running)
        × (bytes_to s (loop_can_to_tcp can use_fd_cfg rs w).1
            ≡ bytes_to s w ++ wire can use_fd_cfg (sendable can (heard s rs)))
  bytes_to-loop_can_to_tcp [] w steady = unfold loop_can_to_tcp in (refl, sym (append-nil _))
  bytes_to-loop_can_to_tcp (r ∷ rs) w (steady, later) =
      let one = send_received-bytes_to can use_fd_cfg s r r.recv w steady steady.not_interrupted in
      let rest = bytes_to-loop_can_to_tcp rs (send_received can use_fd_cfg r r.recv w).1 later in
      rw (loop_step r rs w steady) (
        rest.0,
        rest.1
            ∙ ap (λ b. b ++ wire can use_fd_cfg (sendable can (heard s rs))) one.1
            ∙ append_assoc (bytes_to s w) _ _
            ∙ ap (λ b. bytes_to s w ++ b)
                (sym (wire-append can use_fd_cfg (heard_by s r.sock r.recv) (heard s rs))),
      )
