-- ===== src/Bridge/EndToEnd.antt =====
-- Messages framed on one side and read on the other: the two halves of
-- can-tcp-bridge/can-tcp-bridge-server/can_tcp_bridge.py together.
use canopen_tools.Prelude.{
  inl, inr, ℕ, suc, ◌+◌, ◌≤◌, ◌≡◌, ◌≢◌, refl, sym, ap, ◌∙◌, Bool, List, [], ◌∷◌, ◌++◌, map, arith,
  length, flatten, All, All-map, append_assoc, append-nil, leb, Bool-cases,
}
use mathlib.Core.Path.{ap₂}
use canopen_tools.Framer.{Framer}
use canopen_tools.Outcome.{Result, ok}
use canopen_tools.Frame.{CanMessage, CanMessageLaws, sent_payload, can_from_frame}
use canopen_tools.Frame.RoundTrip.{
  IsDelivered, record_of, received_args, can_from_frame-record_of, received_args-IsDelivered,
}
use canopen_tools.Framer.Front.{framed}
use canopen_tools.Framer.Stream.{split, split-nil, split-framed}
use canopen_tools.Bridge.Inbound.{BusLog, Ended, waiting, forward_record, loop_tcp_to_can}
use canopen_tools.Bridge.Outbound.{Round, loop_can_to_tcp}
use canopen_tools.Bridge.Wire.{bytes_to, wire, sendable, heard, IsSteady, bytes_to-loop_can_to_tcp}
use canopen_tools.Bridge.Delivery.{
  reads, deliver, unless_failed, log_of, ended_log, deliver-append, loop_tcp_to_can-deliver,
}

-- A bus whose `send` raises nothing.
abbrev pub accepts_all : {M : Type 0} → ℕ → M → Result (Unit {0})
accepts_all n msg = ok tt

module _ {M : Type 0} (can : CanMessage M) where
  forward_record_taken :
      (rec : List ℕ) (m : M) (b : BusLog M)
      → can_from_frame can rec ≡ ok m
      → forward_record can accepts_all rec b
        ≡ (ok tt, record { calls = suc b.calls; taken = b.taken ++ (m ∷ []) })
  unfolding forward_record
  forward_record_taken rec m b h = rw h

  -- Records of which each is read as a message.
  pub deliver-each :
      {A : Type 0} (rec : A → List ℕ) (msg : A → M) (xs : List A) (b : BusLog M)
      → All (λ x. can_from_frame can (rec x) ≡ ok (msg x)) xs
      → deliver can accepts_all (map rec xs) b
        ≡ (ok tt, record { calls = b.calls + length xs; taken = b.taken ++ map msg xs })
  deliver-each rec msg [] b each =
      ap₂ (λ (n : ℕ) (t : List M). (ok tt, record { calls = n; taken = t })) (omega arith)
        (sym (append-nil b.taken))
  deliver-each rec msg (x ∷ xs) b (one, each) =
      let b' : BusLog M = record { calls = suc b.calls; taken = b.taken ++ (msg x ∷ []) } in
      rw (forward_record_taken (rec x) (msg x) b one) (
        deliver-each rec msg xs b' each
        ∙ ap₂ (λ (n : ℕ) (t : List M). (ok tt, record { calls = n; taken = t })) (omega arith)
            (append_assoc b.taken (msg x ∷ []) (map msg xs)))

module _ {M : Type 0} (can : CanMessage M) (use_fd_cfg : Bool) where
  -- The message that the receiver builds.
  abbrev pub copy : M → M
  copy m = can.message (received_args can m use_fd_cfg)

  split-wire :
      (ms : List M) (rest : List ℕ)
      → split (wire can use_fd_cfg ms ++ rest)
        ≡ (map (λ m. record_of can m use_fd_cfg) ms ++ (split rest).0, (split rest).1)
  split-wire [] rest = refl
  split-wire (m ∷ ms) rest =
      ap split (append_assoc (framed (record_of can m use_fd_cfg)) (wire can use_fd_cfg ms) rest)
      ∙ split-framed (record_of can m use_fd_cfg) (wire can use_fd_cfg ms ++ rest)
      ∙ rw (split-wire ms rest)

  abbrev pub Fits : M → Type 0
  Fits m = length (sent_payload can m) ≤ 64

  pub sendable-Fits : (ms : List M) → All Fits (sendable can ms)
  sendable-Fits [] = tt
  sendable-Fits (m ∷ ms) = elim (Bool-cases (leb (length (sent_payload can m)) 64)) [
    | inl fits ↦ rw fits (ground arith, sendable-Fits ms)
    | inr long ↦ rw long (sendable-Fits ms)
  ]

  deliver-copies :
      (ms : List M) (b : BusLog M)
      → All Fits ms
      → deliver can accepts_all (map (λ m. record_of can m use_fd_cfg) ms) b
        ≡ (ok tt, record { calls = b.calls + length ms; taken = b.taken ++ map copy ms })
  deliver-copies ms b fits =
      deliver-each can (λ m. record_of can m use_fd_cfg) copy ms b
        (All-map Fits (λ m. can_from_frame can (record_of can m use_fd_cfg) ≡ ok (copy m)) ms
          (λ m. can_from_frame-record_of can m use_fd_cfg) fits)

  -- A message on one bus and its counterpart on the other, in the order of the lists.
  abbrev pub Delivered : List M → List M → Type 0
  Delivered [] [] = Unit
  Delivered (m ∷ ms) (c ∷ cs) = IsDelivered can use_fd_cfg m c × Delivered ms cs
  Delivered _ _ = ⊥

  map-copy-Delivered : CanMessageLaws can → (ms : List M) → Delivered ms (map copy ms)
  map-copy-Delivered laws [] = tt
  map-copy-Delivered laws (m ∷ ms) =
      (received_args-IsDelivered can laws m use_fd_cfg, map-copy-Delivered laws ms)

  deliver-wire :
      (ms : List M) (rest : List ℕ) (b : BusLog M)
      → All Fits ms
      → deliver can accepts_all (split (wire can use_fd_cfg ms ++ rest)).0 b
        ≡ deliver can accepts_all
            (split rest).0
            (record { calls = b.calls + length ms; taken = b.taken ++ map copy ms })
  deliver-wire ms rest b fits =
      ap (λ (r : List (List ℕ) × Framer). deliver can accepts_all r.0 b) (split-wire ms rest)
      ∙ deliver-append can accepts_all (map (λ m. record_of can m use_fd_cfg) ms) (split rest).0 b
      ∙ ap (unless_failed can accepts_all (deliver can accepts_all (split rest).0))
          (deliver-copies ms b fits)

  abbrev taken_all : List M → BusLog M → BusLog M
  taken_all ms b = record { calls = b.calls + length ms; taken = b.taken ++ map copy ms }

  -- The bytes of some messages and then others, in any chunks.
  loop_tcp_to_can-wire :
      (cs : List (List ℕ)) (ms : List M) (rest : List ℕ) (b : BusLog M)
      → All (λ c. c ≢ []) cs
      → All Fits ms
      → flatten cs ≡ wire can use_fd_cfg ms ++ rest
      → log_of can accepts_all (loop_tcp_to_can can accepts_all (map reads cs) b)
        ≡ ended_log can accepts_all (deliver can accepts_all (split rest).0 (taken_all ms b))
  loop_tcp_to_can-wire cs ms rest b full fits same =
      loop_tcp_to_can-deliver can accepts_all cs b full
      ∙ ap (λ (t : List ℕ). ended_log can accepts_all (deliver can accepts_all (split t).0 b)) same
      ∙ ap (ended_log can accepts_all) (deliver-wire ms rest b fits)

  deliver-split-nil : (b : BusLog M) → deliver can accepts_all (split []).0 b ≡ (ok tt, b)
  deliver-split-nil b = rw split-nil

module _ {M : Type 0} (can : CanMessage M) (laws : CanMessageLaws can) (use_fd_cfg : Bool) where
  -- The sender's loop runs over steady rounds of socket `s` and the bytes that it wrote there reach
  -- the receiver in any non-empty chunks; the receiver's bus accepts what it is given. Then the
  -- receiver is still waiting, and its bus has taken one counterpart of each message of at most 64
  -- bytes that the sender's bus gave while `s` was installed, in the same order and nothing else.
  pub bridge_transfers :
      (s : ℕ) (rs : List (Round M)) (cs : List (List ℕ)) (b : BusLog M)
      → All (IsSteady s) rs
      → All (λ c. c ≢ []) cs
      → flatten cs ≡ bytes_to s (loop_can_to_tcp can use_fd_cfg rs []).1
      → (copies : List M) × Delivered can use_fd_cfg (sendable can (heard s rs)) copies
        × ((loop_tcp_to_can can accepts_all (map reads cs) b).0 ≡ waiting)
        × ((loop_tcp_to_can can accepts_all (map reads cs) b).1.log.taken ≡ b.taken ++ copies)
  bridge_transfers s rs cs b steady full same =
      let ms = sendable can (heard s rs) in
      (
        map (copy can use_fd_cfg) ms,
        map-copy-Delivered can use_fd_cfg laws ms,
        ap (λ (r : Ended × BusLog M). r.0) result,
        ap (λ (r : Ended × BusLog M). r.1.taken) result,
      )
    where
      result :
          log_of can accepts_all (loop_tcp_to_can can accepts_all (map reads cs) b)
          ≡ (waiting, taken_all can use_fd_cfg (sendable can (heard s rs)) b)
      result =
          loop_tcp_to_can-wire can use_fd_cfg cs (sendable can (heard s rs)) [] b full
            (sendable-Fits can use_fd_cfg (heard s rs))
            (same ∙ (bytes_to-loop_can_to_tcp can use_fd_cfg s rs [] steady).1 ∙ sym (append-nil _))
          ∙ ap (ended_log can accepts_all) (deliver-split-nil can use_fd_cfg _)
