-- ===== src/Bridge/Delivery.antt =====
-- Whatever the chunks, `_loop_tcp_to_can` hands the records of the byte stream to the bus in order.
use canopen_tools.Prelude.{
  ℕ, zero, suc, ◌≤◌, ◌≡◌, ◌≢◌, refl, sym, ap, ◌∙◌, true, false, List, [], ◌∷◌, ◌++◌, none, some,
  arith, length, flatten, All, append_assoc, append-nil, map,
}
use canopen_tools.Outcome.{Result, ok, raise}
use canopen_tools.Frame.{CanMessage}
use canopen_tools.Framer.{Framer, feed, next_record}
use canopen_tools.Framer.Front.{partial, complete, front}
use canopen_tools.Framer.Stream.{split, split_partial, split_complete, split-append, split_rest}
use canopen_tools.Bridge.Inbound.{
  BusLog, Inbound, Turn, Ended, waiting, failed, forward_record, unless_raised, or_break,
  forward_records, receive_turns, loop_tcp_to_can,
}

-- A round in which the bridge runs, is connected and reads a chunk.
abbrev pub reads : List ℕ → Turn
reads chunk = record { stop_set = false; has_sock = true; recv = ok chunk }

abbrev pub ended : Result (Unit {0}) → Ended
ended (ok u) = waiting
ended (raise e) = failed e

module _ {M : Type 0} (can : CanMessage M) (send : ℕ → M → Result (Unit {0})) where
  -- The specification: the records one by one, up to the first that raises.
  abbrev pub unless_failed :
      (BusLog M → Result (Unit {0}) × BusLog M)
      → Result (Unit {0}) × BusLog M
      → Result (Unit {0}) × BusLog M
  unless_failed again (ok u, b) = again b
  unless_failed again (raise e, b) = (raise e, b)

  abbrev pub deliver : List (List ℕ) → BusLog M → Result (Unit {0}) × BusLog M
  deliver [] b = (ok tt, b)
  deliver (rec ∷ recs) b = unless_failed (deliver recs) (forward_record can send rec b)

  abbrev pub log_of : Ended × Inbound M → Ended × BusLog M
  log_of (e, st) = (e, st.log)

  -- What follows the records of a buffer, of which `g` is left.
  abbrev after :
      (Inbound M → Ended × Inbound M) → Framer → Result (Unit {0}) × BusLog M → Ended × BusLog M
  after again g (ok u, b) = log_of (again (record { framer = g; log = b }))
  after again g (raise e, b) = (failed e, b)

  unless_raised-after :
      (again : Inbound M → Ended × Inbound M) (k : BusLog M → Result (Unit {0}) × Inbound M)
      (d : BusLog M → Result (Unit {0}) × BusLog M) (f g : Framer)
      (x : Result (Unit {0}) × BusLog M)
      → ((c : BusLog M) → log_of (or_break can send again (k c)) ≡ after again g (d c))
      → log_of (or_break can send again (unless_raised can send k f x))
        ≡ after again g (unless_failed d x)
  unfolding or_break unless_raised
  unless_raised-after again k d f g (ok u, b) h = h b
  unless_raised-after again k d f g (raise e, b) h = refl

  forward_records_partial :
      (fuel : ℕ) (buf : List ℕ) (b : BusLog M)
      → next_record (record { buf = buf }) ≡ (none, record { buf = buf })
      → forward_records can send fuel (record { framer = record { buf = buf }; log = b })
        ≡ (ok tt, record { framer = record { buf = buf }; log = b })
  unfolding forward_records
  forward_records_partial zero buf b p = refl
  forward_records_partial (suc fuel) buf b p = rw (p, forward_records)

  forward_records_complete :
      (fuel : ℕ) (buf rec rest : List ℕ) (b : BusLog M)
      → next_record (record { buf = buf }) ≡ (some rec, record { buf = rest })
      → forward_records can send (suc fuel) (record { framer = record { buf = buf }; log = b })
        ≡ unless_raised can send
            (λ c.
              forward_records can send fuel (record { framer = record { buf = rest }; log = c }))
            (record { buf = rest })
            (forward_record can send rec b)
  unfolding forward_records
  forward_records_complete fuel buf rec rest b p = rw (p, forward_records)

  or_break-forward_records :
      (again : Inbound M → Ended × Inbound M) (fuel : ℕ) (buf : List ℕ) (b : BusLog M)
      → length buf ≤ fuel
      → log_of (
          or_break can send again
            (forward_records can send fuel (record { framer = record { buf = buf }; log = b })))
        ≡ after again (split buf).1 (deliver (split buf).0 b)
  or_break-forward_records again zero [] b h =
      rw (split_partial [] (unfold next_record in refl)) (unfold or_break forward_records in refl)
  or_break-forward_records again zero (x ∷ buf) b h = absurd (omega arith)
  or_break-forward_records again (suc fuel) buf b h = elim (front buf) [
    | partial p ↦
        rw (split_partial buf p, forward_records_partial (suc fuel) buf b p)
          (unfold or_break in refl)
    | complete rec rest p len grow ↦
        rw (split_complete buf rec rest p len, forward_records_complete fuel buf rec rest b p)
          (unless_raised-after again _ (deliver (split rest).0) _ (split rest).1
            (forward_record can send rec b)
            (λ c. or_break-forward_records again fuel rest c (omega arith)))
  ]

  unless_failed_assoc :
      (d e f : BusLog M → Result (Unit {0}) × BusLog M) (x : Result (Unit {0}) × BusLog M)
      → ((c : BusLog M) → d c ≡ unless_failed e (f c))
      → unless_failed d x ≡ unless_failed e (unless_failed f x)
  unless_failed_assoc d e f (ok u, b) h = h b
  unless_failed_assoc d e f (raise x, b) h = refl

  pub deliver-append :
      (rs ss : List (List ℕ)) (b : BusLog M)
      → deliver (rs ++ ss) b ≡ unless_failed (deliver ss) (deliver rs b)
  deliver-append [] ss b = refl
  deliver-append (r ∷ rs) ss b =
      unless_failed_assoc _ (deliver ss) (deliver rs) (forward_record can send r b)
        (deliver-append rs ss)

  abbrev pub ended_log : Result (Unit {0}) × BusLog M → Ended × BusLog M
  ended_log (r, b) = (ended r, b)

  after-ended_log :
      (again : Inbound M → Ended × Inbound M) (g : Framer)
      (d : BusLog M → Result (Unit {0}) × BusLog M) (x : Result (Unit {0}) × BusLog M)
      → ((c : BusLog M) → log_of (again (record { framer = g; log = c })) ≡ ended_log (d c))
      → after again g x ≡ ended_log (unless_failed d x)
  after-ended_log again g d (ok u, b) h = h b
  after-ended_log again g d (raise e, b) h = refl

  receive_turns_chunk :
      (ts : List Turn) (buf : List ℕ) (x : ℕ) (xs : List ℕ) (b : BusLog M)
      → log_of (
          receive_turns can send
            (reads (x ∷ xs) ∷ ts)
            (record { framer = record { buf = buf }; log = b }))
        ≡ after
            (receive_turns can send ts)
            (split (buf ++ (x ∷ xs))).1
            (deliver (split (buf ++ (x ∷ xs))).0 b)
  unfolding receive_turns feed
  receive_turns_chunk ts buf x xs b =
      or_break-forward_records (receive_turns can send ts) (length (buf ++ (x ∷ xs)))
        (buf ++ (x ∷ xs)) b (omega arith)

  -- From a framer that holds no whole record, the chunks `cs` are read as their concatenation is.
  pub receive_turns-deliver :
      (cs : List (List ℕ)) (buf : List ℕ) (b : BusLog M)
      → All (λ c. c ≢ []) cs
      → split buf ≡ ([], record { buf = buf })
      → log_of (
          receive_turns can send (map reads cs) (record { framer = record { buf = buf }; log = b }))
        ≡ ended_log (deliver (split (buf ++ flatten cs)).0 b)
  receive_turns-deliver [] buf b full none_left =
      rw (append-nil buf, none_left) (unfold receive_turns in refl)
  receive_turns-deliver ([] ∷ cs) buf b full none_left = absurd (full.0 refl)
  receive_turns-deliver ((x ∷ xs) ∷ cs) buf b full none_left =
      let c = x ∷ xs in
      let g = (split (buf ++ c)).1 in
      receive_turns_chunk (map reads cs) buf x xs b
      ∙ after-ended_log (receive_turns can send (map reads cs)) g
          (deliver (split (g.buf ++ flatten cs)).0) (deliver (split (buf ++ c)).0 b)
          (λ d. receive_turns-deliver cs g.buf d full.1 (split_rest (buf ++ c)))
      ∙ ap ended_log (sym (deliver-append (split (buf ++ c)).0 (split (g.buf ++ flatten cs)).0 b))
      ∙ ap (λ (r : List (List ℕ) × Framer). ended_log (deliver r.0 b))
          (sym (split-append buf_c (flatten cs)))
      ∙ ap (λ (s : List ℕ). ended_log (deliver (split s).0 b)) (append_assoc buf c (flatten cs))
    where
      buf_c : List ℕ
      buf_c = buf ++ (x ∷ xs)

  -- However the peer's bytes are cut into non-empty chunks, the bus log and the way the loop ends are
  -- those of handling the records of the whole byte string one by one.
  pub loop_tcp_to_can-deliver :
      (cs : List (List ℕ)) (b : BusLog M)
      → All (λ c. c ≢ []) cs
      → log_of (loop_tcp_to_can can send (map reads cs) b)
        ≡ ended_log (deliver (split (flatten cs)).0 b)
  unfolding loop_tcp_to_can
  loop_tcp_to_can-deliver cs b full =
      receive_turns-deliver cs [] b full (split_partial [] (unfold next_record in refl))
