-- ===== src/Firmware/Protocol/Transfer.antt =====
-- The copy of the file in the protocol: what the transfer has taken is a front of the file, and all
-- of it when the copy ends.
use canopen_tools.Prelude.{
  ℕ, zero, suc, ◌+◌, ◌≡◌, refl, sym, ap, ◌∙◌, inl, inr, List, [], ◌∷◌, ◌++◌, ◌==◌, length, take,
  drop, Bool-cases, append-nil, append_assoc, take-append-drop,
}
use canopen_tools.Firmware.Device.{
  open_file, read_file, close_file, open_transfer, write, show_progress, close_transfer, Env, M,
  finally, ◌>>◌, perform,
}
use canopen_tools.Firmware.Protocol.{
  Stage, erased, downloading, downloaded, verified, started, confirmed, violation, refused,
  end_transfer,
}
use canopen_tools.Firmware.Protocol.Rules.{
  To, Leads, Leads-perform, Leads-finally, Leads-then, refused_self, Leads-quiet,
}
use canopen_tools.Firmware.Flash.{report, chunk_size, copy_chunk, copy_loop, download}

module _ (content : List ℕ) where
  abbrev pub IsFront : List ℕ → Type 0
  IsFront sent = (left : List ℕ) × (sent ++ left ≡ content)

  -- Within the block transfer.
  abbrev pub InTransfer : Stage → Type 0
  InTransfer (downloading sent) = IsFront sent
  InTransfer _ = ⊥

  -- No call was out of order, and a verified image is the file.
  abbrev pub IsSafe : Stage → Type 0
  IsSafe violation = ⊥
  IsSafe (downloading sent) = IsFront sent
  IsSafe (downloaded sent) = IsFront sent
  IsSafe (verified sent) = sent ≡ content
  IsSafe (started sent) = sent ≡ content
  IsSafe (confirmed sent) = sent ≡ content
  IsSafe _ = Unit

  abbrev Copied : Unit {0} → Stage → Type 0
  Copied u t = t ≡ downloading content

  module _ (env : Env) where
    report-Leads :
        (total size : ℕ) (sent : List ℕ)
        → IsFront sent
        → Leads
            (downloading sent)
            (To InTransfer (λ n t. t ≡ downloading sent))
            (report env total size)
    unfolding report
    report-Leads total size sent front = elim (Bool-cases (size == 0)) [
      | inl empty ↦ rw empty (λ l h. rw h front)
      | inr full ↦ rw full (
          Leads-quiet env (show_progress total size) (downloading sent) InTransfer (λ n. refl)
            front)
    ]

    copy_chunk-Leads :
        (again : ℕ → List ℕ → M (Unit {0})) (size total : ℕ) (left sent : List ℕ)
        → sent ++ left ≡ content
        → ((n : ℕ) (rest more : List ℕ)
            → more ++ rest ≡ content
            → Leads (downloading more) (To InTransfer Copied) (again n rest))
        → Leads (downloading sent) (To InTransfer Copied) (copy_chunk env again size total left)
    unfolding copy_chunk
    copy_chunk-Leads again size total [] sent whole later =
        Leads-then (downloading sent) (downloading sent) InTransfer Copied (perform env read_file) _
          (Leads-quiet env read_file (downloading sent) InTransfer (λ n. refl) ([], whole))
          (λ n l h. h ∙ ap downloading (sym (append-nil sent) ∙ whole))
    copy_chunk-Leads again size total (b ∷ left) sent whole later =
        Leads-then (downloading sent) (downloading sent) InTransfer Copied (perform env read_file) _
          (Leads-quiet env read_file (downloading sent) InTransfer (λ n. refl) (b ∷ left, whole))
          λ n.
            Leads-then (downloading sent) (downloading (sent ++ chunk)) InTransfer Copied
              (perform env (write chunk)) _
              (Leads-perform env (write chunk) (downloading sent) InTransfer _ (λ n. refl)
                (b ∷ left, whole))
              λ m.
                Leads-then (downloading (sent ++ chunk)) (downloading (sent ++ chunk)) InTransfer
                  Copied (report env (total + length chunk) size) _
                  (report-Leads (total + length chunk) size (sent ++ chunk) (rest, still_whole))
                  (λ k. later (total + length chunk) rest (sent ++ chunk) still_whole)
      where
        chunk : List ℕ
        chunk = take chunk_size (b ∷ left)

        rest : List ℕ
        rest = drop chunk_size (b ∷ left)

        still_whole : (sent ++ chunk) ++ rest ≡ content
        still_whole =
            append_assoc sent chunk rest
            ∙ ap (λ (t : List ℕ). sent ++ t) (take-append-drop chunk_size (b ∷ left))
            ∙ whole

    copy_loop-Leads :
        (fuel size total : ℕ) (left sent : List ℕ)
        → sent ++ left ≡ content
        → Leads (downloading sent) (To InTransfer Copied) (copy_loop env fuel size total left)
    unfolding copy_loop
    copy_loop-Leads zero size total left sent whole = λ l h. rw h (left, whole)
    copy_loop-Leads (suc fuel) size total left sent whole =
        copy_chunk-Leads (copy_loop env fuel size) size total left sent whole
          (λ n rest more h. copy_loop-Leads fuel size n rest more h)

    -- The download ends with the whole file transferred, or raises with a front of it.
    pub download-Leads :
        (size : ℕ)
        → Leads erased (To IsSafe (λ u t. t ≡ downloaded content)) (download env size content)
    unfolding download
    download-Leads size =
        Leads-then erased erased IsSafe Stored (perform env open_file) _
          (Leads-quiet env open_file erased IsSafe (λ n. refl) tt)
          λ n.
            Leads-finally env close_file erased IsSafe IsSafe Stored Stored _ transferred
              (λ u t n e. e) (λ u t e. rw (refused_self t, e) ([], append-nil content)) (λ t n e. e)
              (λ t e. rw (refused_self t) e) (λ t e. e)
      where
        Stored : Unit {0} → Stage → Type 0
        Stored u t = t ≡ downloaded content

        in_transfer-IsSafe : (t : Stage) → InTransfer t → IsSafe t
        in_transfer-IsSafe (downloading sent) h = h
        in_transfer-IsSafe _ h = elim h [ ]

        closed : (t : Stage) → InTransfer t → IsSafe (end_transfer t)
        closed (downloading sent) h = h
        closed _ h = elim h [ ]

        failed : (t : Stage) → InTransfer t → IsSafe (refused t (end_transfer t))
        failed (downloading sent) h = h
        failed _ h = elim h [ ]

        transferred : Leads erased (To IsSafe Stored) (do
          perform env (open_transfer size)
          finally
              (copy_loop env (suc (length content)) size 0 content)
              (perform env close_transfer))
        transferred =
            Leads-then erased (downloading []) IsSafe Stored (perform env (open_transfer size)) _
              (Leads-perform env (open_transfer size) erased IsSafe _ (λ n. refl) tt)
              λ n.
                Leads-finally env close_transfer (downloading []) InTransfer IsSafe Copied Stored _
                  (copy_loop-Leads (suc (length content)) size 0 content [] refl) (λ u t n e. rw e)
                  (λ u t e. rw e ([], append-nil content)) (λ t n. closed t) failed
                  in_transfer-IsSafe
