-- ===== src/Frame/Errors.antt =====
-- Which records `can_from_frame` accepts, and which messages `frame_from_can` sends.
use canopen_tools.Prelude.{
  ◌⊎◌, inl, inr, take, length-take, ◌+◌, ◌*◌, ◌^◌, ℕ, ◌≤◌, ◌≡◌, refl, List, ◌∷◌, arith, length,
  length-take,
}
use canopen_tools.Outcome.{ok, raise, value_error}
use native.Mathlib.Decide.{dec_le}
use canopen_tools.Frame.{
  CanMessage, can_from_frame, MessageArgs, has_flag, flag_ext, flag_rtr, flag_fd, flag_brs,
  parse_frame,
}

-- Six header bytes, then at least as many bytes as the sixth one says, which is 64 at most.
abbrev pub IsRecord : List ℕ → Type 0
IsRecord (a ∷ b ∷ c ∷ d ∷ flags ∷ n ∷ rest) = (n ≤ 64) × (n ≤ length rest)
IsRecord _ = ⊥

pub parse_frame-IsRecord :
    (buf : List ℕ)
    → IsRecord buf
    → (args : MessageArgs) × (parse_frame buf ≡ ok args) × (length args.payload ≤ 64)
unfolding parse_frame
parse_frame-IsRecord (a ∷ b ∷ c ∷ d ∷ flags ∷ n ∷ rest) h = (
  record {
    arbitration_id = a * 2 ^ 24 + b * 2 ^ 16 + c * 256 + d;
    is_extended_id = has_flag flags flag_ext;
    is_remote_frame = has_flag flags flag_rtr;
    payload = take n rest;
    is_fd = has_flag flags flag_fd;
    bitrate_switch = has_flag flags flag_brs;
  },
  ground arith,
  omega (arith, length-take n rest),
)
parse_frame-IsRecord _ h = elim h [ ]

pub parse_frame-not_IsRecord :
    (buf : List ℕ) → ¬ (IsRecord buf) → parse_frame buf ≡ raise value_error
unfolding parse_frame
parse_frame-not_IsRecord (a ∷ b ∷ c ∷ d ∷ flags ∷ n ∷ rest) h = ground arith
parse_frame-not_IsRecord _ h = refl

IsRecord-dec : (buf : List ℕ) → IsRecord buf ⊎ (¬ (IsRecord buf))
IsRecord-dec (a ∷ b ∷ c ∷ d ∷ flags ∷ n ∷ rest) = elim (dec_le n 64) [
  | yes few ↦ elim (dec_le n (length rest)) [
    | yes enough ↦ inl (few, enough)
    | no short ↦ inr (λ h. short h.1)
  ]
  | no many ↦ inr (λ h. many h.0)
]
IsRecord-dec _ = inr (λ h. h)

module _ {M : Type 0} (can : CanMessage M) where
  can_from_frame-IsRecord :
      (buf : List ℕ)
      → IsRecord buf
      → (args : MessageArgs) × (can_from_frame can buf ≡ ok (can.message args))
        × (length args.payload ≤ 64)
  unfolding can_from_frame
  can_from_frame-IsRecord buf h =
      let (args, parsed, few) = parse_frame-IsRecord buf h in (args, rw parsed, few)

  pub can_from_frame-not_IsRecord :
      (buf : List ℕ) → ¬ (IsRecord buf) → can_from_frame can buf ≡ raise value_error
  unfolding can_from_frame
  can_from_frame-not_IsRecord buf h = rw (parse_frame-not_IsRecord buf h)

  -- A buffer with a six-byte header that announces at most 64 bytes, and with that many bytes behind
  -- it, gives a message with at most 64 bytes of data; on any other the function raises ValueError.
  pub can_from_frame_cases :
      (buf : List ℕ)
      → (IsRecord buf
          × (args : MessageArgs) × (can_from_frame can buf ≡ ok (can.message args))
          × (length args.payload ≤ 64))
        ⊎ ((¬ (IsRecord buf)) × (can_from_frame can buf ≡ raise value_error))
  can_from_frame_cases buf = elim (IsRecord-dec buf) [
    | inl good ↦
        let (args, built, few) = can_from_frame-IsRecord buf good in inl (good, args, built, few)
    | inr bad ↦ inr (bad, can_from_frame-not_IsRecord buf bad)
  ]
