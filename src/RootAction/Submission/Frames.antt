-- ===== src/RootAction/Submission/Frames.antt =====
-- Encoding and decoding of a submission frame are inverse
-- (opsctl/agent_runtime_ops/root_actions/submission.py).
use agent_runtime_ops.Prelude.{
  ℕ, ◌+◌, ◌*◌, ◌/◌, ◌%◌, ◌∙◌, ◌≡◌, ◌↔◌, ◌<◌, ◌≤◌, refl, sym, ap, true, [], ◌∷◌, ◌++◌, ltb, ok,
  arith,
}
use agent_runtime_ops.Prelude.Lists.{length, all}
use agent_runtime_ops.RootAction.Job.{Bytes}
use agent_runtime_ops.RootAction.Contracts.{max_manifest_bytes}
use agent_runtime_ops.RootAction.Submission.{
  pack, unpack, encode_submission_frame, decode_submission_frame,
}

unpack-pack :
    (n : ℕ)
    → n ≤ max_manifest_bytes
    → unpack (n / 16_777_216 % 256) (n / 65_536 % 256) (n / 256 % 256) (n % 256) ≡ n
unfolding unpack
unpack-pack n h = omega arith

pack-unpack :
    (a b c d : ℕ)
    → a < 256
    → b < 256
    → c < 256
    → d < 256
    → pack (unpack a b c d) ≡ a ∷ b ∷ c ∷ d ∷ []
unfolding pack unpack
pack-unpack a b c d h i j k =
    let n = a * 16_777_216 + b * 65_536 + c * 256 + d in
    let p : n / 16_777_216 % 256 ≡ a = omega arith in
    let q : n / 65_536 % 256 ≡ b = omega arith in
    let r : n / 256 % 256 ≡ c = omega arith in
    let s : n % 256 ≡ d = omega arith in rw (p, q, r, s) refl

-- The values of bytes.
abbrev pub IsBytes : Bytes → Type 0
IsBytes data_bytes = all (λ b. ltb b 256) data_bytes ≡ true

header-bounds :
    (a b c d : ℕ) (rest : Bytes)
    → IsBytes (a ∷ b ∷ c ∷ d ∷ rest)
    → (a < 256) × (b < 256) × (c < 256) × (d < 256)
unfolding all
header-bounds a b c d rest h = (ground arith, ground arith, ground arith, ground arith)

-- A frame with a header that announces the length of the rest.
record IsFrame (a b c d : ℕ) (rest manifest : Bytes) : Type 0 where
  same : rest ≡ manifest
  not_empty : 1 ≤ unpack a b c d
  bounded : unpack a b c d ≤ max_manifest_bytes
  announced : length rest ≡ unpack a b c d

decode-IsFrame :
    (a b c d : ℕ) (rest manifest : Bytes)
    → (decode_submission_frame (a ∷ b ∷ c ∷ d ∷ rest) ≡ ok manifest) ↔ IsFrame a b c d rest manifest
unfolding decode_submission_frame
decode-IsFrame a b c d rest manifest = (
  λ h. record {
    same = ground arith;
    not_empty = ground arith;
    bounded = ground arith;
    announced = ground arith;
  },
  λ f.
      let p = f.same in
      let q = f.not_empty in let r = f.bounded in let s = f.announced in ground arith,
)

-- What `encode_submission_frame` returns.
record IsEncoded (manifest frame : Bytes) : Type 0 where
  not_empty : 1 ≤ length manifest
  bounded : length manifest ≤ max_manifest_bytes
  same : pack (length manifest) ++ manifest ≡ frame

encode-IsEncoded :
    (manifest frame : Bytes)
    → (encode_submission_frame manifest ≡ ok frame) ↔ IsEncoded manifest frame
unfolding encode_submission_frame
encode-IsEncoded manifest frame = (
  λ h. record { not_empty = ground arith; bounded = ground arith; same = ground arith },
  λ f. let p = f.not_empty in let q = f.bounded in let r = f.same in ground arith,
)

packed-parts :
    (n a b c d : ℕ) (manifest rest : Bytes)
    → pack n ++ manifest ≡ a ∷ b ∷ c ∷ d ∷ rest
    → (n / 16_777_216 % 256 ≡ a)
      × (n / 65_536 % 256 ≡ b)
      × (n / 256 % 256 ≡ c)
      × (n % 256 ≡ d)
      × (manifest ≡ rest)
unfolding pack
packed-parts n a b c d manifest rest h = (cc, cc, cc, cc, cc)

IsFrame-IsEncoded :
    (a b c d : ℕ) (rest manifest : Bytes)
    → IsBytes (a ∷ b ∷ c ∷ d ∷ rest)
    → IsFrame a b c d rest manifest ↔ IsEncoded manifest (a ∷ b ∷ c ∷ d ∷ rest)
IsFrame-IsEncoded a b c d rest manifest h =
    let (i, j, k, l) = header-bounds a b c d rest h in
    (
      λ f.
          let n : length manifest ≡ unpack a b c d = ap length (sym f.same) ∙ f.announced in
          record {
            not_empty = rw n f.not_empty;
            bounded = rw n f.bounded;
            same = rw (n, pack-unpack a b c d i j k l, f.same) refl;
          },
      λ f.
          let (p, q, r, s, e) = packed-parts (length manifest) a b c d manifest rest f.same in
          let n : unpack a b c d ≡ length manifest =
            rw (← p, ← q, ← r, ← s) (unpack-pack (length manifest) f.bounded) in
          record {
            same = sym e;
            not_empty = rw n f.not_empty;
            bounded = rw n f.bounded;
            announced = ap length (sym e) ∙ sym n;
          },
    )

encoded-long : (manifest frame : Bytes) → IsEncoded manifest frame → 4 ≤ length frame
unfolding pack
encoded-long manifest frame f = let e = ap length f.same in omega arith

-- The bytes of a frame are decoded to a manifest exactly if the manifest is encoded as that frame.
pub decode_submission_frame_iff :
    (frame manifest : Bytes)
    → IsBytes frame
    → (decode_submission_frame frame ≡ ok manifest) ↔ (encode_submission_frame manifest ≡ ok frame)
unfolding decode_submission_frame
decode_submission_frame_iff (a ∷ b ∷ c ∷ d ∷ rest) manifest h =
    let (p, q) = IsFrame-IsEncoded a b c d rest manifest h in
    let (i, j) = decode-IsFrame a b c d rest manifest in
    let (k, l) = encode-IsEncoded manifest (a ∷ b ∷ c ∷ d ∷ rest) in
    (λ e. l (p (i e)), λ e. j (q (k e)))
decode_submission_frame_iff frame manifest h = (
  λ e. cc,
  λ e. absurd (omega (arith, encoded-long manifest frame ((encode-IsEncoded manifest frame).0 e))),
)
